-- ===== src/Fs/Samples.antt =====
-- A flash as an array, names, and file systems with no file and with one.
use osito_k.Base.{
  ℕ, ◌+◌, ◌-◌, ◌/◌, ◌≡◌, refl, true, some, Array, ◌==◌, if◌then◌else◌, arith, first_index,
}
use osito_k.Fs.Flash.{Spi, IsSpi, blit, flash_read}
use osito_k.Fs.Table.{entry_free, find_file, strcmp_loop, same_name}
use osito_k.Fs.Table.Strings.{IsName}
use osito_k.Fs.Calls.{Fs, read_table}

-- A flash that does what is written, also to bytes that are not erased.
abbrev pub array_spi : Spi
array_spi = record {
  spi_read = λ chip addr len i. chip (addr + i);
  spi_write = λ chip addr src len. blit chip addr src len;
  spi_erase_sector = λ chip sector a. if a / 4096 == sector then 0xff else chip a;
}

pub array_spi-IsSpi : IsSpi array_spi
array_spi-IsSpi = record {
  reads = λ chip addr len i h. refl;
  erases = λ chip sector a. refl;
  writes = λ chip addr src len i blank h.
      let q : addr + i - addr ≡ i = omega arith in rw q (ground arith);
  writes_inside = λ chip addr src len a h. ground arith;
}

abbrev pub no_bytes : Array ℕ
no_bytes = λ _. 0

-- The name `ab`.
abbrev pub ab : Array ℕ
ab i = if i == 0 then 97 else if i == 1 then 98 else 0

pub ab-IsName : IsName ab 2
ab-IsName = record {
  chars = λ j h. ground arith;
  ends = refl;
  not_empty = omega arith;
  fits = omega arith;
  not_erased = omega arith;
}

-- A mounted file system with no file.
abbrev pub no_files : Fs
no_files = record { flash = no_bytes; sec_buf = no_bytes; mounted = true }

-- A table with one file, `a`, of 10 bytes in sector 0.
abbrev pub one_file : Array ℕ
one_file a = if a == 0x41000 then 97 else if a == 0x41018 then 10 else if a == 0x4101e then 1 else 0

abbrev pub with_a : Fs
with_a = record { flash = one_file; sec_buf = no_bytes; mounted = true }

abbrev pub a_name : Array ℕ
a_name i = if i == 0 then 97 else 0

pub found_a : find_file (read_table array_spi no_bytes with_a).sec_buf a_name ≡ some 0
unfolding read_table find_file first_index entry_free flash_read same_name strcmp_loop
found_a = refl
