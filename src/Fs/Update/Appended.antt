-- ===== src/Fs/Update/Appended.antt =====
-- A file read after `fs_append`.
use osito_k.Base.{
  ℕ, ◌+◌, ◌-◌, ◌%◌, ◌^◌, ◌<◌, ◌≤◌, ◌≡◌, ◌⊎◌, inl, inr, refl, sym, ap, ap₂, ◌∙◌, true, false, not,
  ltb, Array, if◌then◌else◌, Bool-cases, some, arith, ◌||◌, ◌==◌, min,
}
use osito_k.Fs.Flash.{Spi, IsSpi, u32, fs_sector_size, fs_max_files, fs_table_addr}
use osito_k.Fs.Table.{entry_size, start_sector, sector_count, find_file}
use osito_k.Fs.Table.Strings.{IsName}
use osito_k.Fs.Calls.Reading.{IsFile, fs_read-IsFile}
use osito_k.Fs.Calls.{Fs, data_sector, sectors_for, read_table, fs_read}
use osito_k.Fs.Calls.Sectors.{read_table_lem, read_table-flash, read_table-mounted}
use osito_k.Fs.Calls.Delete.{table_of}
use osito_k.Fs.Update.{append_file, append_found, fs_append}
use osito_k.Fs.Update.Append.{appended_fields, appended_found, appended_data, appended-mounted}

module _ (spi : Spi) (laws : IsSpi spi) (tmp : Array ℕ) (fs : Fs) (i : ℕ) (name src : Array ℕ)
    (at size n : ℕ) (hi : i < fs_max_files) (v : IsName name n) (m : fs.mounted ≡ true)
    (found : find_file (table_of spi tmp fs) name ≡ some i)
    (small : entry_size (table_of spi tmp fs) i + size < 2 ^ 28 - fs_sector_size) where
  abbrev t : Array ℕ
  t = table_of spi tmp fs

  abbrev new : Fs
  new = append_file spi tmp (read_table spi tmp fs) i src at size

  same : (j : ℕ) → j < fs_sector_size → t j ≡ (read_table spi tmp fs).flash (fs_table_addr + j)
  same j h =
      read_table_lem spi laws tmp fs j h
      ∙ sym (ap (λ c. c (fs_table_addr + j)) (read_table-flash spi laws tmp fs))

  -- The old bytes, and the new ones behind them.
  abbrev pub Appended : Fs → Type 0
  Appended fs' =
      (buf : Array ℕ) (at' max_size : ℕ)
      → let total = entry_size t i + size in
        let (_, buf', r) = fs_read spi tmp fs' name buf at' max_size in
        (r ≡ some (min total max_size))
        × ((j : ℕ)
            → j < min total max_size
            → buf' j ≡ (
                if ltb j (entry_size t i)
                then fs.flash (data_sector (start_sector t i) + j)
                else src (j - entry_size t i)))

  abbrev old_and_new : Array ℕ
  old_and_new j =
      if ltb j (entry_size t i)
      then fs.flash (data_sector (start_sector t i) + j)
      else src (j - entry_size t i)

  appended-IsFile : IsFile spi tmp new name old_and_new (entry_size t i + size) i (start_sector t i)
  appended-IsFile =
      let loaded = read_table spi tmp fs in
      let (sz, st, _) = appended_fields spi laws tmp loaded i src at size hi (omega arith) same in
      record {
        below = omega arith;
        mounted =
            appended-mounted spi laws tmp loaded i src at size hi (omega arith) same
            ∙ read_table-mounted spi laws tmp fs
            ∙ m;
        found =
            appended_found spi laws tmp loaded i src at size hi (omega arith) same name n v ∙ found;
        has_size = sz;
        starts = st;
        bytes = λ j h.
            appended_data spi laws tmp loaded i src at size hi (omega arith) same j h
            ∙ ap
                (λ (c : Array ℕ).
                  if ltb j (entry_size t i)
                  then c (data_sector (start_sector t i) + j)
                  else src (j - entry_size t i))
                (read_table-flash spi laws tmp fs);
      }

  read_back : Appended new
  read_back buf at' max_size = fs_read-IsFile spi laws tmp appended-IsFile buf at' max_size

  fs_append_goes :
      0 < size
      → fs_append spi tmp fs name src at size
        ≡ append_found spi tmp (read_table spi tmp fs) src at size (some i)
  unfolding fs_append
  fs_append_goes pos =
      let z : (size == 0) ≡ false = ground arith in
      ap₂
        (λ x r.
          if not x || (size == 0)
          then (fs, false)
          else append_found spi tmp (read_table spi tmp fs) src at size r)
        m found
      ∙ rw z refl

  append_found_lem :
      let (fs', done) = append_found spi tmp (read_table spi tmp fs) src at size (some i) in
      ((sector_count t i < sectors_for (entry_size t i + size))
        × (done ≡ false)
        × (fs'.flash ≡ fs.flash))
      ⊎ ((sectors_for (entry_size t i + size) ≤ sector_count t i) × (done ≡ true) × Appended fs')
  unfolding append_found
  append_found_lem =
      let w : (entry_size t i + size) % u32 ≡ entry_size t i + size = omega arith in
      elim (Bool-cases (ltb (sector_count t i) (sectors_for (entry_size t i + size)))) [
        | inl y ↦ rw (w, y) (inl (ground arith, refl, read_table-flash spi laws tmp fs))
        | inr no_room ↦ rw (w, no_room) (inr (ground arith, refl, read_back))
      ]

  -- `fs_append` of at least a byte to a file that is found, on a mounted file system and a flash that
  -- keeps the data sheet, the new size below 2 ^ 28 - 4096: if the file's sectors do not hold the new
  -- size, it fails and leaves the flash as it was. Otherwise it succeeds, and `fs_read` returns the new
  -- size, or the size of the buffer if that is less, and the buffer begins with the bytes that stood in
  -- the file's sectors, and behind the old size with the new bytes.
  pub fs_read-fs_append :
      0 < size
      → let (fs', done) = fs_append spi tmp fs name src at size in
        ((sector_count t i < sectors_for (entry_size t i + size))
          × (done ≡ false)
          × (fs'.flash ≡ fs.flash))
        ⊎ ((sectors_for (entry_size t i + size) ≤ sector_count t i) × (done ≡ true) × Appended fs')
  fs_read-fs_append pos = rw (fs_append_goes pos) append_found_lem
