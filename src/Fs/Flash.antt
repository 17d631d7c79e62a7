-- ===== src/Fs/Flash.antt =====
-- The layout of the flash, and the helpers of src/fs/ositofs.cpp that read and write it. The chip is
-- the byte at each address. `SPIRead`, `SPIWrite` and `SPIEraseSector` are functions of the ROM, so
-- they are parameters.
use osito_k.Base.{
  ℕ, zero, suc, ◌+◌, ◌-◌, ◌*◌, ◌/◌, ◌%◌, ◌^◌, ◌≤◌, ◌<◌, ◌≡◌, ◌⊎◌, ◌&&◌, Array, ltb, leb, ◌==◌,
  if◌then◌else◌,
}

abbrev pub u32 : ℕ
u32 = 2 ^ 32

abbrev pub fs_sector_size : ℕ
fs_sector_size = 4096

abbrev pub fs_max_files : ℕ
fs_max_files = 128

abbrev pub fs_name_len : ℕ
fs_name_len = 24

abbrev pub fs_flash_base : ℕ
fs_flash_base = 0x40000

abbrev pub fs_super_addr : ℕ
fs_super_addr = fs_flash_base

abbrev pub fs_table_addr : ℕ
fs_table_addr = fs_flash_base + fs_sector_size

abbrev pub fs_data_addr : ℕ
fs_data_addr = fs_flash_base + 2 * fs_sector_size

abbrev pub fs_data_sectors : ℕ
fs_data_sectors = (0x400000 - fs_data_addr) / fs_sector_size

-- The chip's functions. `spi_read chip addr len` is the buffer that is read, by its bytes, and
-- `spi_write chip addr src len` writes the first `len` bytes of `src`.
pub record Spi : Type 0 where
  pub spi_read : Array ℕ → ℕ → ℕ → Array ℕ
  pub spi_write : Array ℕ → ℕ → Array ℕ → ℕ → Array ℕ
  pub spi_erase_sector : Array ℕ → ℕ → Array ℕ

-- What the data sheet of a NOR flash says: a read gives the bytes, erasing a sector makes its bytes
-- 0xff, and writing to erased bytes leaves what is written. A write to bytes that are not erased is
-- not described.
pub record IsSpi (spi : Spi) : Type 0 where
  pub reads :
      (chip : Array ℕ) (addr len i : ℕ) → i < len → spi.spi_read chip addr len i ≡ chip (addr + i)
  pub erases :
      (chip : Array ℕ) (sector a : ℕ)
      → spi.spi_erase_sector chip sector a ≡ (if a / fs_sector_size == sector then 0xff else chip a)
  pub writes :
      (chip : Array ℕ) (addr : ℕ) (src : Array ℕ) (len i : ℕ)
      → ((j : ℕ) → j < len → chip (addr + j) ≡ 0xff)
      → i < len
      → spi.spi_write chip addr src len (addr + i) ≡ src i
  pub writes_inside :
      (chip : Array ℕ) (addr : ℕ) (src : Array ℕ) (len a : ℕ)
      → (a < addr) ⊎ (addr + len ≤ a)
      → spi.spi_write chip addr src len a ≡ chip a

-- `memcpy(dst + p, src, n)`
abbrev pub blit : Array ℕ → ℕ → Array ℕ → ℕ → Array ℕ
blit dst p src n i = if leb p i && ltb i (p + n) then src (i - p) else dst i

-- `(x + 3) & ~3u`
abbrev pub round4 : ℕ → ℕ
round4 x = (x + 3) % u32 / 4 * 4

-- `len > 64 ? 64 : len`
abbrev pub chunk64 : ℕ → ℕ
chunk64 len = if ltb 64 len then 64 else len

module _ (spi : Spi) where
  -- The loop for a buffer that is not aligned: the next byte goes to `dst[p]`.
  unfoldable pub read_chunks : ℕ → Array ℕ → ℕ → Array ℕ → ℕ → ℕ → Array ℕ
  read_chunks zero chip addr dst p len = dst
  read_chunks (suc f) chip addr dst p len =
      let n = chunk64 len in
      let rest =
        read_chunks f chip (addr + n) (blit dst p (spi.spi_read chip addr (round4 n)) n) (p + n)
          (len - n) in
      if len == 0 then dst else rest

  -- The buffer `dst`, which lies at the address `at`, after a read of `len` bytes.
  unfoldable pub flash_read : Array ℕ → ℕ → Array ℕ → ℕ → ℕ → Array ℕ
  flash_read chip addr dst at len =
      if at % 4 == 0
      then blit dst 0 (spi.spi_read chip addr len) len
      else read_chunks len chip addr dst 0 len

  unfoldable pub flash_erase_sector : Array ℕ → ℕ → Array ℕ
  flash_erase_sector chip addr = spi.spi_erase_sector chip (addr / fs_sector_size)

  -- The loop for a source that is not aligned; `tmp` is the buffer on the stack.
  unfoldable pub write_chunks : ℕ → Array ℕ → ℕ → Array ℕ → ℕ → Array ℕ → ℕ → Array ℕ
  write_chunks zero chip addr src p tmp len = chip
  write_chunks (suc f) chip addr src p tmp len =
      let n = chunk64 len in
      let tmp' = blit tmp 0 (λ i. src (p + i)) n in
      let rest =
        write_chunks f (spi.spi_write chip addr tmp' (round4 n)) (addr + n) src (p + n) tmp'
          (len - n) in
      if len == 0 then chip else rest

  -- A write of `len` bytes of the buffer `src`, which lies at the address `at`.
  unfoldable pub flash_write : Array ℕ → Array ℕ → ℕ → Array ℕ → ℕ → ℕ → Array ℕ
  flash_write tmp chip addr src at len =
      if at % 4 == 0
      then spi.spi_write chip addr src len
      else write_chunks len chip addr src 0 tmp len
