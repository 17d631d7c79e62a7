-- ===== src/Fs/Update.antt =====
-- `fs_overwrite` and `fs_append` of src/fs/ositofs.cpp.
pub mod Sectors
pub mod Rewrite
pub mod Overwrite
pub mod Tail
pub mod Append
pub mod Appended
use osito_k.Base.{
  ℕ, zero, suc, ◌+◌, ◌-◌, ◌/◌, ◌%◌, Bool, true, false, not, ◌||◌, Option, none, some, Array, ltb,
  leb, ◌==◌, if◌then◌else◌,
}
use osito_k.Fs.Flash.{
  Spi, u32, fs_sector_size, round4, blit, flash_read, flash_erase_sector, flash_write,
}
use osito_k.Fs.Table.{
  put_u32, put_u16, table_entry, entry_size, start_sector, sector_count, find_file, clear_entry,
}
use osito_k.Fs.Calls.{
  Fs, data_sector, sectors_for, chunk_of, read_table, write_table, one_file_less, fs_create,
}

module _ (spi : Spi) (tmp : Array ℕ) where
  -- The loop that erases the sectors of a file, and the one that writes without erasing.
  unfoldable pub erase_sectors : ℕ → Array ℕ → ℕ → ℕ → Array ℕ
  erase_sectors zero chip start s = chip
  erase_sectors (suc k) chip start s =
      erase_sectors k (flash_erase_sector spi chip (data_sector (start + s))) start (s + 1)

  unfoldable pub rewrite_sectors : ℕ → Array ℕ → ℕ → ℕ → Array ℕ → ℕ → ℕ → ℕ → Array ℕ
  rewrite_sectors zero chip start s src at off remaining = chip
  rewrite_sectors (suc k) chip start s src at off remaining =
      let chunk = chunk_of remaining in
      rewrite_sectors k
        (flash_write spi tmp chip (data_sector (start + s)) (λ i. src (off + i)) (at + off)
          (round4 chunk))
        start (s + 1) src at (off + chunk) (remaining - chunk)

  -- The new data fits in the sectors of file `i`.
  unfoldable pub rewrite_file : Fs → ℕ → Array ℕ → ℕ → ℕ → Fs
  rewrite_file fs i src at size =
      let nsec = sectors_for size in
      let start = start_sector fs.sec_buf i in
      let chip = erase_sectors (sector_count fs.sec_buf i) fs.flash start 0 in
      let chip = rewrite_sectors nsec chip start 0 src at 0 size in
      let t = put_u32 fs.sec_buf (table_entry i + 24) size in
      write_table spi tmp
        (record fs { flash = chip; sec_buf = put_u16 t (table_entry i + 30) nsec })

  unfoldable pub overwrite_found : Fs → Array ℕ → Array ℕ → ℕ → ℕ → Option ℕ → Fs × Bool
  overwrite_found fs name src at size none = fs_create spi tmp fs name src at size
  overwrite_found fs name src at size (some i) =
      let cleared = write_table spi tmp (record fs { sec_buf = clear_entry fs.sec_buf i }) in
      if leb (sectors_for size) (sector_count fs.sec_buf i)
      then (rewrite_file fs i src at size, true)
      else fs_create spi tmp (one_file_less spi tmp cleared) name src at size

  unfoldable pub fs_overwrite : Fs → Array ℕ → Array ℕ → ℕ → ℕ → Fs × Bool
  fs_overwrite fs name src at size =
      let fs' = read_table spi tmp fs in
      if not fs.mounted
      then (fs, false)
      else if (name 0 == 0) || (size == 0)
      then (fs, false)
      else overwrite_found fs' name src at size (find_file fs'.sec_buf name)

  -- The loop of `fs_append` over whole sectors.
  unfoldable pub append_sectors : ℕ → Array ℕ → ℕ → ℕ → Array ℕ → ℕ → ℕ → ℕ → Array ℕ
  append_sectors zero chip start write_pos src at off remaining = chip
  append_sectors (suc f) chip start write_pos src at off remaining =
      let addr = data_sector (start + write_pos / fs_sector_size) in
      let chunk = chunk_of remaining in
      let rest =
        append_sectors f
          (flash_write spi tmp (flash_erase_sector spi chip addr) addr (λ i. src (off + i))
            (at + off) (round4 chunk))
          start (write_pos + chunk) src at (off + chunk) (remaining - chunk) in
      if remaining == 0 then chip else rest

  -- The sector that is partly filled is read, completed and written back.
  unfoldable pub append_partial : Fs → ℕ → ℕ → Array ℕ → ℕ → Fs
  append_partial fs start write_pos src chunk =
      let addr = data_sector (start + write_pos / fs_sector_size) in
      let buf = flash_read spi fs.flash addr fs.sec_buf 0 fs_sector_size in
      let buf = blit buf (write_pos % fs_sector_size) src chunk in
      record fs {
        sec_buf = buf;
        flash =
            flash_write spi tmp (flash_erase_sector spi fs.flash addr) addr buf 0 fs_sector_size;
      }

  unfoldable pub append_file : Fs → ℕ → Array ℕ → ℕ → ℕ → Fs
  append_file fs i src at size =
      let old_size = entry_size fs.sec_buf i in
      let start = start_sector fs.sec_buf i in
      let space = fs_sector_size - old_size % fs_sector_size in
      let chunk = if ltb size space then size else space in
      let partly = not (old_size % fs_sector_size == 0) in
      let first = if partly then chunk else 0 in
      let fs' = if partly then append_partial fs start old_size src chunk else fs in
      let chip =
        append_sectors (size - first) fs'.flash start (old_size + first) src at first
          (size - first) in
      let loaded = read_table spi tmp (record fs' { flash = chip }) in
      write_table spi tmp (record loaded {
        sec_buf = put_u32 loaded.sec_buf (table_entry i + 24) ((old_size + size) % u32);
      })

  unfoldable pub append_found : Fs → Array ℕ → ℕ → ℕ → Option ℕ → Fs × Bool
  append_found fs src at size none = (fs, false)
  append_found fs src at size (some i) =
      if ltb (sector_count fs.sec_buf i) (sectors_for ((entry_size fs.sec_buf i + size) % u32))
      then (fs, false)
      else (append_file fs i src at size, true)

  unfoldable pub fs_append : Fs → Array ℕ → Array ℕ → ℕ → ℕ → Fs × Bool
  fs_append fs name src at size =
      let fs' = read_table spi tmp fs in
      if not fs.mounted || (size == 0)
      then (fs, false)
      else append_found fs' src at size (find_file fs'.sec_buf name)
