-- ===== src/Fs/Calls.antt =====
-- The calls of src/fs/ositofs.cpp. Interrupts are off in the calls that write, so each is one step.
-- A buffer is the array that its pointer points to, with the address `at` where it lies; `sec_buf` is
-- aligned. What is printed is left out.
pub mod Data
pub mod Sectors
pub mod Created
pub mod Reading
pub mod RoundTrip
pub mod Keeps
pub mod Delete
pub mod Rename
use osito_k.Base.{
  ℕ, zero, suc, ◌+◌, ◌-◌, ◌*◌, ◌/◌, ◌%◌, ◌^◌, Bool, true, false, not, ◌&&◌, ◌||◌, Option, none,
  some, Array, update, ltb, leb, ◌==◌, if◌then◌else◌,
}
use osito_k.Fs.Flash.{
  Spi, u32, fs_sector_size, fs_name_len, fs_super_addr, fs_table_addr, fs_data_addr,
  fs_data_sectors, round4, blit, flash_read, flash_erase_sector, flash_write,
}
use osito_k.Fs.Table.{
  put_u32, u32_at, table_entry, entry_size, start_sector, sector_count, find_file, find_free_slot,
  clear_entry, fill_entry, fs_strncpy, put_u16,
}
use osito_k.Fs.Bitmap.{build_bitmap, alloc_sectors, count_free}

abbrev pub fs_magic : ℕ
fs_magic = 0x4f534654

abbrev pub fs_version : ℕ
fs_version = 1

-- The chip, and the statics.
pub record Fs : Type 0 where
  pub flash : Array ℕ
  pub sec_buf : Array ℕ
  pub mounted : Bool

pub record Super : Type 0 where
  pub magic : ℕ
  pub version : ℕ
  pub total_sectors : ℕ
  pub file_count : ℕ

abbrev pub data_sector : ℕ → ℕ
data_sector s = fs_data_addr + s * fs_sector_size

-- `(uint16_t)((size + FS_SECTOR_SIZE - 1) / FS_SECTOR_SIZE)`
unfoldable pub sectors_for : ℕ → ℕ
sectors_for size = (size + fs_sector_size - 1) % u32 / fs_sector_size % 2 ^ 16

abbrev pub chunk_of : ℕ → ℕ
chunk_of remaining = if ltb fs_sector_size remaining then fs_sector_size else remaining

module _ (spi : Spi) (tmp : Array ℕ) where
  unfoldable pub read_table : Fs → Fs
  read_table fs = record fs {
    sec_buf = flash_read spi fs.flash fs_table_addr fs.sec_buf 0 fs_sector_size;
  }

  unfoldable pub write_table : Fs → Fs
  write_table fs = record fs {
    flash =
        flash_write spi tmp (flash_erase_sector spi fs.flash fs_table_addr) fs_table_addr fs.sec_buf
          0 fs_sector_size;
  }

  unfoldable pub read_super : Fs → Super
  read_super fs =
      let b = flash_read spi fs.flash fs_super_addr (λ _. 0) 0 16 in
      record {
        magic = u32_at b 0;
        version = u32_at b 4;
        total_sectors = u32_at b 8;
        file_count = u32_at b 12;
      }

  unfoldable pub write_super : Fs → Super → Fs
  write_super fs sb =
      let b = put_u32 (put_u32 (λ _. 0xff) 0 sb.magic) 4 sb.version in
      let b = put_u32 (put_u32 b 8 sb.total_sectors) 12 sb.file_count in
      record fs {
        sec_buf = b;
        flash =
            flash_write spi tmp (flash_erase_sector spi fs.flash fs_super_addr) fs_super_addr b 0
              fs_sector_size;
      }

  -- `true` for the result 0, `false` for -1.
  unfoldable pub fs_init : Fs → Fs × Bool
  fs_init fs =
      let sb = read_super fs in
      let found = (sb.magic == fs_magic) && (sb.version == fs_version) in
      (record fs { mounted = found }, found)

  unfoldable pub fs_format : Fs → Fs
  fs_format fs =
      let chip = flash_erase_sector spi fs.flash fs_super_addr in
      let chip = flash_erase_sector spi chip fs_table_addr in
      let chip = flash_write spi tmp chip fs_table_addr (λ _. 0) 0 fs_sector_size in
      let fs' =
        write_super (record { flash = chip; sec_buf = λ _. 0; mounted = fs.mounted })
          (record {
            magic = fs_magic;
            version = fs_version;
            total_sectors = fs_data_sectors;
            file_count = 0;
          }) in
      record fs' { mounted = true }

  -- `sb.file_count++`, and `if (sb.file_count > 0) sb.file_count--`
  unfoldable pub one_file_more : Fs → Fs
  one_file_more fs =
      let sb = read_super fs in
      write_super fs (record sb { file_count = (sb.file_count + 1) % u32 })

  unfoldable pub one_file_less : Fs → Fs
  one_file_less fs =
      let sb = read_super fs in write_super fs (record sb { file_count = sb.file_count - 1 })

  -- The loop that writes a file: `k` sectors are left, from the number `s` of the file on, and the
  -- next byte of the buffer is number `off`.
  unfoldable pub write_sectors : ℕ → Array ℕ → ℕ → ℕ → Array ℕ → ℕ → ℕ → ℕ → Array ℕ
  write_sectors zero chip start s src at off remaining = chip
  write_sectors (suc k) chip start s src at off remaining =
      let addr = data_sector (start + s) in
      let chunk = chunk_of remaining in
      write_sectors k
        (flash_write spi tmp (flash_erase_sector spi chip addr) addr (λ i. src (off + i)) (at + off)
          (round4 chunk))
        start (s + 1) src at (off + chunk) (remaining - chunk)

  -- The file gets its sectors, its entry, and is counted.
  unfoldable pub create_file : Fs → Array ℕ → Array ℕ → ℕ → ℕ → ℕ → ℕ → Fs
  create_file fs name src at size slot start =
      let nsec = sectors_for size in
      let chip = write_sectors nsec fs.flash start 0 src at 0 size in
      one_file_more (
        write_table
          (record fs { flash = chip; sec_buf = fill_entry fs.sec_buf slot name size start nsec }))

  unfoldable pub create_in_slot : Fs → Array ℕ → Array ℕ → ℕ → ℕ → ℕ → Option ℕ → Fs × Bool
  create_in_slot fs name src at size slot none = (fs, false)
  create_in_slot fs name src at size slot (some start) =
      (create_file fs name src at size slot start, true)

  -- With what was found of the name, and a free slot.
  unfoldable pub create_new : Fs → Array ℕ → Array ℕ → ℕ → ℕ → Option ℕ → Option ℕ → Fs × Bool
  create_new fs name src at size (some i) slot = (fs, false)
  create_new fs name src at size none none = (fs, false)
  create_new fs name src at size none (some slot) =
      create_in_slot fs name src at size slot
        (alloc_sectors (build_bitmap fs.sec_buf) (sectors_for size))

  unfoldable pub fs_create : Fs → Array ℕ → Array ℕ → ℕ → ℕ → Fs × Bool
  fs_create fs name src at size =
      let fs' = read_table fs in
      if not fs.mounted
      then (fs, false)
      else if (name 0 == 0) || (size == 0)
      then (fs, false)
      else create_new fs' name src at size (find_file fs'.sec_buf name) (find_free_slot fs'.sec_buf)

  -- The buffer afterwards, and the number of bytes, or `none` for -1.
  unfoldable pub read_found : Fs → Array ℕ → ℕ → ℕ → Option ℕ → Fs × Array ℕ × Option ℕ
  read_found fs buf at max_size none = (fs, buf, none)
  read_found fs buf at max_size (some i) =
      let size = entry_size fs.sec_buf i in
      let to_read = if ltb size max_size then size else max_size in
      let addr = data_sector (start_sector fs.sec_buf i) in
      (fs, flash_read spi fs.flash addr buf at (round4 to_read), some to_read)

  unfoldable pub fs_read : Fs → Array ℕ → Array ℕ → ℕ → ℕ → Fs × Array ℕ × Option ℕ
  fs_read fs name buf at max_size =
      let fs' = read_table fs in
      if not fs.mounted
      then (fs, buf, none)
      else read_found fs' buf at max_size (find_file fs'.sec_buf name)

  unfoldable pub remove_file : Fs → ℕ → Fs
  remove_file fs i = one_file_less (write_table (record fs { sec_buf = clear_entry fs.sec_buf i }))

  unfoldable pub delete_found : Fs → Option ℕ → Fs × Bool
  delete_found fs none = (fs, false)
  delete_found fs (some i) = (remove_file fs i, true)

  unfoldable pub fs_delete : Fs → Array ℕ → Fs × Bool
  fs_delete fs name =
      let fs' = read_table fs in
      if not fs.mounted then (fs, false) else delete_found fs' (find_file fs'.sec_buf name)

  unfoldable pub size_found : Fs → Option ℕ → Option ℕ
  size_found fs none = none
  size_found fs (some i) = some (entry_size fs.sec_buf i)

  unfoldable pub fs_stat : Fs → Array ℕ → Fs × Option ℕ
  fs_stat fs name =
      let fs' = read_table fs in
      if not fs.mounted then (fs, none) else (fs', size_found fs' (find_file fs'.sec_buf name))

  unfoldable pub fs_free : Fs → Fs × ℕ
  fs_free fs =
      let fs' = read_table fs in
      if not fs.mounted
      then (fs, 0)
      else (fs', count_free (build_bitmap fs'.sec_buf) * fs_sector_size % u32)

  unfoldable pub rename_found : Fs → Array ℕ → Option ℕ → Option ℕ → Fs × Bool
  rename_found fs new_name none other = (fs, false)
  rename_found fs new_name (some i) (some j) = (fs, false)
  rename_found fs new_name (some i) none = (
    write_table
        (record fs { sec_buf = fs_strncpy fs.sec_buf (table_entry i) new_name fs_name_len }),
    true,
  )

  unfoldable pub fs_rename : Fs → Array ℕ → Array ℕ → Fs × Bool
  fs_rename fs old_name new_name =
      let fs' = read_table fs in
      if not fs.mounted
      then (fs, false)
      else if (old_name 0 == 0) || (new_name 0 == 0)
      then (fs, false)
      else rename_found fs' new_name (find_file fs'.sec_buf old_name)
          (find_file fs'.sec_buf new_name)
