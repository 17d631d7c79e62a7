-- ===== src/Fs/Disk/Tests.antt =====
-- The calls that change files, at concrete inputs.
use osito_k.Base.{
  ℕ, ◌+◌, ◌-◌, ◌<◌, ◌≤◌, ◌≡◌, ◌⊎◌, refl, true, false, some, Array, min, ltb, if◌then◌else◌, arith,
  first_index,
}
use osito_k.Fs.Flash.{fs_max_files, flash_read}
use osito_k.Fs.Samples.{
  array_spi, array_spi-IsSpi, no_bytes, ab, ab-IsName, no_files, with_a, a_name, found_a,
}
use osito_k.Fs.Table.{find_file, find_free_slot, entry_free, entry_size, sector_count, start_sector}
use osito_k.Fs.Table.Strings.{IsName}
use osito_k.Fs.Bitmap.{build_bitmap, alloc_sectors, mark_files, find_run}
use osito_k.Fs.Calls.{
  Fs, fs_create, fs_delete, fs_rename, fs_read, fs_format, read_table, sectors_for, data_sector,
  create_new, create_in_slot,
}
use osito_k.Fs.Calls.Created.{is_file}
use osito_k.Fs.Calls.Delete.{table_of, Deleted, fs_delete_lem}
use osito_k.Fs.Calls.Rename.{Renamed, fs_rename_lem}
use osito_k.Fs.Update.{fs_overwrite, overwrite_found, fs_append}
use osito_k.Fs.Update.Overwrite.{fs_read-fs_overwrite}
use osito_k.Fs.Update.Appended.{fs_read-fs_append}
use osito_k.Fs.Disk.{IsDisk}
use osito_k.Fs.Disk.Reach.{here, next, create, delete, Reach-IsDisk}

abbrev text : Array ℕ
text i = i + 32

fs_delete_lem_example :
    let (fs', done) = fs_delete array_spi no_bytes with_a a_name in
    ((done ≡ false)
      × (fs'.flash ≡ with_a.flash)
      × ((i : ℕ)
          → i < fs_max_files
          → is_file (table_of array_spi no_bytes with_a) a_name i ≡ false))
    ⊎ ((done ≡ true) × Deleted array_spi array_spi-IsSpi no_bytes with_a a_name fs')
fs_delete_lem_example = fs_delete_lem array_spi array_spi-IsSpi no_bytes with_a a_name refl

fs_rename_lem_example :
    let (fs', done) = fs_rename array_spi no_bytes with_a a_name ab in
    ((done ≡ false)
      × (fs'.flash ≡ with_a.flash)
      × (((j : ℕ)
            → j < fs_max_files
            → is_file (table_of array_spi no_bytes with_a) a_name j ≡ false)
          ⊎ ((j : ℕ) × (j < fs_max_files)
              × (is_file (table_of array_spi no_bytes with_a) ab j ≡ true))))
    ⊎ ((done ≡ true) × Renamed array_spi no_bytes with_a a_name ab fs')
fs_rename_lem_example =
    fs_rename_lem array_spi array_spi-IsSpi no_bytes with_a a_name ab 2 refl (omega arith) ab-IsName

overwritten : (fs_overwrite array_spi no_bytes no_files ab text 5 5000).1 ≡ true
unfolding fs_overwrite overwrite_found fs_create create_new find_file first_index entry_free
    read_table flash_read find_free_slot create_in_slot alloc_sectors find_run build_bitmap
    mark_files sectors_for
overwritten = refl

fs_read-fs_overwrite_example :
    let (_, buf', got) =
      fs_read array_spi no_bytes
        (fs_overwrite array_spi no_bytes no_files ab text 5 5000).0
        ab
        no_bytes
        8
        6000 in
    (got ≡ some (min 5000 6000)) × ((j : ℕ) → j < min 5000 6000 → buf' j ≡ text j)
fs_read-fs_overwrite_example =
    fs_read-fs_overwrite array_spi array_spi-IsSpi no_bytes no_files ab text 5 5000 2 ab-IsName
      (omega arith) (omega arith) overwritten no_bytes 8 6000

a_name-IsName : IsName a_name 1
a_name-IsName = record {
  chars = λ j h. ground arith;
  ends = refl;
  not_empty = omega arith;
  fits = omega arith;
  not_erased = omega arith;
}

-- `a` has 10 bytes.
a_size : entry_size (table_of array_spi no_bytes with_a) 0 ≡ 10
unfolding read_table entry_size flash_read
a_size = refl

fs_read-fs_append_example :
    let t = table_of array_spi no_bytes with_a in
    let (fs', done) = fs_append array_spi no_bytes with_a a_name text 5 20 in
    ((sector_count t 0 < sectors_for (entry_size t 0 + 20))
      × (done ≡ false)
      × (fs'.flash ≡ with_a.flash))
    ⊎ ((sectors_for (entry_size t 0 + 20) ≤ sector_count t 0)
        × (done ≡ true)
        × ((buf : Array ℕ) (at' max_size : ℕ)
            → let total = entry_size t 0 + 20 in
              let (_, buf', r) = fs_read array_spi no_bytes fs' a_name buf at' max_size in
              (r ≡ some (min total max_size))
              × ((j : ℕ)
                  → j < min total max_size
                  → buf' j ≡ (
                      if ltb j (entry_size t 0)
                      then with_a.flash (data_sector (start_sector t 0) + j)
                      else text (j - entry_size t 0)))))
fs_read-fs_append_example =
    fs_read-fs_append array_spi array_spi-IsSpi no_bytes with_a 0 a_name text 5 20 1 (omega arith)
      a_name-IsName refl found_a (omega (arith, a_size)) (omega arith)

abbrev formatted : Fs
formatted = fs_format array_spi no_bytes no_files

-- Two files are created, and one is removed.
abbrev ab_created : Fs
ab_created = (fs_create array_spi no_bytes formatted ab text 5 5000).0

abbrev a_created : Fs
a_created = (fs_create array_spi no_bytes ab_created a_name text 5 70).0

Reach-IsDisk_example :
    IsDisk (table_of array_spi no_bytes (fs_delete array_spi no_bytes a_created ab).0)
Reach-IsDisk_example = Reach-IsDisk array_spi array_spi-IsSpi no_bytes no_files (
    next
      (next (next here (create formatted ab text 5 5000 2 ab-IsName (omega arith) (omega arith)))
        (create ab_created a_name text 5 70 1 a_name-IsName (omega arith) (omega arith)))
      (delete a_created ab))
