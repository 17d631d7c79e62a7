-- ===== src/Fs/Tests.antt =====
-- The theorems on a file's creation and on reading, at concrete inputs.
use osito_k.Base.{
  ℕ, ◌+◌, ◌%◌, ◌<◌, ◌≡◌, refl, true, none, some, ◌==◌, if◌then◌else◌, Array, min, ltb, arith,
  first_index,
}
use osito_k.Fs.Flash.{fs_sector_size, fs_data_sectors, flash_read}
use osito_k.Fs.Table.{
  entry_free, table_entry, find_file, find_free_slot, strcmp_loop, same_name, start_sector,
  sector_count, entry_size,
}
use osito_k.Fs.Bitmap.{build_bitmap, alloc_sectors, mark_files, find_run, mark}
use osito_k.Fs.Bitmap.Runs.{FirstRun, Holds, alloc_sectors-FirstRun}
use osito_k.Fs.Calls.{
  fs_create, fs_read, read_table, data_sector, sectors_for, create_new, create_in_slot,
}
use osito_k.Fs.Calls.RoundTrip.{fs_read-fs_create, fs_read_erased}
use osito_k.Fs.Calls.Keeps.{fs_create_keeps, fs_read_overruns}
use osito_k.Fs.Samples.{
  array_spi, array_spi-IsSpi, no_bytes, ab, ab-IsName, no_files, with_a, a_name, found_a,
}

abbrev text : Array ℕ
text i = i % 256

created : (fs_create array_spi no_bytes no_files ab text 5 5000).1 ≡ true
unfolding fs_create create_new find_file first_index entry_free read_table flash_read find_free_slot
    create_in_slot alloc_sectors find_run build_bitmap mark_files sectors_for
created = refl

-- A name that begins with the byte 0xff: its file is created, and not found.
abbrev erased_name : Array ℕ
erased_name i = if i == 0 then 0xff else if i == 1 then 98 else 0

created_erased : (fs_create array_spi no_bytes no_files erased_name text 5 5000).1 ≡ true
unfolding fs_create create_new find_file first_index entry_free read_table flash_read find_free_slot
    create_in_slot alloc_sectors find_run build_bitmap mark_files sectors_for
created_erased = refl

lost :
    (fs_read array_spi no_bytes
      (fs_create array_spi no_bytes no_files erased_name text 5 5000).0
      erased_name
      no_bytes
      8
      6000).2
    ≡ none
lost = fs_read_erased array_spi no_bytes _ erased_name no_bytes 8 6000 refl

alloc_sectors-FirstRun_example :
    FirstRun (λ i. ltb i 3) 2 fs_data_sectors (alloc_sectors (λ i. ltb i 3) 2)
alloc_sectors-FirstRun_example = alloc_sectors-FirstRun (λ i. ltb i 3) 2 (omega arith)

fs_read-fs_create_example :
    let (_, buf', r) =
      fs_read array_spi no_bytes
        (fs_create array_spi no_bytes no_files ab text 5 5000).0
        ab
        no_bytes
        8
        6000 in
    (r ≡ some (min 5000 6000)) × ((i : ℕ) → i < min 5000 6000 → buf' i ≡ text i)
fs_read-fs_create_example =
    fs_read-fs_create array_spi array_spi-IsSpi no_bytes no_files ab text 5 5000 2 ab-IsName
      (omega arith) (omega arith) created no_bytes 8 6000

created_beside : (fs_create array_spi no_bytes with_a ab text 5 5000).1 ≡ true
unfolding fs_create create_new find_file first_index entry_free read_table flash_read same_name
    strcmp_loop find_free_slot create_in_slot alloc_sectors find_run build_bitmap mark_files mark
    sector_count start_sector sectors_for
created_beside = refl

fs_create_keeps_example :
    let t = (read_table array_spi no_bytes with_a).sec_buf in
    let fs' = (fs_create array_spi no_bytes with_a ab text 5 5000).0 in
    ((d : ℕ)
      → d < 32
      → (read_table array_spi no_bytes fs').sec_buf (table_entry 0 + d) ≡ t (table_entry 0 + d))
    × ((b o : ℕ)
        → b < fs_data_sectors
        → o < fs_sector_size
        → Holds t 0 b
        → fs'.flash (data_sector b + o) ≡ with_a.flash (data_sector b + o))
unfolding read_table entry_free flash_read
fs_create_keeps_example =
    fs_create_keeps array_spi array_spi-IsSpi no_bytes with_a ab text 5 5000 2 ab-IsName
      (omega arith) (omega arith) created_beside 0 (omega arith) refl

fs_read_overruns_example :
    (fs_read array_spi no_bytes with_a a_name no_bytes 8 7).1 7
    ≡ with_a.flash (data_sector (start_sector (read_table array_spi no_bytes with_a).sec_buf 0) + 7)
unfolding read_table entry_size flash_read
fs_read_overruns_example =
    fs_read_overruns array_spi array_spi-IsSpi no_bytes with_a a_name no_bytes 8 7 0 refl found_a
      (omega arith) (omega arith) (omega arith)
