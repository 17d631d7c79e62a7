-- ===== src/Fs/Bitmap.antt =====
-- The allocation of sectors in src/fs/ositofs.cpp. The bitmap is given by its bits: bit `i` is bit
-- `i % 8` of byte `i / 8`.
pub mod Runs
use osito_k.Base.{
  ℕ, zero, suc, ◌+◌, ◌≤◌, ◌<◌, Bool, true, false, Option, none, some, Array, update, ltb, leb,
  if◌then◌else◌,
}
use osito_k.Fs.Flash.{fs_max_files, fs_data_sectors}
use osito_k.Fs.Table.{entry_free, start_sector, sector_count}

-- The inner loop of `build_bitmap`: `k` sectors from `bit` on.
unfoldable pub mark : ℕ → Array Bool → ℕ → Array Bool
mark zero bmap bit = bmap
mark (suc k) bmap bit =
    mark k (if ltb bit fs_data_sectors then update bmap bit true else bmap) (bit + 1)

-- The outer loop: the entries `i … i + n - 1`.
unfoldable pub mark_files : ℕ → Array ℕ → ℕ → Array Bool → Array Bool
mark_files zero t i bmap = bmap
mark_files (suc n) t i bmap =
    mark_files n t (i + 1)
      (if entry_free t i then bmap else mark (sector_count t i) bmap (start_sector t i))

unfoldable pub build_bitmap : Array ℕ → Array Bool
build_bitmap t = mark_files fs_max_files t 0 (λ _. false)

-- The loop of `alloc_sectors`, with `n` sectors left from `i` on.
unfoldable pub find_run : ℕ → Array Bool → ℕ → ℕ → ℕ → ℕ → Option ℕ
find_run zero bmap count i run start = none
find_run (suc n) bmap count i run start =
    let rest =
      find_run n bmap count (i + 1) (if bmap i then 0 else run + 1)
        (if bmap i then i + 1 else start) in
    if bmap i then rest else if leb count (run + 1) then some start else rest

unfoldable pub alloc_sectors : Array Bool → ℕ → Option ℕ
alloc_sectors bmap count = find_run fs_data_sectors bmap count 0 0 0

unfoldable pub free_from : ℕ → Array Bool → ℕ → ℕ → ℕ
free_from zero bmap i free = free
free_from (suc n) bmap i free = free_from n bmap (i + 1) (if bmap i then free else free + 1)

unfoldable pub count_free : Array Bool → ℕ
count_free bmap = free_from fs_data_sectors bmap 0 0
