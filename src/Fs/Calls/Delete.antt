-- ===== src/Fs/Calls/Delete.antt =====
-- `fs_delete`.
use osito_k.Base.{
  ℕ, ◌+◌, ◌<◌, ◌≡◌, ◌≢◌, ◌⊎◌, inl, inr, refl, sym, ap, ◌∙◌, true, false, not, Array, if◌then◌else◌,
  Option, none, some, First, arith,
}
use osito_k.Fs.Flash.{
  Spi, IsSpi, fs_sector_size, fs_max_files, fs_data_addr, fs_super_addr, fs_table_addr,
}
use osito_k.Fs.Table.{table_entry, entry_free, clear_entry, find_file}
use osito_k.Fs.Table.Same.{AgreeAt}
use osito_k.Fs.Calls.{Fs, read_table, write_table, remove_file, delete_found, fs_delete}
use osito_k.Fs.Calls.Data.{Outside}
use osito_k.Fs.Calls.Sectors.{
  read_table_lem, read_table-flash, write_table_holds, write_table_others, one_file_less_others,
}
use osito_k.Fs.Calls.Created.{is_file, find_file-First}

-- The table on the chip, as `read_table` reads it.
abbrev pub table_of : Spi → Array ℕ → Fs → Array ℕ
table_of spi tmp fs = (read_table spi tmp fs).sec_buf

module _ (spi : Spi) (laws : IsSpi spi) (tmp : Array ℕ) where
  pub removed_table :
      (fs : Fs) (i j : ℕ)
      → j < fs_sector_size
      → table_of spi tmp (remove_file spi tmp fs i) j ≡ clear_entry fs.sec_buf i j
  unfolding remove_file
  removed_table fs i j h =
      read_table_lem spi laws tmp (remove_file spi tmp fs i) j h
      ∙ one_file_less_others spi laws tmp
          (write_table spi tmp (record fs { sec_buf = clear_entry fs.sec_buf i }))
          (fs_table_addr + j) (omega arith)
      ∙ write_table_holds spi laws tmp (record fs { sec_buf = clear_entry fs.sec_buf i }) j h

  pub removed_others :
      (fs : Fs) (i a : ℕ)
      → Outside fs_super_addr fs_data_addr a
      → (remove_file spi tmp fs i).flash a ≡ fs.flash a
  unfolding remove_file
  removed_others fs i a h =
      one_file_less_others spi laws tmp
        (write_table spi tmp (record fs { sec_buf = clear_entry fs.sec_buf i })) a (omega arith)
      ∙ write_table_others spi laws tmp (record fs { sec_buf = clear_entry fs.sec_buf i }) a
          (omega arith)

  pub removed-entry_free :
      (fs : Fs) (i : ℕ)
      → i < fs_max_files
      → entry_free (table_of spi tmp (remove_file spi tmp fs i)) i ≡ true
  unfolding entry_free clear_entry
  removed-entry_free fs i h =
      let e = removed_table fs i (table_entry i) (omega arith) in
      let z : clear_entry fs.sec_buf i (table_entry i) ≡ 0 = ground arith in rw (e, z) refl

  pub removed-AgreeAt :
      (fs : Fs) (i j : ℕ)
      → i < fs_max_files
      → j < fs_max_files
      → j ≢ i
      → AgreeAt fs.sec_buf (table_of spi tmp (remove_file spi tmp fs i)) j
  unfolding clear_entry
  removed-AgreeAt fs i j hi hj ne d h =
      let e = removed_table fs i (table_entry j + d) (omega arith) in
      let k : clear_entry fs.sec_buf i (table_entry j + d) ≡ fs.sec_buf (table_entry j + d) =
        ground arith in
      sym (e ∙ k)

  -- What a call has done: it found no file of the name and changed nothing on the chip, or it removed
  -- one.
  abbrev pub Deleted : Fs → Array ℕ → Fs → Type 0
  Deleted fs name fs' =
      (i : ℕ) × (i < fs_max_files)
      × (is_file (table_of spi tmp fs) name i ≡ true)
      × (entry_free (table_of spi tmp fs') i ≡ true)
      × ((j : ℕ)
          → j < fs_max_files
          → j ≢ i
          → AgreeAt (table_of spi tmp fs) (table_of spi tmp fs') j)
      × ((a : ℕ) → Outside fs_super_addr fs_data_addr a → fs'.flash a ≡ fs.flash a)

  fs_delete_goes :
      (fs : Fs) (name : Array ℕ)
      → fs.mounted ≡ true
      → fs_delete spi tmp fs name
        ≡ delete_found spi tmp (read_table spi tmp fs) (find_file (table_of spi tmp fs) name)
  unfolding fs_delete
  fs_delete_goes fs name m =
      ap
        (λ b.
          if not b
          then (fs, false)
          else delete_found spi tmp (read_table spi tmp fs) (find_file (table_of spi tmp fs) name))
        m

  pub delete_found_lem :
      (fs : Fs) (name : Array ℕ) (r : Option ℕ)
      → First (is_file (table_of spi tmp fs) name) 0 fs_max_files r
      → let (fs', done) = delete_found spi tmp (read_table spi tmp fs) r in
        ((done ≡ false)
          × (fs'.flash ≡ fs.flash)
          × ((i : ℕ) → i < fs_max_files → is_file (table_of spi tmp fs) name i ≡ false))
        ⊎ ((done ≡ true) × Deleted fs name fs')
  unfolding delete_found
  delete_found_lem fs name none f =
      inl (refl, read_table-flash spi laws tmp fs, λ i h. f i (omega arith) h)
  delete_found_lem fs name (some i) f =
      let loaded = read_table spi tmp fs in
      inr (
        refl,
        (
          i,
          f.1,
          f.2,
          removed-entry_free loaded i f.1,
          λ j hj ne. removed-AgreeAt loaded i j f.1 hj ne,
          λ a h. removed_others loaded i a h ∙ ap (λ c. c a) (read_table-flash spi laws tmp fs),
        ),
      )

-- `fs_delete` on a mounted file system, on a flash that keeps the data sheet: it fails and leaves the
-- flash as it was if no file has the name; otherwise it succeeds, the entry of such a file is free, and
-- every other entry and everything outside the superblock and the table is as it was.
pub fs_delete_lem :
    (spi : Spi) (laws : IsSpi spi) (tmp : Array ℕ) (fs : Fs) (name : Array ℕ)
    → fs.mounted ≡ true
    → let (fs', done) = fs_delete spi tmp fs name in
      ((done ≡ false)
        × (fs'.flash ≡ fs.flash)
        × ((i : ℕ) → i < fs_max_files → is_file (table_of spi tmp fs) name i ≡ false))
      ⊎ ((done ≡ true) × Deleted spi laws tmp fs name fs')
fs_delete_lem spi laws tmp fs name m = rw (fs_delete_goes spi laws tmp fs name m) (
    delete_found_lem spi laws tmp fs name (find_file (table_of spi tmp fs) name)
      (find_file-First (table_of spi tmp fs) name))
