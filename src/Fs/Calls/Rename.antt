-- ===== src/Fs/Calls/Rename.antt =====
-- `fs_rename`.
use osito_k.Base.{
  ℕ, ◌+◌, ◌-◌, ◌<◌, ◌≤◌, ◌≡◌, ◌≢◌, ◌⊎◌, inl, inr, refl, ap, ap₂, ◌∙◌, true, false, not, ◌&&◌, ltb,
  leb, Array, if◌then◌else◌, Bool, Option, none, some, First, arith, ◌||◌, ◌==◌,
}
use native.Mathlib.Decide.{ℕ_discrete}
use osito_k.Fs.Flash.{
  Spi, IsSpi, fs_sector_size, fs_max_files, fs_name_len, fs_data_addr, fs_table_addr,
}
use osito_k.Fs.Table.{
  table_entry, entry_name, entry_free, entry_size, start_sector, sector_count, fs_strncpy,
  find_file,
}
use osito_k.Fs.Table.Same.{AgreeAt}
use osito_k.Fs.Table.Strings.{IsName, fs_strncpy_lem, same_name_lem}
use osito_k.Fs.Calls.{Fs, read_table, write_table, rename_found, fs_rename}
use osito_k.Fs.Calls.Data.{Outside}
use osito_k.Fs.Calls.Sectors.{
  read_table_lem, read_table-flash, write_table_holds, write_table_others,
}
use osito_k.Fs.Calls.Created.{is_file, is_file_same, find_file-First}
use osito_k.Fs.Calls.Delete.{table_of}

module _ (spi : Spi) (laws : IsSpi spi) (tmp : Array ℕ) (fs : Fs) (new_name : Array ℕ) (n i : ℕ)
    (v : IsName new_name n) (hi : i < fs_max_files) where
  abbrev t : Array ℕ
  t = table_of spi tmp fs

  abbrev named : Fs
  named = record (read_table spi tmp fs) {
    sec_buf = fs_strncpy t (table_entry i) new_name fs_name_len;
  }

  abbrev fs' : Fs
  fs' = write_table spi tmp named

  abbrev t' : Array ℕ
  t' = table_of spi tmp fs'

  renamed_table :
      (j : ℕ)
      → j < fs_sector_size
      → t' j ≡ (
          if leb (table_entry i) j && ltb j (table_entry i + fs_name_len)
          then (if ltb j (table_entry i + n) then new_name (j - table_entry i) else 0)
          else t j)
  renamed_table j h =
      read_table_lem spi laws tmp fs' j h
      ∙ write_table_holds spi laws tmp named j h
      ∙ fs_strncpy_lem t (table_entry i) new_name n j v

  renamed-AgreeAt : (j : ℕ) → j < fs_max_files → j ≢ i → AgreeAt t t' j
  renamed-AgreeAt j hj ne d h =
      let e = renamed_table (table_entry j + d) (omega arith) in ground arith

  -- The fields behind the name.
  renamed_behind : (d : ℕ) → 24 ≤ d → d < 32 → t' (table_entry i + d) ≡ t (table_entry i + d)
  renamed_behind d lo h = let e = renamed_table (table_entry i + d) (omega arith) in ground arith

  renamed_name : (d : ℕ) → d ≤ n → t' (table_entry i + d) ≡ new_name d
  renamed_name d h =
      let f = v.fits in
      let e = renamed_table (table_entry i + d) (omega arith) in
      let q : table_entry i + d - table_entry i ≡ d = omega arith in
      elim (ℕ_discrete d n) [
        | yes z ↦ let x = v.ends in let y = ap new_name z in ground arith
        | no ne ↦ ground (arith, ap new_name q)
      ]

  renamed-entry_free : entry_free t' i ≡ false
  unfolding entry_free
  renamed-entry_free =
      let q : table_entry i + 0 ≡ table_entry i = omega arith in
      let e = rw q at (renamed_name 0 (omega arith)) in
      let p = v.not_empty in let a = v.chars 0 p in let b = v.not_erased in ground arith

  renamed-is_file : is_file t' new_name i ≡ true
  renamed-is_file =
      let s = same_name_lem (entry_name t' i) new_name n v (λ j le. renamed_name j le) in
      rw (renamed-entry_free, s) refl

  renamed_fields :
      (entry_size t' i ≡ entry_size t i)
      × (start_sector t' i ≡ start_sector t i)
      × (sector_count t' i ≡ sector_count t i)
  unfolding entry_size start_sector sector_count
  renamed_fields =
      let at_24 = renamed_behind 24 (omega arith) (omega arith) in
      let b : t' (table_entry i + 24 + 1) ≡ t (table_entry i + 24 + 1) =
        behind 24 1 (omega arith) (omega arith) in
      let c : t' (table_entry i + 24 + 2) ≡ t (table_entry i + 24 + 2) =
        behind 24 2 (omega arith) (omega arith) in
      let d : t' (table_entry i + 24 + 3) ≡ t (table_entry i + 24 + 3) =
        behind 24 3 (omega arith) (omega arith) in
      let at_28 = renamed_behind 28 (omega arith) (omega arith) in
      let e : t' (table_entry i + 28 + 1) ≡ t (table_entry i + 28 + 1) =
        behind 28 1 (omega arith) (omega arith) in
      let at_30 = renamed_behind 30 (omega arith) (omega arith) in
      let f : t' (table_entry i + 30 + 1) ≡ t (table_entry i + 30 + 1) =
        behind 30 1 (omega arith) (omega arith) in
      (omega (arith, at_24, b, c, d), omega (arith, at_28, e), omega (arith, at_30, f))
    where
      behind :
          (a b : ℕ)
          → 24 ≤ a + b
          → a + b < 32
          → t' (table_entry i + a + b) ≡ t (table_entry i + a + b)
      behind a b lo h =
          let q : table_entry i + (a + b) ≡ table_entry i + a + b = omega arith in
          rw q at (renamed_behind (a + b) lo h)

  pub renamed_others : (a : ℕ) → Outside fs_table_addr fs_data_addr a → fs'.flash a ≡ fs.flash a
  renamed_others a h =
      write_table_others spi laws tmp named a (omega arith)
      ∙ ap (λ c. c a) (read_table-flash spi laws tmp fs)

  -- The new name finds the entry, if no entry had it.
  renamed_found :
      ((j : ℕ) → j < fs_max_files → is_file t new_name j ≡ false)
      → (r : Option ℕ) → First (is_file t' new_name) 0 fs_max_files r
      → r ≡ some i
  renamed_found none_had none all = cc (renamed-is_file, all i (omega arith) hi)
  renamed_found none_had (some s) (_, lt, e, _) = elim (ℕ_discrete s i) [
    | yes q ↦ ap some q
    | no ne ↦ cc (e, is_file_same t t' new_name n s v (renamed-AgreeAt s lt ne), none_had s lt)
  ]

-- What a call that succeeds has done: the file that the old name found is found by the new one, with
-- its size and sectors; every other entry and everything outside the table is as it was.
abbrev pub Renamed : Spi → Array ℕ → Fs → Array ℕ → Array ℕ → Fs → Type 0
Renamed spi tmp fs old_name new_name fs' =
    (i : ℕ) × (i < fs_max_files)
    × (find_file (table_of spi tmp fs) old_name ≡ some i)
    × (find_file (table_of spi tmp fs') new_name ≡ some i)
    × ((entry_size (table_of spi tmp fs') i ≡ entry_size (table_of spi tmp fs) i)
        × (start_sector (table_of spi tmp fs') i ≡ start_sector (table_of spi tmp fs) i)
        × (sector_count (table_of spi tmp fs') i ≡ sector_count (table_of spi tmp fs) i))
    × ((j : ℕ) → j < fs_max_files → j ≢ i → AgreeAt (table_of spi tmp fs) (table_of spi tmp fs') j)
    × ((a : ℕ) → Outside fs_table_addr fs_data_addr a → fs'.flash a ≡ fs.flash a)

module _ (spi : Spi) (laws : IsSpi spi) (tmp : Array ℕ) (fs : Fs)
    (old_name new_name : Array ℕ) where
  abbrev loaded : Fs
  loaded = read_table spi tmp fs

  pub rename_found_lem :
      (n : ℕ) (r other : Option ℕ)
      → IsName new_name n
      → find_file loaded.sec_buf old_name ≡ r
      → First (is_file loaded.sec_buf old_name) 0 fs_max_files r
      → First (is_file loaded.sec_buf new_name) 0 fs_max_files other
      → let (fs', done) = rename_found spi tmp loaded new_name r other in
        ((done ≡ false)
          × (fs'.flash ≡ fs.flash)
          × (((j : ℕ) → j < fs_max_files → is_file loaded.sec_buf old_name j ≡ false)
              ⊎ ((j : ℕ) × (j < fs_max_files) × (is_file loaded.sec_buf new_name j ≡ true))))
        ⊎ ((done ≡ true) × Renamed spi tmp fs old_name new_name fs')
  unfolding rename_found
  rename_found_lem n none other v q f g =
      inl (refl, read_table-flash spi laws tmp fs, inl (λ j h. f j (omega arith) h))
  rename_found_lem n (some i) (some j) v q f g =
      inl (refl, read_table-flash spi laws tmp fs, inr (j, g.1, g.2))
  rename_found_lem n (some i) none v q f g =
      let renamed = fs' spi laws tmp fs new_name n i v f.1 in
      inr (
        refl,
        (
          i,
          f.1,
          q,
          renamed_found spi laws tmp fs new_name n i v f.1 (λ j h. g j (omega arith) h)
              (find_file (table_of spi tmp renamed) new_name)
              (find_file-First (table_of spi tmp renamed) new_name),
          renamed_fields spi laws tmp fs new_name n i v f.1,
          λ j hj ne. renamed-AgreeAt spi laws tmp fs new_name n i v f.1 j hj ne,
          λ a h. renamed_others spi laws tmp fs new_name n i v f.1 a h,
        ),
      )

  fs_rename_goes :
      (b : Bool)
      → fs.mounted ≡ true
      → ((old_name 0 == 0) || (new_name 0 == 0)) ≡ b
      → fs_rename spi tmp fs old_name new_name ≡ (
          if b
          then (fs, false)
          else rename_found spi tmp loaded new_name
              (find_file loaded.sec_buf old_name)
              (find_file loaded.sec_buf new_name))
  unfolding fs_rename
  fs_rename_goes b m e =
      ap₂
        (λ x y.
          if not x
          then (fs, false)
          else if y
          then (fs, false)
          else rename_found spi tmp loaded new_name (find_file loaded.sec_buf old_name)
              (find_file loaded.sec_buf new_name))
        m e

-- `fs_rename` on a mounted file system, on a flash that keeps the data sheet, from a name that is not
-- empty to one of 1 to 23 characters that does not begin with the byte 0xff: it fails and leaves the
-- flash as it was if no file has the old name or one has the new name; otherwise it succeeds, and the
-- file that the old name found is found by the new one, with its size and its sectors; every other
-- entry, and everything outside the table, is as it was.
pub fs_rename_lem :
    (spi : Spi) (laws : IsSpi spi) (tmp : Array ℕ) (fs : Fs) (old_name new_name : Array ℕ) (n : ℕ)
    → fs.mounted ≡ true
    → old_name 0 ≢ 0
    → IsName new_name n
    → let (fs', done) = fs_rename spi tmp fs old_name new_name in
      ((done ≡ false)
        × (fs'.flash ≡ fs.flash)
        × (((j : ℕ) → j < fs_max_files → is_file (table_of spi tmp fs) old_name j ≡ false)
            ⊎ ((j : ℕ) × (j < fs_max_files) × (is_file (table_of spi tmp fs) new_name j ≡ true))))
      ⊎ ((done ≡ true) × Renamed spi tmp fs old_name new_name fs')
fs_rename_lem spi laws tmp fs old_name new_name n m old v =
    let p = v.not_empty in
    let first = v.chars 0 p in
    let b : ((old_name 0 == 0) || (new_name 0 == 0)) ≡ false = ground arith in
    rw (fs_rename_goes spi laws tmp fs old_name new_name false m b) (
      rename_found_lem spi laws tmp fs old_name new_name n
        (find_file (table_of spi tmp fs) old_name) (find_file (table_of spi tmp fs) new_name) v refl
        (find_file-First (table_of spi tmp fs) old_name)
        (find_file-First (table_of spi tmp fs) new_name))
