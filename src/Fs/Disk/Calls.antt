-- ===== src/Fs/Disk/Calls.antt =====
-- The calls keep the file table in order.
use osito_k.Base.{
  ℕ, ◌+◌, ◌-◌, ◌%◌, ◌^◌, ◌<◌, ◌≤◌, ◌≡◌, inl, inr, refl, sym, ap, ◌∙◌, Bool, true, false, not, ◌||◌,
  ◌==◌, ltb, leb, Array, if◌then◌else◌, Bool-cases, Option, none, some, First, arith,
}
use osito_k.Fs.Flash.{Spi, IsSpi, u32, fs_sector_size, fs_max_files, fs_table_addr}
use osito_k.Fs.Table.{entry_size, sector_count, entry_free, find_file}
use osito_k.Fs.Table.Strings.{IsName}
use osito_k.Fs.Calls.{
  Fs, sectors_for, read_table, remove_file, fs_create, fs_delete, fs_rename, delete_found,
  rename_found,
}
use osito_k.Fs.Calls.Data.{sectors_for_lem}
use osito_k.Fs.Calls.Sectors.{read_table_lem, read_table-flash}
use osito_k.Fs.Calls.Created.{is_file, find_file-First, fs_create-Placed}
use osito_k.Fs.Calls.RoundTrip.{others_entry, start_back, count_back}
use osito_k.Fs.Calls.Keeps.{fs_create_fails}
use osito_k.Fs.Calls.Delete.{table_of, removed-entry_free, removed-AgreeAt, delete_found_lem}
use osito_k.Fs.Calls.Rename.{rename_found_lem}
use osito_k.Fs.Update.{
  rewrite_file, overwrite_found, fs_overwrite, append_found, fs_append, append_file,
}
use osito_k.Fs.Update.Rewrite.{rewritten-AgreeAt, rewritten_fields}
use osito_k.Fs.Update.Append.{appended-AgreeAt, appended_fields}
use osito_k.Fs.Disk.{IsDisk, IsDisk-same, freed-IsDisk, shrunk-IsDisk, placed-IsDisk}

-- A call behind its guards.
guarded :
    (P : Fs → Type 0) (fs : Fs) (b c : Bool) (r : Fs × Bool)
    → P fs
    → (b ≡ true → c ≡ false → P r.0)
    → P (if not b then (fs, false) else if c then (fs, false) else r).0
guarded P fs false c r p q = p
guarded P fs true true r p q = p
guarded P fs true false r p q = q refl refl

guarded_once :
    (P : Fs → Type 0) (fs : Fs) (b : Bool) (r : Fs × Bool)
    → P fs
    → (b ≡ true → P r.0)
    → P (if not b then (fs, false) else r).0
guarded_once P fs false r p q = p
guarded_once P fs true r p q = q refl

-- A file that is found is a file.
is_file_used : (t name : Array ℕ) (i : ℕ) → is_file t name i ≡ true → entry_free t i ≡ false
is_file_used t name i e = elim (Bool-cases (entry_free t i)) [
  | inl y ↦ cc (rw y at e)
  | inr unused ↦ unused
]

found_used :
    (t name : Array ℕ) (i : ℕ)
    → find_file t name ≡ some i
    → (i < fs_max_files) × (entry_free t i ≡ false)
found_used t name i e =
    let f : First (is_file t name) 0 fs_max_files (some i) = rw e at (find_file-First t name) in
    (f.1, is_file_used t name i f.2)

module _ (spi : Spi) (laws : IsSpi spi) (tmp : Array ℕ) where
  -- The table on the chip is in order.
  abbrev pub IsOrdered : Fs → Type 0
  IsOrdered fs = IsDisk (table_of spi tmp fs)

  IsOrdered-flash : (fs fs' : Fs) → fs'.flash ≡ fs.flash → IsOrdered fs → IsOrdered fs'
  IsOrdered-flash fs fs' e v =
      IsDisk-same (table_of spi tmp fs) (table_of spi tmp fs')
        (λ j h.
          read_table_lem spi laws tmp fs j h
          ∙ sym (read_table_lem spi laws tmp fs' j h ∙ ap (λ c. c (fs_table_addr + j)) e))
        v

  loaded-IsOrdered : (fs : Fs) → IsOrdered fs → IsOrdered (read_table spi tmp fs)
  loaded-IsOrdered fs v =
      IsOrdered-flash fs (read_table spi tmp fs) (read_table-flash spi laws tmp fs) v

  pub fs_create-IsOrdered :
      (fs : Fs) (name src : Array ℕ) (at size n : ℕ)
      → IsName name n
      → 0 < size
      → size < 2 ^ 28 - fs_sector_size
      → IsOrdered fs
      → IsOrdered (fs_create spi tmp fs name src at size).0
  fs_create-IsOrdered fs name src at size n v pos small ok =
      elim (Bool-cases (fs_create spi tmp fs name src at size).1) [
        | inr failed ↦
            IsOrdered-flash fs (fs_create spi tmp fs name src at size).0
              (fs_create_fails spi tmp fs name src at size failed) ok
        | inl done ↦
            let (m, p) =
              fs_create-Placed spi tmp fs name src at size (sectors_for_lem size pos small).0
                done in
            placed-IsDisk (table_of spi tmp fs)
              (table_of spi tmp (fs_create spi tmp fs name src at size).0) p.slot ok
              (λ i hi ne d h. sym (others_entry spi laws tmp v small pos p i d hi ne h)) p.start
              (sectors_for size) p.fits p.free_run (start_back spi laws tmp v small pos p)
              (count_back spi laws tmp v small pos p)
      ]

  pub fs_delete-IsOrdered :
      (fs : Fs) (name : Array ℕ) → IsOrdered fs → IsOrdered (fs_delete spi tmp fs name).0
  unfolding fs_delete
  fs_delete-IsOrdered fs name ok =
      let t = table_of spi tmp fs in
      let (fs', done) = delete_found spi tmp (read_table spi tmp fs) (find_file t name) in
      guarded_once IsOrdered fs fs.mounted (fs', done) ok
        (λ m.
          elim (delete_found_lem spi laws tmp fs name (find_file t name) (find_file-First t name)) [
            | inl (_, same, _) ↦ IsOrdered-flash fs fs' same ok
            | inr (_, (i, hi, _, free, others, _)) ↦
                freed-IsDisk t (table_of spi tmp fs') i ok others free
          ])

  pub fs_rename-IsOrdered :
      (fs : Fs) (old_name new_name : Array ℕ) (n : ℕ)
      → IsName new_name n
      → IsOrdered fs
      → IsOrdered (fs_rename spi tmp fs old_name new_name).0
  unfolding fs_rename
  fs_rename-IsOrdered fs old_name new_name n v ok =
      let t = table_of spi tmp fs in
      let (fs', done) =
        rename_found spi tmp (read_table spi tmp fs) new_name (find_file t old_name)
          (find_file t new_name) in
      guarded IsOrdered fs fs.mounted ((old_name 0 == 0) || (new_name 0 == 0)) (fs', done) ok
        (λ m c.
          elim (rename_found_lem spi laws tmp fs old_name new_name n (find_file t old_name)
            (find_file t new_name) v refl (find_file-First t old_name)
            (find_file-First t new_name)) [
              | inl (_, same, _) ↦ IsOrdered-flash fs fs' same ok
              | inr (_, (i, hi, found, found', (_, start, count), others, _)) ↦
                  shrunk-IsDisk t (table_of spi tmp fs') i ok others hi
                    (found_used t old_name i found).1 start (omega (arith, count))
            ])

  overwrite_found-IsOrdered :
      (fs : Fs) (name src : Array ℕ) (at size n : ℕ) (r : Option ℕ)
      → IsName name n
      → 0 < size
      → size < 2 ^ 28 - fs_sector_size
      → find_file (table_of spi tmp fs) name ≡ r
      → IsOrdered fs
      → IsOrdered (overwrite_found spi tmp (read_table spi tmp fs) name src at size r).0
  unfolding overwrite_found remove_file
  overwrite_found-IsOrdered fs name src at size n none v pos small q ok =
      fs_create-IsOrdered (read_table spi tmp fs) name src at size n v pos small
        (loaded-IsOrdered fs ok)
  overwrite_found-IsOrdered fs name src at size n (some i) v pos small q ok =
      let t = table_of spi tmp fs in
      let loaded = read_table spi tmp fs in
      let (hi, used) = found_used t name i q in
      elim (Bool-cases (leb (sectors_for size) (sector_count t i))) [
        | inl y ↦
            let le : sectors_for size ≤ sector_count t i = ground arith in
            let (_, start, count) =
              rewritten_fields spi laws tmp loaded i src at size hi pos small le in
            rw y (
              shrunk-IsDisk t (table_of spi tmp (rewrite_file spi tmp loaded i src at size)) i ok
                (λ j hj ne.
                  rewritten-AgreeAt spi laws tmp loaded i src at size hi pos small le j hj ne)
                hi used start (omega (arith, count)))
        | inr no_room ↦
            let freed : IsOrdered (remove_file spi tmp loaded i) =
              freed-IsDisk t (table_of spi tmp (remove_file spi tmp loaded i)) i ok
                (λ j hj ne. removed-AgreeAt spi laws tmp loaded i j hi hj ne)
                (removed-entry_free spi laws tmp loaded i hi) in
            rw no_room (
              fs_create-IsOrdered (remove_file spi tmp loaded i) name src at size n v pos small
                freed)
      ]

  pub fs_overwrite-IsOrdered :
      (fs : Fs) (name src : Array ℕ) (at size n : ℕ)
      → IsName name n
      → 0 < size
      → size < 2 ^ 28 - fs_sector_size
      → IsOrdered fs
      → IsOrdered (fs_overwrite spi tmp fs name src at size).0
  unfolding fs_overwrite
  fs_overwrite-IsOrdered fs name src at size n v pos small ok =
      guarded IsOrdered fs fs.mounted ((name 0 == 0) || (size == 0))
        (overwrite_found spi tmp (read_table spi tmp fs) name src at size
          (find_file (table_of spi tmp fs) name))
        ok
        (λ m c.
          overwrite_found-IsOrdered fs name src at size n (find_file (table_of spi tmp fs) name) v
            pos small refl ok)

  append_found-IsOrdered :
      (fs : Fs) (name src : Array ℕ) (at size : ℕ) (r : Option ℕ)
      → ((i : ℕ) → i < fs_max_files → entry_size (table_of spi tmp fs) i + size < u32)
      → find_file (table_of spi tmp fs) name ≡ r
      → IsOrdered fs
      → IsOrdered (append_found spi tmp (read_table spi tmp fs) src at size r).0
  unfolding append_found
  append_found-IsOrdered fs name src at size none small q ok = loaded-IsOrdered fs ok
  append_found-IsOrdered fs name src at size (some i) small q ok =
      let t = table_of spi tmp fs in
      let loaded = read_table spi tmp fs in
      let (hi, used) = found_used t name i q in
      elim (Bool-cases (ltb (sector_count t i) (sectors_for ((entry_size t i + size) % u32)))) [
        | inl y ↦ rw y (loaded-IsOrdered fs ok)
        | inr room ↦
            let same : (j : ℕ) → j < fs_sector_size → t j ≡ loaded.flash (fs_table_addr + j) =
              λ j h.
                read_table_lem spi laws tmp fs j h
                ∙ sym (ap (λ c. c (fs_table_addr + j)) (read_table-flash spi laws tmp fs)) in
            let (_, start, count) =
              appended_fields spi laws tmp loaded i src at size hi (small i hi) same in
            rw room (
              shrunk-IsDisk t (table_of spi tmp (append_file spi tmp loaded i src at size)) i ok
                (λ j hj ne.
                  appended-AgreeAt spi laws tmp loaded i src at size hi (small i hi) same j hj ne)
                hi used start (omega (arith, count)))
      ]

  pub fs_append-IsOrdered :
      (fs : Fs) (name src : Array ℕ) (at size : ℕ)
      → ((i : ℕ) → i < fs_max_files → entry_size (table_of spi tmp fs) i + size < u32)
      → IsOrdered fs
      → IsOrdered (fs_append spi tmp fs name src at size).0
  unfolding fs_append
  fs_append-IsOrdered fs name src at size small ok =
      let r = find_file (table_of spi tmp fs) name in
      elim (Bool-cases (not fs.mounted || (size == 0))) [
        | inl y ↦ rw y ok
        | inr go ↦ rw go (append_found-IsOrdered fs name src at size r small refl ok)
      ]
