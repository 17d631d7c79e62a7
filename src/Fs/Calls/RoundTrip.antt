-- ===== src/Fs/Calls/RoundTrip.antt =====
-- What `fs_create` stores, `fs_read` gives back; and names that begin with the byte 0xff.
use osito_k.Base.{
  ℕ, ◌+◌, ◌-◌, ◌^◌, ◌<◌, ◌≡◌, ◌≢◌, refl, ap, ◌∙◌, true, false, Bool-cases, inl, inr, zero, suc,
  ◌==◌, Array, Option, none, some, arith, min, First,
}
use native.Mathlib.Decide.{ℕ_discrete}
use osito_k.Fs.Flash.{Spi, IsSpi, fs_sector_size, fs_max_files}
use osito_k.Fs.Table.{
  strcmp_loop, same_name, entry_free, entry_name, fill_entry, find_file, entry_size, start_sector,
  sector_count, table_entry,
}
use osito_k.Fs.Table.Strings.{IsName}
use osito_k.Fs.Table.Same.{entry_size_same, start_sector_same, sector_count_same}
use osito_k.Fs.Table.Entries.{
  filled_other, filled_size, filled_start, filled_count, filled-entry_free, filled-same_name,
}
use osito_k.Fs.Calls.{Fs, data_sector, sectors_for, read_table, fs_create, fs_read, read_found}
use osito_k.Fs.Calls.Data.{sectors_for_lem}
use osito_k.Fs.Calls.Sectors.{
  read_table_lem, read_table-mounted, created_table, created_data, created-mounted,
}
use osito_k.Fs.Calls.Reading.{IsFile, fs_read-IsFile}
use osito_k.Fs.Calls.Created.{is_file, find_file-First, is_file_same, Placed, fs_create-Placed}

module _ (spi : Spi) (laws : IsSpi spi) (tmp : Array ℕ) {fs fs' : Fs} {name src : Array ℕ}
    {at size n : ℕ} (v : IsName name n) (small : size < 2 ^ 28 - fs_sector_size) (pos : 0 < size)
    (p : Placed spi tmp fs fs' name src at size) where
  abbrev t : Array ℕ
  t = (read_table spi tmp fs).sec_buf

  abbrev filled : Array ℕ
  filled = fill_entry t p.slot name size p.start (sectors_for size)

  -- The table as it is read back.
  abbrev t' : Array ℕ
  t' = (read_table spi tmp fs').sec_buf

  pub reread : (i : ℕ) → i < fs_sector_size → t' i ≡ filled i
  reread i h =
      read_table_lem spi laws tmp fs' i h
      ∙ rw (p.result)
          (created_table spi laws tmp (read_table spi tmp fs) name src at size p.slot p.start i h)

  -- Entry `i` as it is read back.
  reread_entry :
      (i d : ℕ) → i < fs_max_files → d < 32 → t' (table_entry i + d) ≡ filled (table_entry i + d)
  reread_entry i d hi hd = reread (table_entry i + d) (omega arith)

  pub others_entry :
      (i d : ℕ)
      → i < fs_max_files
      → i ≢ p.slot
      → d < 32
      → t' (table_entry i + d) ≡ t (table_entry i + d)
  others_entry i d hi ne hd =
      reread_entry i d hi hd
      ∙ filled_other t p.slot name n size p.start (sectors_for size) v (table_entry i + d)
          (omega arith)

  is_file_at : (i : ℕ) → i < fs_max_files → (is_file t' name i ≡ true) → i ≡ p.slot
  is_file_at i hi e = elim (ℕ_discrete i p.slot) [
    | yes q ↦ q
    | no ne ↦ cc (e, is_file_same t' t name n i v (λ d. others_entry i d hi ne), p.new_name i hi)
  ]

  is_file_slot : is_file t' name p.slot ≡ true
  is_file_slot =
      is_file_same t' filled name n p.slot v (λ d. reread_entry p.slot d p.slot_in)
      ∙ (let a = filled-entry_free t p.slot name n size p.start (sectors_for size) v in
          let b = filled-same_name t p.slot name n size p.start (sectors_for size) v in
          rw (a, b) refl)

  found_slot : (r : Option ℕ) → First (is_file t' name) 0 fs_max_files r → r ≡ some p.slot
  found_slot none all = cc (is_file_slot, all p.slot (omega arith) p.slot_in)
  found_slot (some s) (_, lt, e, _) = ap some (is_file_at s lt e)

  pub found : find_file t' name ≡ some p.slot
  found = found_slot (find_file t' name) (find_file-First t' name)

  pub size_back : entry_size t' p.slot ≡ size
  size_back =
      entry_size_same t' filled p.slot (λ d. reread_entry p.slot d p.slot_in)
      ∙ filled_size t p.slot name n size p.start (sectors_for size) v (omega arith)

  pub start_back : start_sector t' p.slot ≡ p.start
  start_back =
      start_sector_same t' filled p.slot (λ d. reread_entry p.slot d p.slot_in)
      ∙ filled_start t p.slot name n size p.start (sectors_for size) v
          (let f = p.fits in omega arith)

  pub count_back : sector_count t' p.slot ≡ sectors_for size
  count_back =
      sector_count_same t' filled p.slot (λ d. reread_entry p.slot d p.slot_in)
      ∙ filled_count t p.slot name n size p.start (sectors_for size) v
          (let (_, _, _, w) = sectors_for_lem size pos small in w)

  pub data_back : (i : ℕ) → i < size → fs'.flash (data_sector p.start + i) ≡ src i
  data_back i h =
      let (_, fit, _, _) = sectors_for_lem size pos small in
      rw (p.result)
        (created_data spi laws tmp (read_table spi tmp fs) name src at size p.slot p.start i fit h)

  pub mounted_back : fs'.mounted ≡ fs.mounted
  mounted_back =
      ap (λ x. x.mounted) p.result
      ∙ created-mounted spi laws tmp (read_table spi tmp fs) name src at size p.slot p.start
      ∙ read_table-mounted spi laws tmp fs

  created-IsFile : fs.mounted ≡ true → IsFile spi tmp fs' name src size p.slot p.start
  created-IsFile m = record {
    below = omega arith;
    mounted = mounted_back ∙ m;
    found = found;
    has_size = size_back;
    starts = start_back;
    bytes = data_back;
  }

-- On a flash that keeps the data sheet: if `fs_create` succeeds for a name of 1 to 23 characters that
-- does not begin with the byte 0xff, and a size from 1 to less than 2 ^ 28 - 4096 bytes, `fs_read` of
-- that name returns the size, or the size of the buffer if that is less, and the buffer begins with so
-- many bytes of the data, wherever the buffers lie and whatever the table held.
pub fs_read-fs_create :
    (spi : Spi) (laws : IsSpi spi) (tmp : Array ℕ) (fs : Fs) (name src : Array ℕ) (at size n : ℕ)
    → IsName name n
    → 0 < size
    → size < 2 ^ 28 - fs_sector_size
    → (fs_create spi tmp fs name src at size).1 ≡ true
    → (buf : Array ℕ) (at' max_size : ℕ)
    → let (_, buf', r) =
        fs_read spi tmp (fs_create spi tmp fs name src at size).0 name buf at' max_size in
      (r ≡ some (min size max_size)) × ((i : ℕ) → i < min size max_size → buf' i ≡ src i)
fs_read-fs_create spi laws tmp fs name src at size n v pos small ok buf at' max_size =
    let (m, p) =
      fs_create-Placed spi tmp fs name src at size (sectors_for_lem size pos small).0 ok in
    fs_read-IsFile spi laws tmp (created-IsFile spi laws tmp v small pos p m) buf at' max_size

strcmp_differs :
    (n : ℕ) (a b : Array ℕ) (i : ℕ) → (a i == b i) ≡ false → strcmp_loop n a b i ≡ false
unfolding strcmp_loop
strcmp_differs zero a b i e = e
strcmp_differs (suc n) a b i e = elim (Bool-cases (a i == 0)) [
  | inl z ↦ rw (z, e) refl
  | inr z ↦ rw (z, e) refl
]

-- An entry that begins with 0xff counts as free, so no entry is a file of a name that does.
erased-is_file : (t name : Array ℕ) (i : ℕ) → name 0 ≡ 0xff → is_file t name i ≡ false
unfolding entry_free same_name
erased-is_file t name i e = elim (Bool-cases (t (table_entry i) == 0xff)) [
  | inl y ↦ rw y (ground arith)
  | inr n ↦
      let q : table_entry i + 0 ≡ table_entry i = omega arith in
      let d : (entry_name t i 0 == name 0) ≡ false = rw (e, q) n in
      rw (strcmp_differs fs_sector_size (entry_name t i) name 0 d) (ground arith)
]

erased-find_file : (t name : Array ℕ) → name 0 ≡ 0xff → find_file t name ≡ none
erased-find_file t name e = none_found (find_file t name) (find_file-First t name)
  where
    none_found : (r : Option ℕ) → First (is_file t name) 0 fs_max_files r → r ≡ none
    none_found none all = refl
    none_found (some s) (_, _, f, _) = absurd (cc (f, erased-is_file t name s e))

-- So `fs_read` does not find a file of a name that begins with the byte 0xff, also when `fs_create`
-- has just stored it.
pub fs_read_erased :
    (spi : Spi) (tmp : Array ℕ) (fs : Fs) (name buf : Array ℕ) (at max_size : ℕ)
    → name 0 ≡ 0xff
    → (fs_read spi tmp fs name buf at max_size).2 ≡ none
unfolding fs_read read_found
fs_read_erased spi tmp fs name buf at max_size e =
    rw (erased-find_file (read_table spi tmp fs).sec_buf name e)
      (elim (Bool-cases fs.mounted) [ inl m ↦ rw m refl | inr n ↦ rw n refl ])
