-- ===== src/Fs/Calls/Created.antt =====
-- What a call of `fs_create` that succeeds has done.
use osito_k.Base.{
  ℕ, ◌+◌, ◌≤◌, ◌<◌, ◌≡◌, refl, sym, ap, ap₂, subst, ◌∙◌, Bool, true, false, not, ◌&&◌, ◌||◌, Array,
  ◌==◌, if◌then◌else◌, Option, none, some, arith, First, first_index-First,
}
use osito_k.Fs.Flash.{Spi, fs_max_files, fs_data_sectors}
use osito_k.Fs.Table.{find_file, find_free_slot, entry_free, entry_name, same_name, table_entry}
use osito_k.Fs.Table.Strings.{IsName, same_name_same}
use osito_k.Fs.Bitmap.{build_bitmap, alloc_sectors}
use osito_k.Fs.Bitmap.Runs.{AllFree, FirstRun, alloc_sectors-FirstRun}
use osito_k.Fs.Calls.{
  Fs, sectors_for, read_table, create_in_slot, create_new, create_file, fs_create,
}

-- The test of `find_file`.
abbrev pub is_file : Array ℕ → Array ℕ → ℕ → Bool
is_file t name i = not (entry_free t i) && same_name (entry_name t i) name

pub find_file-First : (t name : Array ℕ) → First (is_file t name) 0 fs_max_files (find_file t name)
unfolding find_file
find_file-First t name =
    first_index-First fs_max_files (is_file t name) 0 fs_max_files (omega arith)

pub find_free_slot-First :
    (t : Array ℕ) → First (λ i. entry_free t i) 0 fs_max_files (find_free_slot t)
unfolding find_free_slot
find_free_slot-First t =
    first_index-First fs_max_files (λ i. entry_free t i) 0 fs_max_files (omega arith)

-- Two tables that agree on the name of entry `i` agree on whether it is the file.
pub is_file_named :
    (t t' name : Array ℕ) (n i : ℕ)
    → IsName name n
    → ((d : ℕ) → d < 24 → t (table_entry i + d) ≡ t' (table_entry i + d))
    → is_file t name i ≡ is_file t' name i
unfolding entry_free
is_file_named t t' name n i v same =
    let q : table_entry i + 0 ≡ table_entry i = omega arith in
    let e = rw q at (same 0 (omega arith)) in
    let f = v.fits in
    let s =
      same_name_same (entry_name t i) (entry_name t' i) name n v (λ j le. same j (omega arith)) in
    rw (e, s) refl

pub is_file_same :
    (t t' name : Array ℕ) (n i : ℕ)
    → IsName name n
    → ((d : ℕ) → d < 32 → t (table_entry i + d) ≡ t' (table_entry i + d))
    → is_file t name i ≡ is_file t' name i
is_file_same t t' name n i v same = is_file_named t t' name n i v (λ d h. same d (omega arith))

-- A call of `fs_create` that succeeds: the file went to a free slot and the first free run, and no
-- file had its name.
pub record Placed (spi : Spi) (tmp : Array ℕ) (fs fs' : Fs) (name src : Array ℕ) (at size : ℕ)
    : Type 0 where
  pub slot : ℕ
  pub start : ℕ
  pub slot_in : slot < fs_max_files
  pub slot_free : entry_free (read_table spi tmp fs).sec_buf slot ≡ true
  pub fits : start + sectors_for size ≤ fs_data_sectors
  pub free_run : AllFree (build_bitmap (read_table spi tmp fs).sec_buf) start (sectors_for size)
  pub new_name : (i : ℕ) → i < fs_max_files → is_file (read_table spi tmp fs).sec_buf name i ≡ false
  pub result : fs' ≡ create_file spi tmp (read_table spi tmp fs) name src at size slot start

module _ (spi : Spi) (tmp : Array ℕ) (fs : Fs) (name src : Array ℕ) (at size : ℕ) where
  abbrev loaded : Fs
  loaded = read_table spi tmp fs

  create_in_slot-Placed :
      (slot : ℕ) (r : Option ℕ)
      → slot < fs_max_files
      → entry_free loaded.sec_buf slot ≡ true
      → ((i : ℕ) → i < fs_max_files → is_file loaded.sec_buf name i ≡ false)
      → FirstRun (build_bitmap loaded.sec_buf) (sectors_for size) fs_data_sectors r
      → (create_in_slot spi tmp loaded name src at size slot r).1 ≡ true
      → Placed spi tmp fs (create_in_slot spi tmp loaded name src at size slot r).0 name src at size
  unfolding create_in_slot
  create_in_slot-Placed slot none lt fr nf run e = cc e
  create_in_slot-Placed slot (some start) lt fr nf run e = record {
    slot = slot;
    start = start;
    slot_in = lt;
    slot_free = fr;
    fits = run.0;
    free_run = run.1;
    new_name = nf;
    result = refl;
  }

  create_new-Placed :
      (found free : Option ℕ)
      → First (is_file loaded.sec_buf name) 0 fs_max_files found
      → First (λ i. entry_free loaded.sec_buf i) 0 fs_max_files free
      → 0 < sectors_for size
      → (create_new spi tmp loaded name src at size found free).1 ≡ true
      → Placed spi tmp fs (create_new spi tmp loaded name src at size found free).0 name src at size
  unfolding create_new
  create_new-Placed (some i) free nf fr pos e = cc e
  create_new-Placed none none nf fr pos e = cc e
  create_new-Placed none (some slot) nf fr pos e =
      create_in_slot-Placed slot (alloc_sectors (build_bitmap loaded.sec_buf) (sectors_for size))
        fr.1 fr.2 (λ i lt. nf i (omega arith) lt)
        (alloc_sectors-FirstRun (build_bitmap loaded.sec_buf) (sectors_for size) pos) e

  -- Past its guards.
  abbrev attempted : Fs × Bool
  attempted =
      create_new spi tmp loaded name src at size (find_file loaded.sec_buf name)
        (find_free_slot loaded.sec_buf)

  fs_create_goes :
      (b c : Bool)
      → fs.mounted ≡ b
      → ((name 0 == 0) || (size == 0)) ≡ c
      → fs_create spi tmp fs name src at size
        ≡ (if not b then (fs, false) else if c then (fs, false) else attempted)
  unfolding fs_create
  fs_create_goes b c m g =
      ap₂ (λ x y. if not x then (fs, false) else if y then (fs, false) else attempted) m g

  from_attempt :
      (b c : Bool)
      → (if not b then (fs, false) else if c then (fs, false) else attempted).1 ≡ true
      → (b ≡ true) × (c ≡ false) × (attempted.1 ≡ true)
  from_attempt false c e = cc e
  from_attempt true true e = cc e
  from_attempt true false e = (refl, refl, e)

  pub fs_create-Placed :
      0 < sectors_for size
      → (fs_create spi tmp fs name src at size).1 ≡ true
      → (fs.mounted ≡ true)
        × Placed spi tmp fs (fs_create spi tmp fs name src at size).0 name src at size
  fs_create-Placed pos e =
      let g = fs_create_goes fs.mounted ((name 0 == 0) || (size == 0)) refl refl in
      let (m, c, a) =
        from_attempt fs.mounted ((name 0 == 0) || (size == 0)) (ap (λ r. r.1) (sym g) ∙ e) in
      let h : fs_create spi tmp fs name src at size ≡ attempted = fs_create_goes true false m c in
      (
        m,
        subst (λ x. Placed spi tmp fs x name src at size) (ap (λ r. r.0) (sym h))
            (create_new-Placed (find_file loaded.sec_buf name) (find_free_slot loaded.sec_buf)
              (find_file-First loaded.sec_buf name) (find_free_slot-First loaded.sec_buf) pos a),
      )
