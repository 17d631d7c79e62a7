-- ===== src/Fs/Update/Overwrite.antt =====
-- `fs_overwrite`.
use osito_k.Base.{
  ℕ, ◌-◌, ◌^◌, ◌<◌, ◌≤◌, ◌≡◌, inl, inr, refl, sym, ap, ap₂, ◌∙◌, true, false, not, leb, Array,
  if◌then◌else◌, Bool, Bool-cases, Option, none, some, First, arith, ◌||◌, ◌==◌, min,
}
use osito_k.Fs.Flash.{Spi, IsSpi, fs_sector_size, fs_max_files}
use osito_k.Fs.Table.{start_sector, sector_count, find_file}
use osito_k.Fs.Table.Strings.{IsName}
use osito_k.Fs.Calls.Reading.{IsFile, fs_read-IsFile}
use osito_k.Fs.Calls.{Fs, sectors_for, read_table, fs_read, remove_file}
use osito_k.Fs.Calls.Sectors.{read_table-mounted}
use osito_k.Fs.Calls.Created.{is_file, find_file-First}
use osito_k.Fs.Calls.RoundTrip.{fs_read-fs_create}
use osito_k.Fs.Calls.Delete.{table_of}
use osito_k.Fs.Update.{rewrite_file, overwrite_found, fs_overwrite}
use osito_k.Fs.Update.Rewrite.{rewritten_found, rewritten_fields, rewritten_data, rewritten-mounted}

-- Reading the file after it was rewritten.
module _ (spi : Spi) (laws : IsSpi spi) (tmp : Array ℕ) (fs : Fs) (i : ℕ) (name src : Array ℕ)
    (at size n : ℕ) (hi : i < fs_max_files) (pos : 0 < size)
    (small : size < 2 ^ 28 - fs_sector_size) (fits : sectors_for size ≤ sector_count fs.sec_buf i)
    (v : IsName name n) (found : find_file fs.sec_buf name ≡ some i) (m : fs.mounted ≡ true) where
  abbrev new : Fs
  new = rewrite_file spi tmp fs i src at size

  rewritten-IsFile : IsFile spi tmp new name src size i (start_sector fs.sec_buf i)
  rewritten-IsFile =
      let (sz, st, _) = rewritten_fields spi laws tmp fs i src at size hi pos small fits in
      record {
        below = omega arith;
        mounted = rewritten-mounted spi laws tmp fs i src at size hi pos small fits ∙ m;
        found = rewritten_found spi laws tmp fs i src at size hi pos small fits name n v ∙ found;
        has_size = sz;
        starts = st;
        bytes = rewritten_data spi laws tmp fs i src at size hi pos small fits;
      }

  pub read_back :
      (buf : Array ℕ) (at' max_size : ℕ)
      → let (_, buf', r) = fs_read spi tmp new name buf at' max_size in
        (r ≡ some (min size max_size)) × ((j : ℕ) → j < min size max_size → buf' j ≡ src j)
  read_back buf at' max_size = fs_read-IsFile spi laws tmp rewritten-IsFile buf at' max_size

-- A call past its guards.
pub past_guards :
    (fs : Fs) (b c : Bool) (r : Fs × Bool)
    → (if not b then (fs, false) else if c then (fs, false) else r).1 ≡ true
    → (b ≡ true) × (c ≡ false) × (r.1 ≡ true)
past_guards fs false c r e = cc e
past_guards fs true true r e = cc e
past_guards fs true false r e = (refl, refl, e)

module _ (spi : Spi) (laws : IsSpi spi) (tmp : Array ℕ) (fs : Fs) (name src : Array ℕ)
    (at size n : ℕ) (v : IsName name n) (pos : 0 < size)
    (small : size < 2 ^ 28 - fs_sector_size) where
  -- What the call's result, `r`, lets a reader find.
  abbrev ReadsBack : Fs × Bool → Type 0
  ReadsBack r =
      (buf : Array ℕ) (at' max_size : ℕ)
      → let (_, buf', got) = fs_read spi tmp r.0 name buf at' max_size in
        (got ≡ some (min size max_size)) × ((j : ℕ) → j < min size max_size → buf' j ≡ src j)

  abbrev found_call : Option ℕ → Fs × Bool
  found_call r = overwrite_found spi tmp (read_table spi tmp fs) name src at size r

  overwrite_found_lem :
      (r : Option ℕ)
      → fs.mounted ≡ true
      → find_file (table_of spi tmp fs) name ≡ r
      → First (is_file (table_of spi tmp fs) name) 0 fs_max_files r
      → (found_call r).1 ≡ true
      → ReadsBack (found_call r)
  unfolding overwrite_found remove_file
  overwrite_found_lem none m q f e =
      fs_read-fs_create spi laws tmp (read_table spi tmp fs) name src at size n v pos small e
  overwrite_found_lem (some i) m q f e =
      elim (Bool-cases (leb (sectors_for size) (sector_count (table_of spi tmp fs) i))) [
        | inl y ↦ rw y (
            read_back spi laws tmp (read_table spi tmp fs) i name src at size n f.1 pos small
              (ground arith) v q (read_table-mounted spi laws tmp fs ∙ m))
        | inr no_room ↦ rw no_room (
            fs_read-fs_create spi laws tmp (remove_file spi tmp (read_table spi tmp fs) i) name src
              at size n v pos small (rw no_room at e))
      ]

  fs_overwrite_goes :
      (b c : Bool)
      → fs.mounted ≡ b
      → ((name 0 == 0) || (size == 0)) ≡ c
      → fs_overwrite spi tmp fs name src at size ≡ (
          if not b
          then (fs, false)
          else if c
          then (fs, false)
          else found_call (find_file (table_of spi tmp fs) name))
  unfolding fs_overwrite
  fs_overwrite_goes b c m g =
      ap₂
        (λ x y.
          if not x
          then (fs, false)
          else if y
          then (fs, false)
          else found_call (find_file (table_of spi tmp fs) name))
        m g

  -- On a flash that keeps the data sheet: if `fs_overwrite` succeeds for a name of 1 to 23 characters
  -- that does not begin with the byte 0xff, and a size from 1 to less than 2 ^ 28 - 4096 bytes, whether there was such a file, and whether the data
  -- fits in its sectors or not, `fs_read` of that name returns the size, or the size of the buffer if
  -- that is less, and the buffer begins with so many bytes of the data.
  pub fs_read-fs_overwrite :
      (fs_overwrite spi tmp fs name src at size).1 ≡ true
      → (buf : Array ℕ) (at' max_size : ℕ)
      → let (_, buf', got) =
          fs_read spi tmp (fs_overwrite spi tmp fs name src at size).0 name buf at' max_size in
        (got ≡ some (min size max_size)) × ((j : ℕ) → j < min size max_size → buf' j ≡ src j)
  fs_read-fs_overwrite e =
      let c = (name 0 == 0) || (size == 0) in
      let g = fs_overwrite_goes fs.mounted c refl refl in
      let (m, no_guard, ok) =
        past_guards fs fs.mounted c (found_call (find_file (table_of spi tmp fs) name))
          (ap (λ r. r.1) (sym g) ∙ e) in
      rw (fs_overwrite_goes true false m no_guard) (
        overwrite_found_lem (find_file (table_of spi tmp fs) name) m refl
          (find_file-First (table_of spi tmp fs) name) ok)
