-- ===== src/Fs/Calls/Keeps.antt =====
-- What `fs_create` leaves alone.
use osito_k.Base.{
  ℕ, ◌+◌, ◌-◌, ◌^◌, ◌≤◌, ◌<◌, ◌≡◌, ◌≢◌, ◌⊎◌, inl, inr, refl, ap, ap₂, ◌∙◌, Bool, true, false, not,
  ◌||◌, ◌==◌, Array, Option, none, some, arith, if◌then◌else◌, ltb, ◌%◌,
}
use native.Mathlib.Decide.{dec_lt, dec_le}
use osito_k.Fs.Flash.{Spi, IsSpi, fs_sector_size, fs_max_files, fs_data_sectors, round4}
use osito_k.Fs.Table.{entry_free, table_entry, find_file, find_free_slot, entry_size, start_sector}
use osito_k.Fs.Transfer.{flash_read_lem}
use osito_k.Fs.Table.Strings.{IsName}
use osito_k.Fs.Bitmap.{build_bitmap, alloc_sectors}
use osito_k.Fs.Bitmap.Runs.{Holds, build_bitmap_lem}
use osito_k.Fs.Calls.{
  Fs, data_sector, sectors_for, read_table, create_in_slot, create_new, fs_create, read_found,
  fs_read,
}
use osito_k.Fs.Calls.Data.{sectors_for_lem}
use osito_k.Fs.Calls.Sectors.{read_table-flash, created_others}
use osito_k.Fs.Calls.Created.{Placed, fs_create-Placed}
use osito_k.Fs.Calls.RoundTrip.{others_entry}

module _ (spi : Spi) (laws : IsSpi spi) (tmp : Array ℕ) {fs fs' : Fs} {name src : Array ℕ}
    {at size n : ℕ} (v : IsName name n) (small : size < 2 ^ 28 - fs_sector_size) (pos : 0 < size)
    (p : Placed spi tmp fs fs' name src at size) where
  abbrev t : Array ℕ
  t = (read_table spi tmp fs).sec_buf

  -- A file of the table is in another slot, and has none of the new sectors.
  other_slot : (j : ℕ) → entry_free t j ≡ false → j ≢ p.slot
  other_slot j e q = cc (e, p.slot_free, q)

  apart :
      (j b : ℕ)
      → j < fs_max_files
      → b < fs_data_sectors
      → Holds t j b
      → (b < p.start) ⊎ (p.start + sectors_for size ≤ b)
  apart j b hj hb h = elim (dec_lt b p.start) [
    | yes lt ↦ inl lt
    | no nlt ↦ elim (dec_le (p.start + sectors_for size) b) [
      | yes le ↦ inr le
      | no nle ↦
          absurd ((build_bitmap_lem t b hb).0 (p.free_run b (omega arith) (omega arith)) j hj h)
    ]
  ]

  data_kept :
      (j b o : ℕ)
      → j < fs_max_files
      → b < fs_data_sectors
      → o < fs_sector_size
      → Holds t j b
      → fs'.flash (data_sector b + o) ≡ fs.flash (data_sector b + o)
  data_kept j b o hj hb ho h =
      let s = apart j b hj hb h in
      rw (p.result) (
        created_others spi laws tmp (read_table spi tmp fs) name src at size p.slot p.start
          (data_sector b + o) (inr (omega arith)) (omega arith))
      ∙ ap (λ c. c (data_sector b + o)) (read_table-flash spi laws tmp fs)

-- On a flash that keeps the data sheet: if `fs_create` succeeds, under the conditions of
-- `fs_read-fs_create`, every file that the table held keeps its entry and the bytes of all its sectors.
pub fs_create_keeps :
    (spi : Spi) (laws : IsSpi spi) (tmp : Array ℕ) (fs : Fs) (name src : Array ℕ) (at size n : ℕ)
    → IsName name n
    → 0 < size
    → size < 2 ^ 28 - fs_sector_size
    → (fs_create spi tmp fs name src at size).1 ≡ true
    → let t = (read_table spi tmp fs).sec_buf in
      let fs' = (fs_create spi tmp fs name src at size).0 in
      (j : ℕ)
      → j < fs_max_files
      → entry_free t j ≡ false
      → ((d : ℕ)
          → d < 32
          → (read_table spi tmp fs').sec_buf (table_entry j + d) ≡ t (table_entry j + d))
        × ((b o : ℕ)
            → b < fs_data_sectors
            → o < fs_sector_size
            → Holds t j b
            → fs'.flash (data_sector b + o) ≡ fs.flash (data_sector b + o))
fs_create_keeps spi laws tmp fs name src at size n v pos small ok j hj used =
    let (m, p) =
      fs_create-Placed spi tmp fs name src at size (sectors_for_lem size pos small).0 ok in
    (
      λ d hd.
          others_entry spi laws tmp v small pos p j d hj
            (other_slot spi laws tmp v small pos p j used) hd,
      λ b o hb ho h. data_kept spi laws tmp v small pos p j b o hj hb ho h,
    )

module _ (spi : Spi) (tmp : Array ℕ) where
  create_in_slot_fails :
      (fs : Fs) (name src : Array ℕ) (at size slot : ℕ) (r : Option ℕ)
      → (create_in_slot spi tmp fs name src at size slot r).1 ≡ false
      → (create_in_slot spi tmp fs name src at size slot r).0 ≡ fs
  unfolding create_in_slot
  create_in_slot_fails fs name src at size slot none e = refl
  create_in_slot_fails fs name src at size slot (some start) e = cc e

  create_new_fails :
      (fs : Fs) (name src : Array ℕ) (at size : ℕ) (found free : Option ℕ)
      → (create_new spi tmp fs name src at size found free).1 ≡ false
      → (create_new spi tmp fs name src at size found free).0 ≡ fs
  unfolding create_new
  create_new_fails fs name src at size (some i) free e = refl
  create_new_fails fs name src at size none none e = refl
  create_new_fails fs name src at size none (some slot) e =
      create_in_slot_fails fs name src at size slot
        (alloc_sectors (build_bitmap fs.sec_buf) (sectors_for size)) e

  -- A call of `fs_create` that fails, for whatever reason, leaves the flash as it was.
  pub fs_create_fails :
      (fs : Fs) (name src : Array ℕ) (at size : ℕ)
      → (fs_create spi tmp fs name src at size).1 ≡ false
      → (fs_create spi tmp fs name src at size).0.flash ≡ fs.flash
  unfolding fs_create
  fs_create_fails fs name src at size e =
      let loaded = read_table spi tmp fs in
      guarded fs.mounted ((name 0 == 0) || (size == 0))
        (create_new spi tmp loaded name src at size (find_file loaded.sec_buf name)
          (find_free_slot loaded.sec_buf))
        (λ a.
          ap (λ x. x.flash)
            (create_new_fails loaded name src at size (find_file loaded.sec_buf name)
              (find_free_slot loaded.sec_buf) a)
          ∙ unfold read_table in refl)
        e
    where
      guarded :
          (b c : Bool) (r : Fs × Bool)
          → (r.1 ≡ false → r.0.flash ≡ fs.flash)
          → (if not b then (fs, false) else if c then (fs, false) else r).1 ≡ false
          → (if not b then (fs, false) else if c then (fs, false) else r).0.flash ≡ fs.flash
      guarded false c r h e = refl
      guarded true true r h e = refl
      guarded true false r h e = h e

fs_read_goes :
    (spi : Spi) (tmp : Array ℕ) (fs : Fs) (name buf : Array ℕ) (at max_size i : ℕ)
    → fs.mounted ≡ true
    → find_file (read_table spi tmp fs).sec_buf name ≡ some i
    → (fs_read spi tmp fs name buf at max_size).1 max_size
      ≡ (read_found spi tmp (read_table spi tmp fs) buf at max_size (some i)).1 max_size
unfolding fs_read
fs_read_goes spi tmp fs name buf at max_size i m found =
    ap₂
      (λ b r.
        (if not b
            then (fs, buf, none)
            else read_found spi tmp (read_table spi tmp fs) buf at max_size r).1
          max_size)
      m found

read_found_overruns :
    (spi : Spi) (laws : IsSpi spi) (tmp : Array ℕ) (fs : Fs) (buf : Array ℕ) (at max_size i : ℕ)
    → max_size < entry_size fs.sec_buf i
    → max_size < 2 ^ 31 - 4
    → max_size % 4 ≢ 0
    → (read_found spi tmp fs buf at max_size (some i)).1 max_size
      ≡ fs.flash (data_sector (start_sector fs.sec_buf i) + max_size)
unfolding read_found
read_found_overruns spi laws tmp fs buf at max_size i long small al =
    let q : (if ltb (entry_size fs.sec_buf i) max_size then entry_size fs.sec_buf i else max_size)
        ≡ max_size =
      ground arith in
    let l : ltb max_size (round4 max_size) ≡ true = ground arith in
    rw q (
      flash_read_lem spi laws fs.flash (data_sector (start_sector fs.sec_buf i)) buf at
        (round4 max_size) max_size (omega arith)
      ∙ rw l refl)

-- On a flash that keeps the data sheet, when the file found is longer than the buffer, and the size of
-- the buffer is no multiple of 4, `fs_read` writes behind the buffer: the byte at index `max_size`
-- becomes one of the file's sectors.
pub fs_read_overruns :
    (spi : Spi) (laws : IsSpi spi) (tmp : Array ℕ) (fs : Fs) (name buf : Array ℕ)
    (at max_size i : ℕ)
    → fs.mounted ≡ true
    → find_file (read_table spi tmp fs).sec_buf name ≡ some i
    → max_size < entry_size (read_table spi tmp fs).sec_buf i
    → max_size < 2 ^ 31 - 4
    → max_size % 4 ≢ 0
    → (fs_read spi tmp fs name buf at max_size).1 max_size
      ≡ fs.flash (data_sector (start_sector (read_table spi tmp fs).sec_buf i) + max_size)
fs_read_overruns spi laws tmp fs name buf at max_size i m found long small al =
    fs_read_goes spi tmp fs name buf at max_size i m found
    ∙ read_found_overruns spi laws tmp (read_table spi tmp fs) buf at max_size i long small al
    ∙ ap (λ c. c (data_sector (start_sector (read_table spi tmp fs).sec_buf i) + max_size))
        (read_table-flash spi laws tmp fs)
