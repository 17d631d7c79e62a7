-- ===== src/Fs/Upload/Stored.antt =====
-- What `fs_upload` stores, `fs_read` gives back.
use osito_k.Base.{
  ℕ, ◌+◌, ◌-◌, ◌^◌, ◌≤◌, ◌<◌, ◌≡◌, ◌⊎◌, inl, inr, refl, ap, ◌∙◌, true, false, Array, List, element,
  length, Option, none, some, arith, min, First,
}
use native.Mathlib.Decide.{ℕ_discrete, dec_lt}
use osito_k.Fs.Flash.{Spi, IsSpi, fs_sector_size, fs_max_files, fs_data_sectors, fs_table_addr}
use osito_k.Fs.Table.{fill_entry, find_file, entry_free, table_entry}
use osito_k.Fs.Table.Strings.{IsName}
use osito_k.Fs.Table.Same.{entry_size_same, start_sector_same}
use osito_k.Fs.Table.Entries.{
  filled_other, filled_size, filled_start, filled-entry_free, filled-same_name,
}
use osito_k.Fs.Bitmap.{build_bitmap, alloc_sectors}
use osito_k.Fs.Bitmap.Runs.{FirstRun, alloc_sectors-FirstRun}
use osito_k.Fs.Calls.{Fs, sectors_for, read_table, write_table, one_file_more, fs_read}
use osito_k.Fs.Calls.Data.{sectors_for_lem}
use osito_k.Fs.Calls.Sectors.{
  read_table_lem, write_table_holds, one_file_more_others, one_file_more-mounted,
  write_table-mounted,
}
use osito_k.Fs.Calls.Created.{is_file, find_file-First, is_file_same}
use osito_k.Fs.Calls.Reading.{IsFile, fs_read-IsFile}
use osito_k.Fs.Upload.{
  fs_crc16, Poll, Outcome, failed, finished, unfinished, upload_into, upload_slot,
}
use osito_k.Fs.Upload.Receive.{chars, idle}
use osito_k.Fs.Upload.Sectors.{IsStored, Stores, upload_sectors-Stores}

abbrev filled : Fs → Array ℕ → ℕ → ℕ → ℕ → Array ℕ
filled fs name size slot start = fill_entry fs.sec_buf slot name size start (sectors_for size)

-- The entry is in the table, and is counted.
abbrev entered : Spi → Array ℕ → Fs → Array ℕ → ℕ → ℕ → ℕ → Fs
entered spi tmp fs name size slot start =
    one_file_more spi tmp
      (write_table spi tmp (record fs { sec_buf = filled fs name size slot start }))

-- The entry is written to slot `slot` of the table `t`, no file in front of it has the name, and the
-- data of `fs'` behind it.
module _ (spi : Spi) (laws : IsSpi spi) (tmp : Array ℕ) (fs fs' : Fs) (name : Array ℕ)
    (size n slot start crc crc' : ℕ) (polls : List Poll) (v : IsName name n) (pos : 0 < size)
    (small : size < 2 ^ 28 - fs_sector_size) (slot_in : slot < fs_max_files)
    (fits : start + sectors_for size ≤ fs_data_sectors)
    (in_front : (j : ℕ) → j < slot → is_file fs.sec_buf name j ≡ false) where
  module _
      (w : IsStored
        (entered spi tmp fs name size slot start)
        fs'
        start
        (sectors_for size)
        size
        crc
        crc'
        polls) where
    abbrev new : Array ℕ
    new = filled fs name size slot start

    abbrev t' : Array ℕ
    t' = (read_table spi tmp fs').sec_buf

    reread : (i : ℕ) → i < fs_sector_size → t' i ≡ new i
    reread i h =
        read_table_lem spi laws tmp fs' i h
        ∙ w.others (fs_table_addr + i) (inl (omega arith))
        ∙ one_file_more_others spi laws tmp (write_table spi tmp (record fs { sec_buf = new }))
            (fs_table_addr + i) (omega arith)
        ∙ write_table_holds spi laws tmp (record fs { sec_buf = new }) i h

    is_file_slot : is_file t' name slot ≡ true
    is_file_slot =
        is_file_same t' new name n slot v (λ d h. reread (table_entry slot + d) (omega arith))
        ∙ (let a = filled-entry_free fs.sec_buf slot name n size start (sectors_for size) v in
            let b = filled-same_name fs.sec_buf slot name n size start (sectors_for size) v in
            rw (a, b) refl)

    none_in_front : (j : ℕ) → j < slot → is_file t' name j ≡ false
    none_in_front j h =
        is_file_same t' fs.sec_buf name n j v (λ d hd.
          reread (table_entry j + d) (omega arith)
          ∙ filled_other fs.sec_buf slot name n size start (sectors_for size) v (table_entry j + d)
              (omega arith))
        ∙ in_front j h

    found_slot : (r : Option ℕ) → First (is_file t' name) 0 fs_max_files r → r ≡ some slot
    found_slot none all = cc (is_file_slot, all slot (omega arith) slot_in)
    found_slot (some s) (_, lt, e, before) = elim (ℕ_discrete s slot) [
      | yes q ↦ ap some q
      | no ne ↦ elim (dec_lt s slot) [
        | yes l ↦ cc (e, none_in_front s l)
        | no nl ↦ cc (is_file_slot, before slot (omega arith) (omega arith))
      ]
    ]

    stored-IsFile :
        fs.mounted ≡ true → IsFile spi tmp fs' name (element (chars polls)) size slot start
    stored-IsFile m =
        let (_, _, _, w16) = sectors_for_lem size pos small in
        record {
          below = omega arith;
          mounted =
              w.same_mounted
              ∙ one_file_more-mounted spi laws tmp
                  (write_table spi tmp (record fs { sec_buf = new }))
              ∙ write_table-mounted spi laws tmp (record fs { sec_buf = new })
              ∙ m;
          found = found_slot (find_file t' name) (find_file-First t' name);
          has_size =
              entry_size_same t' new slot (λ d h. reread (table_entry slot + d) (omega arith))
              ∙ filled_size fs.sec_buf slot name n size start (sectors_for size) v (omega arith);
          starts =
              start_sector_same t' new slot (λ d h. reread (table_entry slot + d) (omega arith))
              ∙ filled_start fs.sec_buf slot name n size start (sectors_for size) v (omega arith);
          bytes = w.holds;
        }

module _ (spi : Spi) (laws : IsSpi spi) (tmp : Array ℕ) (starts : ℕ → ℕ) (name : Array ℕ) where
  -- What a call of `fs_upload` has done, if `t` is the table without the old file.
  abbrev pub Uploaded : Array ℕ → ℕ → List Poll → Outcome → Type 0
  Uploaded t size polls (finished fs' crc) =
      (crc ≡ fs_crc16 (element (chars polls)) size)
      × ((buf : Array ℕ) (at max_size : ℕ)
          → let (_, buf', r) = fs_read spi tmp fs' name buf at max_size in
            (r ≡ some (min size max_size))
            × ((i : ℕ) → i < min size max_size → buf' i ≡ element (chars polls) i))
  Uploaded t size polls unfinished = length (chars polls) < size
  Uploaded t size polls (failed fs') =
      (0 < idle polls)
      ⊎ (((i : ℕ) → i < fs_max_files → entry_free t i ≡ false)
          ⊎ FirstRun (build_bitmap t) (sectors_for size) fs_data_sectors none)

  module _ (fs : Fs) (size n : ℕ) (polls : List Poll) (v : IsName name n) (pos : 0 < size)
      (small : size < 2 ^ 28 - fs_sector_size) (m : fs.mounted ≡ true) where
    stored-Uploaded :
        (slot start : ℕ) (r : Outcome)
        → slot < fs_max_files
        → start + sectors_for size ≤ fs_data_sectors
        → ((j : ℕ) → j < slot → is_file fs.sec_buf name j ≡ false)
        → Stores
            (entered spi tmp fs name size slot start)
            start
            (sectors_for size)
            size
            0xffff
            polls
            r
        → Uploaded fs.sec_buf size polls r
    unfolding fs_crc16
    stored-Uploaded slot start (finished fs' crc) hs fits front w = (
      w.checksum,
      λ buf at max_size.
          fs_read-IsFile spi laws tmp
            (stored-IsFile spi laws tmp fs fs' name size n slot start 0xffff crc polls v pos small
              hs fits front w m)
            buf at max_size,
    )
    stored-Uploaded slot start unfinished hs fits front w = w
    stored-Uploaded slot start (failed fs') hs fits front w = inl w

    into-Uploaded :
        (slot : ℕ) (r : Option ℕ)
        → slot < fs_max_files
        → ((j : ℕ) → j < slot → is_file fs.sec_buf name j ≡ false)
        → FirstRun (build_bitmap fs.sec_buf) (sectors_for size) fs_data_sectors r
        → Uploaded fs.sec_buf size polls (upload_into spi tmp starts name fs size slot r polls)
    unfolding upload_into
    into-Uploaded slot none hs front run = inr (inr run)
    into-Uploaded slot (some start) hs front run =
        let (_, fits, _, _) = sectors_for_lem size pos small in
        let q : start + 0 ≡ start = omega arith in
        stored-Uploaded slot start _ hs run.0 front (
          rw q at (
            upload_sectors-Stores spi laws tmp starts name (sectors_for size)
              (entered spi tmp fs name size slot start) start 0 size 0xffff polls fits))

    pub slot-Uploaded :
        (r : Option ℕ)
        → First (λ i. entry_free fs.sec_buf i) 0 fs_max_files r
        → ((s : ℕ) → r ≡ some s → (j : ℕ) → j < s → is_file fs.sec_buf name j ≡ false)
        → Uploaded fs.sec_buf size polls (upload_slot spi tmp starts name fs size r polls)
    unfolding upload_slot
    slot-Uploaded none all front = inr (inl (λ i h. all i (omega arith) h))
    slot-Uploaded (some slot) (_, hs, _, _) front =
        let (nsec, _, _, _) = sectors_for_lem size pos small in
        into-Uploaded slot (alloc_sectors (build_bitmap fs.sec_buf) (sectors_for size)) hs
          (front slot refl)
          (alloc_sectors-FirstRun (build_bitmap fs.sec_buf) (sectors_for size) nsec)
