-- ===== src/Fs/Upload/Uploads.antt =====
-- The whole of `fs_upload`.
use osito_k.Base.{
  ℕ, ◌-◌, ◌^◌, ◌<◌, ◌≡◌, refl, sym, ap₂, ◌∙◌, Bool, true, false, not, ◌||◌, Array, ◌==◌,
  if◌then◌else◌, Option, none, some, List, arith, First,
}
use mathlib.Core.Option.{some-injective}
use native.Mathlib.Decide.{dec_lt}
use osito_k.Fs.Flash.{Spi, IsSpi, fs_sector_size, fs_max_files}
use osito_k.Fs.Table.{find_file, find_free_slot, entry_free, clear_entry}
use osito_k.Fs.Table.Strings.{IsName}
use osito_k.Fs.Calls.{Fs, read_table, write_table, remove_file}
use osito_k.Fs.Calls.Sectors.{read_table-mounted, write_table-mounted, one_file_less-mounted}
use osito_k.Fs.Calls.Created.{is_file, find_file-First, find_free_slot-First, is_file_same}
use osito_k.Fs.Calls.Delete.{table_of, removed-entry_free, removed-AgreeAt}
use osito_k.Fs.Upload.{Poll, failed, upload_slot, make_way, fs_upload}
use osito_k.Fs.Upload.Stored.{Uploaded, slot-Uploaded}

module _ (spi : Spi) (laws : IsSpi spi) (tmp : Array ℕ) (starts : ℕ → ℕ) (name : Array ℕ) where
  removed-mounted : (fs : Fs) (i : ℕ) → (remove_file spi tmp fs i).mounted ≡ fs.mounted
  unfolding remove_file
  removed-mounted fs i =
      let cleared = record fs { sec_buf = clear_entry fs.sec_buf i } in
      one_file_less-mounted spi laws tmp (write_table spi tmp cleared)
      ∙ write_table-mounted spi laws tmp cleared

  make_way-mounted :
      (fs : Fs) (r : Option ℕ) → (make_way spi tmp starts name fs r).mounted ≡ fs.mounted
  unfolding make_way
  make_way-mounted fs none = refl
  make_way-mounted fs (some i) =
      read_table-mounted spi laws tmp (remove_file spi tmp fs i) ∙ removed-mounted fs i

  -- No file of the name stands in front of the slot that the new one gets.
  none_in_front :
      (fs : Fs) (n : ℕ) (r q : Option ℕ)
      → IsName name n
      → First (is_file fs.sec_buf name) 0 fs_max_files r
      → First (λ i. entry_free (make_way spi tmp starts name fs r).sec_buf i) 0 fs_max_files q
      → (s : ℕ) → q ≡ some s
      → (j : ℕ) → j < s
      → is_file (make_way spi tmp starts name fs r).sec_buf name j ≡ false
  unfolding make_way
  none_in_front fs n r none v f g s e j h = cc e
  none_in_front fs n none (some s') v f g s e j h =
      let eq : s' ≡ s = some-injective _ _ e in
      f j (omega arith) (let b = g.1 in omega (arith, eq, b))
  none_in_front fs n (some i) (some s') v (_, hi, _, before) (_, hs, _, used) s e j h =
      let eq : s' ≡ s = some-injective _ _ e in
      elim (dec_lt i s') [
        | yes lt ↦ cc (removed-entry_free spi laws tmp fs i hi, used i (omega arith) lt)
        | no nlt ↦
            is_file_same (table_of spi tmp (remove_file spi tmp fs i)) fs.sec_buf name n j v
              (λ d hd.
                sym (
                  removed-AgreeAt spi laws tmp fs i j hi (omega arith) (λ x. omega (arith, x)) d
                    hd))
            ∙ before j (omega arith) (omega arith)
      ]

  abbrev pub loaded : Fs → Fs
  loaded fs =
      make_way spi tmp starts name (read_table spi tmp fs)
        (find_file (read_table spi tmp fs).sec_buf name)

  fs_upload_goes :
      (fs : Fs) (size : ℕ) (polls : List Poll) (b c : Bool)
      → fs.mounted ≡ b
      → ((name 0 == 0) || (size == 0)) ≡ c
      → fs_upload spi tmp starts name fs size polls ≡ (
          if not b
          then failed fs
          else if c
          then failed fs
          else upload_slot spi tmp starts name
              (loaded fs)
              size
              (find_free_slot (loaded fs).sec_buf)
              polls)
  unfolding fs_upload
  fs_upload_goes fs size polls b c m g =
      ap₂
        (λ x y.
          if not x
          then failed fs
          else if y
          then failed fs
          else upload_slot spi tmp starts name (loaded fs) size (find_free_slot (loaded fs).sec_buf)
              polls)
        m g

-- `fs_upload` on a mounted file system, on a flash that keeps the data sheet, with a name of 1 to 23
-- characters that does not begin with the byte 0xff, and a size from 1 to less than 2 ^ 28 - 4096
-- bytes, whatever the table held. If it finishes, it
-- returns the checksum that `fs_crc16` computes for the bytes that the UART delivered, and `fs_read`
-- gives back those bytes. It does not come to an end only if fewer bytes are delivered than the size.
-- It fails only if `uart_getc` once found no byte, or if, without the old file of the name, no entry of
-- the table is free or no run of sectors is long enough.
pub fs_upload_lem :
    (spi : Spi) (laws : IsSpi spi) (tmp : Array ℕ) (starts : ℕ → ℕ) (name : Array ℕ) (fs : Fs)
    (size n : ℕ) (polls : List Poll)
    → IsName name n
    → 0 < size
    → size < 2 ^ 28 - fs_sector_size
    → fs.mounted ≡ true
    → Uploaded spi laws tmp starts name
        (loaded spi laws tmp starts name fs).sec_buf
        size
        polls
        (fs_upload spi tmp starts name fs size polls)
fs_upload_lem spi laws tmp starts name fs size n polls v pos small m =
    let first = v.chars 0 v.not_empty in
    let guard : ((name 0 == 0) || (size == 0)) ≡ false = ground arith in
    let fs' = loaded spi laws tmp starts name fs in
    let t = (read_table spi tmp fs).sec_buf in
    let m' : fs'.mounted ≡ true =
      make_way-mounted spi laws tmp starts name (read_table spi tmp fs) (find_file t name)
      ∙ read_table-mounted spi laws tmp fs
      ∙ m in
    rw (fs_upload_goes spi laws tmp starts name fs size polls true false m guard) (
      slot-Uploaded spi laws tmp starts name fs' size n polls v pos small m'
        (find_free_slot fs'.sec_buf) (find_free_slot-First fs'.sec_buf)
        (none_in_front spi laws tmp starts name (read_table spi tmp fs) n (find_file t name)
          (find_free_slot fs'.sec_buf) v (find_file-First t name)
          (find_free_slot-First fs'.sec_buf)))
