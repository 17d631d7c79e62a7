-- ===== src/Fs/Calls/Reading.antt =====
-- `fs_read` of a file whose entry and whose bytes are known.
use osito_k.Base.{
  ℕ, ◌+◌, ◌^◌, ◌<◌, ◌≡◌, refl, ap₂, ◌∙◌, true, not, Array, ltb, if◌then◌else◌, none, some, arith,
  min,
}
use osito_k.Fs.Flash.{Spi, IsSpi, round4}
use osito_k.Fs.Transfer.{flash_read_lem}
use osito_k.Fs.Table.{find_file, entry_size, start_sector}
use osito_k.Fs.Calls.{Fs, data_sector, read_table, read_found, fs_read}
use osito_k.Fs.Calls.Sectors.{read_table-flash}

-- The file that `name` finds is in entry `slot`, has `size` bytes from sector `start` on, and they are
-- those of `src`.
pub record IsFile (spi : Spi) (tmp : Array ℕ) (fs : Fs) (name src : Array ℕ) (size slot start : ℕ)
    : Type 0 where
  pub below : size < 2 ^ 28
  pub mounted : fs.mounted ≡ true
  pub found : find_file (read_table spi tmp fs).sec_buf name ≡ some slot
  pub has_size : entry_size (read_table spi tmp fs).sec_buf slot ≡ size
  pub starts : start_sector (read_table spi tmp fs).sec_buf slot ≡ start
  pub bytes : (i : ℕ) → i < size → fs.flash (data_sector start + i) ≡ src i

module _ (spi : Spi) (laws : IsSpi spi) (tmp : Array ℕ) {fs : Fs} {name src : Array ℕ}
    {size slot start : ℕ} (v : IsFile spi tmp fs name src size slot start) (buf : Array ℕ)
    (at max_size : ℕ) where
  goes_on :
      fs_read spi tmp fs name buf at max_size
      ≡ read_found spi tmp (read_table spi tmp fs) buf at max_size (some slot)
  unfolding fs_read
  goes_on =
      ap₂
        (λ b r.
          if not b
          then (fs, buf, none)
          else read_found spi tmp (read_table spi tmp fs) buf at max_size r)
        v.mounted v.found

  reads_found :
      let (_, buf', r) = read_found spi tmp (read_table spi tmp fs) buf at max_size (some slot) in
      (r ≡ some (min size max_size)) × ((i : ℕ) → i < min size max_size → buf' i ≡ src i)
  unfolding read_found
  reads_found =
      let q : (if ltb size max_size then size else max_size) ≡ min size max_size = ground arith in
      rw (v.has_size, v.starts, read_table-flash spi laws tmp fs, q)
        (
          refl,
          λ i h.
              let h' = v.below in
              flash_read_lem spi laws fs.flash (data_sector start) buf at
                (round4 (min size max_size)) i (omega arith)
              ∙ (let l : ltb i (round4 (min size max_size)) ≡ true = ground arith in
                  rw l (v.bytes i (omega arith))),
        )

  pub fs_read-IsFile :
      let (_, buf', r) = fs_read spi tmp fs name buf at max_size in
      (r ≡ some (min size max_size)) × ((i : ℕ) → i < min size max_size → buf' i ≡ src i)
  fs_read-IsFile = rw goes_on reads_found
