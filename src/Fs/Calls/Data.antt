-- ===== src/Fs/Calls/Data.antt =====
-- What the loop of `fs_create` writes.
use osito_k.Base.{
  ℕ, zero, suc, ◌+◌, ◌-◌, ◌*◌, ◌/◌, ◌%◌, ◌^◌, ◌≤◌, ◌<◌, ◌≡◌, ◌⊎◌, inl, refl, sym, ap, ◌∙◌, ◌&&◌,
  Array, ltb, leb, if◌then◌else◌, arith,
}
use native.Mathlib.Decide.{dec_lt}
use osito_k.Fs.Flash.{Spi, IsSpi, fs_sector_size, round4, flash_erase_sector, flash_write}
use osito_k.Fs.Transfer.{flash_write_lem}
use osito_k.Fs.Calls.{data_sector, chunk_of, write_sectors, sectors_for}

-- Address `a` lies outside the sectors `from … to - 1`.
abbrev pub Outside : ℕ → ℕ → ℕ → Type 0
Outside from to a = (a < from) ⊎ (to ≤ a)

module _ (spi : Spi) (laws : IsSpi spi) (tmp : Array ℕ) where
  -- A sector is erased, and no other.
  pub erased_lem :
      (chip : Array ℕ) (addr a : ℕ)
      → addr % fs_sector_size ≡ 0
      → flash_erase_sector spi chip addr a
        ≡ (if leb addr a && ltb a (addr + fs_sector_size) then 0xff else chip a)
  unfolding flash_erase_sector
  erased_lem chip addr a al = laws.erases chip (addr / fs_sector_size) a ∙ ground arith

  -- A sector that is erased and then written holds what is written, and no other sector changes.
  module _ (chip : Array ℕ) (addr : ℕ) (src : Array ℕ) (at len : ℕ) (al : addr % fs_sector_size ≡ 0)
      (al4 : len % 4 ≡ 0) (small : len ≤ fs_sector_size) where
    abbrev chip' : Array ℕ
    chip' = flash_write spi tmp (flash_erase_sector spi chip addr) addr src at len

    blank : (j : ℕ) → j < len → flash_erase_sector spi chip addr (addr + j) ≡ 0xff
    blank j h = erased_lem chip addr (addr + j) al ∙ ground arith

    pub sector_holds : (i : ℕ) → i < len → chip' (addr + i) ≡ src i
    sector_holds i h =
        let q : addr + i - addr ≡ i = omega arith in
        flash_write_lem spi laws tmp (flash_erase_sector spi chip addr) addr src at len (addr + i)
          al4 blank
        ∙ rw q (ground arith)

    pub sector_others : (a : ℕ) → Outside addr (addr + fs_sector_size) a → chip' a ≡ chip a
    sector_others a h =
        flash_write_lem spi laws tmp (flash_erase_sector spi chip addr) addr src at len a al4 blank
        ∙ (let e = erased_lem chip addr a al in ground arith)

  pub chunk_fits :
      (remaining : ℕ)
      → (round4 (chunk_of remaining) % 4 ≡ 0)
        × (round4 (chunk_of remaining) ≤ fs_sector_size)
        × (chunk_of remaining ≤ round4 (chunk_of remaining))
        × (chunk_of remaining ≤ remaining)
  chunk_fits remaining = (ground arith, ground arith, ground arith, ground arith)

  abbrev pub written : ℕ → Array ℕ → ℕ → ℕ → Array ℕ → ℕ → ℕ → ℕ → Array ℕ
  written k chip start s src at off remaining =
      write_sectors spi tmp k chip start s src at off remaining

  pub write_sectors_elsewhere :
      (k : ℕ) (chip : Array ℕ) (start s : ℕ) (src : Array ℕ) (at off remaining a : ℕ)
      → Outside (data_sector (start + s)) (data_sector (start + s + k)) a
      → written k chip start s src at off remaining a ≡ chip a
  unfolding write_sectors
  write_sectors_elsewhere zero chip start s src at off remaining a h = refl
  write_sectors_elsewhere (suc k) chip start s src at off remaining a h =
      let (c4, cs, _, _) = chunk_fits remaining in
      write_sectors_elsewhere k _ start (s + 1) src at (off + chunk_of remaining)
        (remaining - chunk_of remaining) a (omega arith)
      ∙ sector_others chip (data_sector (start + s)) (λ i. src (off + i)) (at + off)
          (round4 (chunk_of remaining)) (omega arith) c4 cs a (omega arith)

  -- The `remaining` bytes of the buffer from `off` on stand in the sectors, one behind the other.
  pub write_sectors_holds :
      (k : ℕ) (chip : Array ℕ) (start s : ℕ) (src : Array ℕ) (at off remaining i : ℕ)
      → remaining ≤ k * fs_sector_size
      → i < remaining
      → written k chip start s src at off remaining (data_sector (start + s) + i) ≡ src (off + i)
  unfolding write_sectors
  write_sectors_holds zero chip start s src at off remaining i fits h = absurd (omega arith)
  write_sectors_holds (suc k) chip start s src at off remaining i fits h =
      let (c4, cs, cr, cl) = chunk_fits remaining in
      elim (dec_lt i (chunk_of remaining)) [
        | yes lt ↦
            write_sectors_elsewhere k _ start (s + 1) src at (off + chunk_of remaining)
              (remaining - chunk_of remaining) (data_sector (start + s) + i) (inl (omega arith))
            ∙ sector_holds chip (data_sector (start + s)) (λ j. src (off + j)) (at + off)
                (round4 (chunk_of remaining)) (omega arith) c4 cs i (omega arith)
        | no nlt ↦
            let full : chunk_of remaining ≡ fs_sector_size = ground arith in
            let q : data_sector (start + (s + 1)) + (i - fs_sector_size)
                ≡ data_sector (start + s) + i =
              omega arith in
            let r : off + chunk_of remaining + (i - fs_sector_size) ≡ off + i = omega arith in
            ap
              (written k
                (chip' chip (data_sector (start + s)) (λ j. src (off + j)) (at + off)
                  (round4 (chunk_of remaining)) (omega arith) c4 cs)
                start (s + 1) src at (off + chunk_of remaining) (remaining - chunk_of remaining))
              (sym q)
            ∙ write_sectors_holds k _ start (s + 1) src at (off + chunk_of remaining)
                (remaining - chunk_of remaining) (i - fs_sector_size) (omega arith) (omega arith)
            ∙ ap src r
      ]

-- The sectors that a size needs, of at most 2 ^ 28 bytes less a sector, hold it.
pub sectors_for_lem :
    (size : ℕ)
    → 0 < size
    → size < 2 ^ 28 - fs_sector_size
    → (0 < sectors_for size)
      × (size ≤ sectors_for size * fs_sector_size)
      × (sectors_for size * fs_sector_size < size + fs_sector_size)
      × (sectors_for size < 2 ^ 16)
unfolding sectors_for
sectors_for_lem size pos small = (omega arith, omega arith, omega arith, omega arith)
