-- ===== src/Fs/Update/Sectors.antt =====
-- What the loops of `fs_overwrite` erase and write.
use osito_k.Base.{
  ℕ, zero, suc, ◌+◌, ◌-◌, ◌*◌, ◌%◌, ◌<◌, ◌≤◌, ◌≡◌, inl, refl, sym, ap, ◌∙◌, ◌&&◌, ltb, leb, Array,
  if◌then◌else◌, arith,
}
use native.Mathlib.Decide.{dec_lt}
use osito_k.Fs.Flash.{Spi, IsSpi, fs_sector_size, round4, flash_write}
use osito_k.Fs.Transfer.{flash_write_lem}
use osito_k.Fs.Calls.{data_sector, chunk_of}
use osito_k.Fs.Calls.Data.{Outside, erased_lem, chunk_fits}
use osito_k.Fs.Update.{erase_sectors, rewrite_sectors}

module _ (spi : Spi) (laws : IsSpi spi) (tmp : Array ℕ) where
  -- The sectors from number `s` on are erased, and no others.
  pub erase_sectors_lem :
      (k : ℕ) (chip : Array ℕ) (start s a : ℕ)
      → erase_sectors spi tmp k chip start s a ≡ (
          if leb (data_sector (start + s)) a && ltb a (data_sector (start + s + k))
          then 0xff
          else chip a)
  unfolding erase_sectors
  erase_sectors_lem zero chip start s a = ground arith
  erase_sectors_lem (suc k) chip start s a =
      erase_sectors_lem k _ start (s + 1) a
      ∙ (let e = erased_lem spi laws tmp chip (data_sector (start + s)) a (omega arith) in
          ground arith)

  abbrev rewritten : ℕ → Array ℕ → ℕ → ℕ → Array ℕ → ℕ → ℕ → ℕ → Array ℕ
  rewritten k chip start s src at off remaining =
      rewrite_sectors spi tmp k chip start s src at off remaining

  -- One sector that is blank, written.
  module _ (chip : Array ℕ) (addr : ℕ) (src : Array ℕ) (at len : ℕ) (al4 : len % 4 ≡ 0)
      (small : len ≤ fs_sector_size)
      (blank : (j : ℕ) → j < fs_sector_size → chip (addr + j) ≡ 0xff) where
    abbrev one : Array ℕ
    one = flash_write spi tmp chip addr src at len

    one_holds : (i : ℕ) → i < len → one (addr + i) ≡ src i
    one_holds i h =
        let q : addr + i - addr ≡ i = omega arith in
        flash_write_lem spi laws tmp chip addr src at len (addr + i) al4
          (λ j h. blank j (omega arith))
        ∙ rw q (ground arith)

    one_others : (a : ℕ) → Outside addr (addr + fs_sector_size) a → one a ≡ chip a
    one_others a h =
        flash_write_lem spi laws tmp chip addr src at len a al4 (λ j h. blank j (omega arith))
        ∙ ground arith

  pub rewrite_sectors_elsewhere :
      (k : ℕ) (chip : Array ℕ) (start s : ℕ) (src : Array ℕ) (at off remaining a : ℕ)
      → ((j : ℕ) → j < k * fs_sector_size → chip (data_sector (start + s) + j) ≡ 0xff)
      → Outside (data_sector (start + s)) (data_sector (start + s + k)) a
      → rewritten k chip start s src at off remaining a ≡ chip a
  unfolding rewrite_sectors
  rewrite_sectors_elsewhere zero chip start s src at off remaining a blank h = refl
  rewrite_sectors_elsewhere (suc k) chip start s src at off remaining a blank h =
      let (c4, cs, _, _) = chunk_fits spi laws tmp remaining in
      let others =
        one_others chip (data_sector (start + s)) (λ i. src (off + i)) (at + off)
          (round4 (chunk_of remaining)) c4 cs (λ j lt. blank j (omega arith)) in
      rewrite_sectors_elsewhere k _ start (s + 1) src at (off + chunk_of remaining)
        (remaining - chunk_of remaining) a
        (λ j lt.
          let q : data_sector (start + s) + (fs_sector_size + j)
              ≡ data_sector (start + (s + 1)) + j =
            omega arith in
          others (data_sector (start + (s + 1)) + j) (omega arith)
          ∙ rw q at (blank (fs_sector_size + j) (omega arith)))
        (omega arith)
      ∙ others a (omega arith)

  pub rewrite_sectors_holds :
      (k : ℕ) (chip : Array ℕ) (start s : ℕ) (src : Array ℕ) (at off remaining i : ℕ)
      → ((j : ℕ) → j < k * fs_sector_size → chip (data_sector (start + s) + j) ≡ 0xff)
      → remaining ≤ k * fs_sector_size
      → i < remaining
      → rewritten k chip start s src at off remaining (data_sector (start + s) + i) ≡ src (off + i)
  unfolding rewrite_sectors
  rewrite_sectors_holds zero chip start s src at off remaining i blank fits h = absurd (omega arith)
  rewrite_sectors_holds (suc k) chip start s src at off remaining i blank fits h =
      let (c4, cs, cr, cl) = chunk_fits spi laws tmp remaining in
      let next =
        one chip (data_sector (start + s)) (λ i. src (off + i)) (at + off)
          (round4 (chunk_of remaining)) c4 cs (λ j lt. blank j (omega arith)) in
      let others =
        one_others chip (data_sector (start + s)) (λ i. src (off + i)) (at + off)
          (round4 (chunk_of remaining)) c4 cs (λ j lt. blank j (omega arith)) in
      let blank' : (j : ℕ)
          → j < k * fs_sector_size
          → next (data_sector (start + (s + 1)) + j) ≡ 0xff =
        λ j lt.
          let q : data_sector (start + s) + (fs_sector_size + j)
              ≡ data_sector (start + (s + 1)) + j =
            omega arith in
          others (data_sector (start + (s + 1)) + j) (omega arith)
          ∙ rw q at (blank (fs_sector_size + j) (omega arith)) in
      elim (dec_lt i (chunk_of remaining)) [
        | yes lt ↦
            rewrite_sectors_elsewhere k next start (s + 1) src at (off + chunk_of remaining)
              (remaining - chunk_of remaining) (data_sector (start + s) + i) blank'
              (inl (omega arith))
            ∙ one_holds chip (data_sector (start + s)) (λ i. src (off + i)) (at + off)
                (round4 (chunk_of remaining)) c4 cs (λ j lt. blank j (omega arith)) i (omega arith)
        | no nlt ↦
            let full : chunk_of remaining ≡ fs_sector_size = ground arith in
            let q : data_sector (start + (s + 1)) + (i - fs_sector_size)
                ≡ data_sector (start + s) + i =
              omega arith in
            let r : off + chunk_of remaining + (i - fs_sector_size) ≡ off + i = omega arith in
            ap
              (rewritten k next start (s + 1) src at (off + chunk_of remaining)
                (remaining - chunk_of remaining))
              (sym q)
            ∙ rewrite_sectors_holds k next start (s + 1) src at (off + chunk_of remaining)
                (remaining - chunk_of remaining) (i - fs_sector_size) blank' (omega arith)
                (omega arith)
            ∙ ap src r
      ]
