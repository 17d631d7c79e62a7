-- ===== src/Fs/Update/Tail.antt =====
-- What `fs_append` writes behind the data of a file.
use osito_k.Base.{
  ℕ, zero, suc, ◌+◌, ◌-◌, ◌/◌, ◌%◌, ◌<◌, ◌≤◌, ◌≡◌, inl, inr, refl, ap, ◌∙◌, true, ◌&&◌, ltb, leb,
  Array, if◌then◌else◌, Bool-cases, arith, ◌==◌,
}
use native.Mathlib.Decide.{dec_lt}
use osito_k.Fs.Flash.{
  Spi, IsSpi, fs_sector_size, round4, blit, flash_read, flash_write, flash_erase_sector,
}
use osito_k.Fs.Transfer.{flash_read_lem}
use osito_k.Fs.Calls.{Fs, data_sector, chunk_of}
use osito_k.Fs.Calls.Data.{Outside, sector_holds, sector_others, chunk_fits}
use osito_k.Fs.Update.{append_sectors, append_partial}

module _ (spi : Spi) (laws : IsSpi spi) (tmp : Array ℕ) where
  append_sectors_none :
      (f : ℕ) (chip : Array ℕ) (start wp : ℕ) (src : Array ℕ) (at off : ℕ)
      → append_sectors spi tmp f chip start wp src at off 0 ≡ chip
  unfolding append_sectors
  append_sectors_none zero chip start wp src at off = refl
  append_sectors_none (suc f) chip start wp src at off = refl

  -- The rounds left are enough, a round writes at least a byte.
  module _ (chip : Array ℕ) (start wp : ℕ) (src : Array ℕ) (at off remaining : ℕ)
      (al : wp % fs_sector_size ≡ 0) where
    abbrev addr : ℕ
    addr = data_sector (start + wp / fs_sector_size)

    abbrev next : Array ℕ
    next =
        flash_write spi tmp (flash_erase_sector spi chip addr) addr (λ i. src (off + i)) (at + off)
          (round4 (chunk_of remaining))

    pub addr_is : addr ≡ data_sector start + wp
    addr_is = omega arith

    pub next_holds :
        (i : ℕ) → i < chunk_of remaining → next (data_sector start + wp + i) ≡ src (off + i)
    next_holds i h =
        let (c4, cs, cr, _) = chunk_fits spi laws tmp remaining in
        let q : addr + i ≡ data_sector start + wp + i = omega arith in
        rw q at (
          sector_holds spi laws tmp chip addr (λ i. src (off + i)) (at + off)
            (round4 (chunk_of remaining)) (omega arith) c4 cs i (omega arith))

    pub next_others :
        (a : ℕ)
        → Outside (data_sector start + wp) (data_sector start + wp + fs_sector_size) a
        → next a ≡ chip a
    next_others a h =
        let (c4, cs, _, _) = chunk_fits spi laws tmp remaining in
        sector_others spi laws tmp chip addr (λ i. src (off + i)) (at + off)
          (round4 (chunk_of remaining)) (omega arith) c4 cs a (omega arith)

  append_sectors_lem :
      (f : ℕ) (chip : Array ℕ) (start wp : ℕ) (src : Array ℕ) (at off remaining end : ℕ)
      → remaining ≤ f
      → wp % fs_sector_size ≡ 0
      → end % fs_sector_size ≡ 0
      → wp + remaining ≤ end
      → let chip' = append_sectors spi tmp f chip start wp src at off remaining in
        ((i : ℕ) → i < remaining → chip' (data_sector start + wp + i) ≡ src (off + i))
        × ((a : ℕ)
            → Outside (data_sector start + wp) (data_sector start + end) a
            → chip' a ≡ chip a)
  unfolding append_sectors
  append_sectors_lem zero chip start wp src at off remaining end enough al al_end le =
      (λ i h. absurd (omega arith), λ a h. refl)
  append_sectors_lem (suc f) chip start wp src at off remaining end enough al al_end le =
      let step = next chip start wp src at off remaining al in
      let holds = next_holds chip start wp src at off remaining al in
      let others = next_others chip start wp src at off remaining al in
      elim (Bool-cases (remaining == 0)) [
        | inl z ↦ rw z (λ i h. absurd (ground arith), λ a h. refl)
        | inr nz ↦ elim (dec_lt fs_sector_size remaining) [
          | yes long ↦
              let full : chunk_of remaining ≡ fs_sector_size = ground arith in
              let (h', o') =
                append_sectors_lem f step start (wp + chunk_of remaining) src at
                  (off + chunk_of remaining) (remaining - chunk_of remaining) end (omega arith)
                  (omega arith) al_end (omega arith) in
              rw nz (
                λ i h. elim (dec_lt i fs_sector_size) [
                  | yes lt ↦
                      o' (data_sector start + wp + i) (inl (omega arith)) ∙ holds i (omega arith)
                  | no nlt ↦
                      let q : data_sector start + (wp + chunk_of remaining) + (i - fs_sector_size)
                          ≡ data_sector start + wp + i =
                        omega arith in
                      let r : off + chunk_of remaining + (i - fs_sector_size) ≡ off + i =
                        omega arith in
                      rw q at (h' (i - fs_sector_size) (omega arith)) ∙ ap src r
                ],
                λ a h. o' a (omega arith) ∙ others a (omega arith),
              )
          | no short ↦
              let all : chunk_of remaining ≡ remaining = ground arith in
              let pos : 0 < remaining = ground arith in
              let rest : remaining - chunk_of remaining ≡ 0 = omega arith in
              let done =
                append_sectors_none f step start (wp + chunk_of remaining) src at
                  (off + chunk_of remaining) in
              rw (nz, rest, done) (λ i h. holds i (omega arith), λ a h. others a (omega arith))
        ]
      ]

  -- The sector that is partly filled.
  module _ (fs : Fs) (start wp : ℕ) (src : Array ℕ) (chunk : ℕ)
      (fits : wp % fs_sector_size + chunk ≤ fs_sector_size) where
    abbrev sector : ℕ
    sector = data_sector (start + wp / fs_sector_size)

    abbrev buf : Array ℕ
    buf =
        blit (flash_read spi fs.flash sector fs.sec_buf 0 fs_sector_size) (wp % fs_sector_size) src
          chunk

    partial_sector :
        (i : ℕ)
        → i < fs_sector_size
        → (append_partial spi tmp fs start wp src chunk).flash (sector + i) ≡ (
            if leb (wp % fs_sector_size) i && ltb i (wp % fs_sector_size + chunk)
            then src (i - wp % fs_sector_size)
            else fs.flash (sector + i))
    unfolding append_partial
    partial_sector i h =
        let r =
          flash_read_lem spi laws fs.flash sector fs.sec_buf 0 fs_sector_size i (omega arith) in
        let l : ltb i fs_sector_size ≡ true = ground arith in
        sector_holds spi laws tmp fs.flash sector buf 0 fs_sector_size (omega arith) refl
          (omega arith) i h
        ∙ rw (r, l) refl

    pub partial_new :
        (i : ℕ)
        → i < chunk
        → (append_partial spi tmp fs start wp src chunk).flash (data_sector start + wp + i) ≡ src i
    partial_new i h =
        let q : sector + (wp % fs_sector_size + i) ≡ data_sector start + wp + i = omega arith in
        let r : wp % fs_sector_size + i - wp % fs_sector_size ≡ i = omega arith in
        rw q at (partial_sector (wp % fs_sector_size + i) (omega arith)) ∙ rw r (ground arith)

    partial-Outside :
        (a : ℕ)
        → Outside sector (sector + fs_sector_size) a
        → (append_partial spi tmp fs start wp src chunk).flash a ≡ fs.flash a
    unfolding append_partial
    partial-Outside a h =
        sector_others spi laws tmp fs.flash sector buf 0 fs_sector_size (omega arith) refl
          (omega arith) a h

    pub partial_others :
        (a : ℕ)
        → Outside (data_sector start + wp) (data_sector start + wp + chunk) a
        → (append_partial spi tmp fs start wp src chunk).flash a ≡ fs.flash a
    partial_others a h = elim (dec_lt a sector) [
      | yes lt ↦ partial-Outside a (inl lt)
      | no nlt ↦ elim (dec_lt a (sector + fs_sector_size)) [
        | no nlt' ↦ partial-Outside a (inr (omega arith))
        | yes lt' ↦
            let q : sector + (a - sector) ≡ a = omega arith in
            let e = rw q at (partial_sector (a - sector) (omega arith)) in
            e ∙ kept_byte (wp % fs_sector_size) (a - sector) (omega arith)
      ]
    ]
      where
        kept_byte :
            (lo i : ℕ)
            → Outside lo (lo + chunk) i
            → (if leb lo i && ltb i (lo + chunk) then src (i - lo) else fs.flash a) ≡ fs.flash a
        kept_byte lo i h = ground arith

  -- The data behind the first `first` bytes, which stand in `fs1` already.
  abbrev pub tail : Fs → ℕ → ℕ → Array ℕ → ℕ → ℕ → ℕ → Array ℕ
  tail fs1 start old src at size first =
      append_sectors spi tmp (size - first) fs1.flash start (old + first) src at first
        (size - first)

  pub tail_lem :
      (fs fs1 : Fs) (start old : ℕ) (src : Array ℕ) (at size first end : ℕ)
      → first ≤ size
      → (first < size → (old + first) % fs_sector_size ≡ 0)
      → end % fs_sector_size ≡ 0
      → old + size ≤ end
      → ((i : ℕ) → i < first → fs1.flash (data_sector start + old + i) ≡ src i)
      → ((a : ℕ)
          → Outside (data_sector start + old) (data_sector start + old + first) a
          → fs1.flash a ≡ fs.flash a)
      → let chip = tail fs1 start old src at size first in
        ((i : ℕ) → i < size → chip (data_sector start + old + i) ≡ src i)
        × ((a : ℕ)
            → Outside (data_sector start + old) (data_sector start + end) a
            → chip a ≡ fs.flash a)
  tail_lem fs fs1 start old src at size first end le al al_end fits new others =
      elim (dec_lt first size) [
        | no nlt ↦
            let z : size - first ≡ 0 = omega arith in
            let done = append_sectors_none 0 fs1.flash start (old + first) src at first in
            rw (z, done) (λ i h. new i (omega arith), λ a h. others a (omega arith))
        | yes lt ↦
            let (holds, rest) =
              append_sectors_lem (size - first) fs1.flash start (old + first) src at first
                (size - first) end (omega arith) (al lt) al_end (omega arith) in
            (
              λ i h. elim (dec_lt i first) [
                | yes before ↦ rest (data_sector start + old + i) (inl (omega arith)) ∙ new i before
                | no behind ↦
                    let q : data_sector start + (old + first) + (i - first)
                        ≡ data_sector start + old + i =
                      omega arith in
                    let r : first + (i - first) ≡ i = omega arith in
                    rw q at (holds (i - first) (omega arith)) ∙ ap src r
              ],
              λ a h. rest a (omega arith) ∙ others a (omega arith),
            )
      ]
