-- ===== src/Mem/Heap/Rounds.antt =====
-- The rounds of `heap_alloc` against first fit on the list of blocks.
use osito_k.Base.{
  ℕ, zero, suc, ◌+◌, ◌-◌, ◌%◌, ◌≤◌, ◌<◌, ◌≡◌, ◌⊎◌, inl, inr, refl, ◌∙◌, true, false, Option, none,
  some, List, [], ◌∷◌, ◌++◌, Array, Bool-cases, arith, ltb, leb,
}
use osito_k.Mem.Heap.{u32, rounds, blk_size, blk_used, next_blk, coalesce, place, scan}
use osito_k.Mem.Heap.Blocks.{
  Block, free, size_of, Tiles, Tiles-total, Tiles-above, header_reads, InUsed,
}
use osito_k.Mem.Heap.Coalesce.{absorb, absorb-NoFree, next_blk_lem, Merged, InUsed-absorb}
use osito_k.Mem.Heap.FirstFit.{
  first_fit, place_blocks, first_fit_hit, first_fit_miss, first_fit_free,
}

-- What an allocation leaves alone: what lies outside the blocks, and the used ones.
abbrev pub Spared : ℕ → List Block → ℕ → ℕ → Type 0
Spared h bs stop a = (a < h) ⊎ (stop ≤ a) ⊎ InUsed h bs a

-- Memory and pointer agree with the blocks and pointer of the list.
abbrev pub Fits : ℕ → ℕ → List Block → Array ℕ → Array ℕ × Option ℕ → List Block × Option ℕ → Type 0
Fits h stop bs mem (mem', r) (cs, q) =
    Tiles mem' h cs stop × (r ≡ q) × ((a : ℕ) → Spared h bs stop a → mem' a ≡ mem a)

InUsed-le : (h : ℕ) (bs : List Block) (a : ℕ) → InUsed h bs a → h ≤ a
InUsed-le h [] a i = absurd i
InUsed-le h (b ∷ bs) a (inl (u, lo, hi)) = lo
InUsed-le h (b ∷ bs) a (inr i) = omega (arith, InUsed-le (h + size_of b) bs a i)

-- The branches of a round.
pub scan_stop :
    (n need : ℕ) (mem : Array ℕ) (stop h : ℕ)
    → ltb h stop ≡ false
    → scan n need mem stop h ≡ (mem, none)
unfolding scan
scan_stop zero need mem stop h e = refl
scan_stop (suc n) need mem stop h e = rw e refl

pub scan_used :
    (n need : ℕ) (mem : Array ℕ) (stop h : ℕ)
    → ltb h stop ≡ true
    → blk_used mem h ≡ true
    → scan (suc n) need mem stop h ≡ scan n need mem stop (next_blk mem h)
unfolding scan
scan_used n need mem stop h e u = rw (e, u) refl

scan_hit :
    (n need : ℕ) (mem : Array ℕ) (stop h t : ℕ)
    → ltb h stop ≡ true
    → blk_used mem h ≡ false
    → blk_size (coalesce rounds mem stop h) h ≡ t
    → leb need t ≡ true
    → scan (suc n) need mem stop h
      ≡ (place (coalesce rounds mem stop h) h need t, some ((h + 4) % u32))
unfolding scan
scan_hit n need mem stop h t e u s l = rw (e, u, s, l) refl

scan_miss :
    (n need : ℕ) (mem : Array ℕ) (stop h t : ℕ)
    → ltb h stop ≡ true
    → blk_used mem h ≡ false
    → blk_size (coalesce rounds mem stop h) h ≡ t
    → leb need t ≡ false
    → scan (suc n) need mem stop h
      ≡ scan n need (coalesce rounds mem stop h) stop (next_blk (coalesce rounds mem stop h) h)
unfolding scan
scan_miss n need mem stop h t e u s l = rw (e, u, s, l) refl

place-Tiles :
    (mem : Array ℕ) (h need t : ℕ) (bs : List Block) (stop : ℕ)
    → Tiles mem h (free t ∷ bs) stop
    → stop < u32
    → 8 ≤ need
    → need % 4 ≡ 0
    → need ≤ t
    → Tiles (place mem h need t) h (place_blocks need t ++ bs) stop
      × ((a : ℕ) → (a < h) ⊎ (h + t ≤ a) → place mem h need t a ≡ mem a)
unfolding place
place-Tiles mem h need t bs stop tl fits least al le =
    let (e, l) = Tiles-total mem h (free t ∷ bs) stop tl in
    let at_t = tl.0.aligned in
    let least_t = tl.0.least in
    let no_wrap : (h + need) % u32 ≡ h + need = omega (arith, e) in
    elim (Bool-cases (leb 8 (t - need))) [
      | inl y ↦
          let q : h + need + (t - need) ≡ h + t = omega arith in
          rw (y, no_wrap)
            (
              (
                record { header = ground arith; aligned = al; least = least },
                (
                  record { header = ground arith; aligned = omega arith; least = ground arith },
                  rw q (Tiles-above mem _ (h + t) bs stop (λ a k. ground arith) tl.1),
                ),
              ),
              λ a k. ground arith,
            )
      | inr n ↦ rw n (
        (
          record { header = ground arith; aligned = at_t; least = least_t },
          Tiles-above mem _ (h + t) bs stop (λ a k. ground arith) tl.1,
        ),
        λ a k. ground arith,
      )
    ]

module _ (need stop : ℕ) (fits : stop < u32) (least : 8 ≤ need) (aligned : need % 4 ≡ 0) where
  -- At a free block, merged with those behind it.
  module _ (n : ℕ) (mem : Array ℕ) (h m : ℕ) (bs : List Block) (tl : Tiles mem h (free m ∷ bs) stop)
      (v : Merged mem (coalesce rounds mem stop h) h stop m bs) where
    in_heap : ltb h stop ≡ true
    in_heap = let (e, _) = Tiles-total mem h (free m ∷ bs) stop tl in ground (arith, e, tl.0.least)

    not_used : blk_used mem h ≡ false
    not_used = (header_reads (free m) tl.0).1

    merged_size : blk_size (coalesce rounds mem stop h) h ≡ (absorb m bs).0
    merged_size = (header_reads (free (absorb m bs).0) v.tiles.0).0

    merged_least : 8 ≤ (absorb m bs).0
    merged_least = v.tiles.0.least

    -- What is spared keeps clear of the merged block.
    clear :
        (a : ℕ)
        → Spared h (free m ∷ bs) stop a
        → ((a < h) ⊎ (h + (absorb m bs).0 ≤ a))
          × Spared (h + (absorb m bs).0) (absorb m bs).1 stop a
          × ((coalesce rounds mem stop h) a ≡ mem a)
    clear a (inl lt) = (inl lt, inl (omega arith), v.others a (omega arith))
    clear a (inr (inl ge)) =
        let (e, _) =
          Tiles-total (coalesce rounds mem stop h) h (free (absorb m bs).0 ∷ (absorb m bs).1) stop
            v.tiles in
        (inr (omega (arith, e)), inr (inl ge), v.others a (omega (arith, e, merged_least)))
    clear a (inr (inr (inl (u, _, _)))) = cc u
    clear a (inr (inr (inr i))) =
        let j = InUsed-absorb h m bs a i in
        let le = InUsed-le (h + (absorb m bs).0) (absorb m bs).1 a j in
        (inr le, inr (inr j), v.others a (omega (arith, le, merged_least)))

    -- It is long enough.
    pub hit-Fits :
        leb need (absorb m bs).0 ≡ true
        → Fits h stop
            (free m ∷ bs)
            mem
            (scan (suc n) need mem stop h)
            (first_fit need h 0 (free m ∷ bs))
    hit-Fits l =
        let t = (absorb m bs).0 in
        let rest = (absorb m bs).1 in
        let (e, _) = Tiles-total (coalesce rounds mem stop h) h (free t ∷ rest) stop v.tiles in
        let (tiles, same) =
          place-Tiles (coalesce rounds mem stop h) h need t rest stop v.tiles fits least aligned
            (ground arith) in
        let q : (h + 4) % u32 ≡ h + 4 = omega (arith, e, merged_least) in
        rw
          (
            scan_hit n need mem stop h t in_heap not_used merged_size l,
            first_fit_free need h m bs,
            first_fit_hit need h t rest (absorb-NoFree m bs) l,
            q,
          )
          (tiles, refl, λ a sp. let (c, _, f) = clear a sp in same a c ∙ f)

    -- It is not, and the search goes on behind it.
    pub miss-Fits :
        leb need (absorb m bs).0 ≡ false
        → Fits
            (h + (absorb m bs).0)
            stop
            (absorb m bs).1
            (coalesce rounds mem stop h)
            (scan n need (coalesce rounds mem stop h) stop (h + (absorb m bs).0))
            (first_fit need (h + (absorb m bs).0) 0 (absorb m bs).1)
        → Fits h stop
            (free m ∷ bs)
            mem
            (scan (suc n) need mem stop h)
            (first_fit need h 0 (free m ∷ bs))
    miss-Fits l (tiles, r, same) =
        let t = (absorb m bs).0 in
        let rest = (absorb m bs).1 in
        let (e, _) = Tiles-total (coalesce rounds mem stop h) h (free t ∷ rest) stop v.tiles in
        let nx = next_blk_lem (free t) v.tiles.0 (omega (arith, e)) fits in
        let head = same h (inl (omega (arith, merged_least))) in
        rw
          (
            scan_miss n need mem stop h t in_heap not_used merged_size l,
            nx,
            first_fit_free need h m bs,
            first_fit_miss need h t rest (absorb-NoFree m bs) l (omega arith) (omega arith),
          )
          (
            (
              record {
                header = head ∙ v.tiles.0.header;
                aligned = v.tiles.0.aligned;
                least = merged_least;
              },
              tiles,
            ),
            r,
            λ a sp. let (_, c, f) = clear a sp in same a c ∙ f,
          )
