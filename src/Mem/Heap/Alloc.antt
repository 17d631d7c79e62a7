-- ===== src/Mem/Heap/Alloc.antt =====
-- `heap_alloc` is first fit on the list of blocks.
use osito_k.Base.{
  ℕ, zero, suc, ◌+◌, ◌-◌, ◌%◌, ◌≤◌, ◌<◌, ◌≡◌, inl, inr, refl, ◌∙◌, true, false, Option, none, some,
  List, [], ◌∷◌, Array, length, Bool-cases, arith, ltb, leb, ◌==◌,
}
use osito_k.Mem.Heap.{Heap, u32, rounds, coalesce, scan, need_of, heap_alloc}
use osito_k.Mem.Heap.Blocks.{Block, free, used, Tiles, Tiles-total, header_reads, InUsed, IsHeap}
use osito_k.Mem.Heap.Coalesce.{absorb, length-absorb, next_blk_lem, coalesce-Merged}
use osito_k.Mem.Heap.FirstFit.{first_fit, first_fit_used}
use osito_k.Mem.Heap.Granted.{Granted, Grants, used_blocks, longest_run, first_fit-Granted}
use osito_k.Mem.Heap.Rounds.{Spared, Fits, scan_stop, scan_used, hit-Fits, miss-Fits}

module _ (need stop : ℕ) (fits : stop < u32) (least : 8 ≤ need) (aligned : need % 4 ≡ 0) where
  used-Fits :
      (n : ℕ) (mem : Array ℕ) (h m : ℕ) (bs : List Block)
      → Tiles mem h (used m ∷ bs) stop
      → Fits (h + m) stop bs mem (scan n need mem stop (h + m)) (first_fit need (h + m) 0 bs)
      → Fits h stop
          (used m ∷ bs)
          mem
          (scan (suc n) need mem stop h)
          (first_fit need h 0 (used m ∷ bs))
  used-Fits n mem h m bs tl (tiles, r, same) =
      let (e, _) = Tiles-total mem h (used m ∷ bs) stop tl in
      let (_, u) = header_reads (used m) tl.0 in
      let nx = next_blk_lem (used m) tl.0 (omega (arith, e)) fits in
      let in_heap : ltb h stop ≡ true = ground (arith, e, tl.0.least) in
      let least_m = tl.0.least in
      rw (scan_used n need mem stop h in_heap u, nx, first_fit_used need h m bs (omega arith))
        (
          (
            record {
              header = same h (inl (omega arith)) ∙ tl.0.header;
              aligned = tl.0.aligned;
              least = least_m;
            },
            tiles,
          ),
          r,
          λ a sp. same a (elim sp [
            | inl lt ↦ inl (omega arith)
            | inr (inl ge) ↦ inr (inl ge)
            | inr (inr (inl (_, lo, hi))) ↦ inl hi
            | inr (inr (inr i)) ↦ inr (inr i)
          ]),
        )

  scan-Fits :
      (n : ℕ) (mem : Array ℕ) (h : ℕ) (bs : List Block)
      → length bs ≤ n
      → n ≤ rounds
      → Tiles mem h bs stop
      → Fits h stop bs mem (scan n need mem stop h) (first_fit need h 0 bs)
  scan-Fits n mem h [] le lr tl =
      let out : ltb h stop ≡ false = ground arith in
      let short : leb need 0 ≡ false = ground arith in
      rw (scan_stop n need mem stop h out) (unfold first_fit in rw short (tl, refl, λ a sp. refl))
  scan-Fits zero mem h (b ∷ bs) le lr tl = absurd (omega arith)
  scan-Fits (suc n) mem h (used m ∷ bs) le lr tl =
      used-Fits n mem h m bs tl (scan-Fits n mem (h + m) bs (omega arith) (omega arith) tl.1)
  scan-Fits (suc n) mem h (free m ∷ bs) le lr tl =
      let v = coalesce-Merged rounds mem h stop m bs (omega arith) tl fits in
      let rest =
        scan-Fits n (coalesce rounds mem stop h) (h + (absorb m bs).0) (absorb m bs).1
          (omega (arith, length-absorb m bs)) (omega arith) v.tiles.1 in
      elim (Bool-cases (leb need (absorb m bs).0)) [
        | inl y ↦ hit-Fits need stop fits least aligned n mem h m bs tl v y
        | inr x ↦ miss-Fits need stop fits least aligned n mem h m bs tl v x rest
      ]

-- What a request of `size` bytes needs.
need_of_lem :
    (size : ℕ)
    → size < u32
    → (8 ≤ need_of size)
      × (need_of size % 4 ≡ 0)
      × (size ≤ u32 - 8 → (size + 4 ≤ need_of size) × (need_of size < size + 12))
unfolding need_of
need_of_lem size h = (ground arith, ground arith, λ k. (ground arith, ground arith))

pub length-le : {p : Heap} {bs : List Block} → IsHeap p bs → length bs ≤ rounds
length-le {p} {bs} v =
    let (e, l) = Tiles-total p.mem p.heap_start bs p.heap_end v.tiles in
    omega (arith, e, l, v.extent)

-- `heap_alloc` of 1 to 2 ^ 32 - 1 bytes, on a heap in order, does to the list of blocks what first fit
-- does, and returns the same pointer; the heap is in order again, and neither a used block nor memory
-- outside the heap changed.
pub heap_alloc-first_fit :
    {p : Heap} {bs : List Block} (size : ℕ)
    → IsHeap p bs
    → 0 < size
    → size < u32
    → let (p', r) = heap_alloc p size in
      let (cs, q) = first_fit (need_of size) p.heap_start 0 bs in
      IsHeap p' cs × (r ≡ q) × ((a : ℕ) → Spared p.heap_start bs p.heap_end a → p'.mem a ≡ p.mem a)
unfolding heap_alloc
heap_alloc-first_fit {p} {bs} size v pos h =
    let (least, aligned, _) = need_of_lem size h in
    let (tiles, r, same) =
      scan-Fits (need_of size) p.heap_end v.fits least aligned rounds p.mem p.heap_start bs
        (length-le v) (omega arith) v.tiles in
    let z : (size == 0) ≡ false = ground arith in
    rw z
      (record { tiles = tiles; fits = v.fits; not_null = v.not_null; extent = v.extent }, r, same)

-- What `heap_alloc` did to the used blocks. If it returned `NULL`, no run of free bytes is long
-- enough, and they are the same; if a pointer, one is, and the block before it came to them.
abbrev pub Served : ℕ → ℕ → List Block → List Block → Option ℕ → Type 0
Served need h bs cs none = (longest_run 0 bs < need) × (used_blocks h cs ≡ used_blocks h bs)
Served need h bs cs (some p) =
    (need ≤ longest_run 0 bs)
    × ((b : ℕ) × (p ≡ b + 4) × Grants need (used_blocks h bs) (used_blocks h cs) b)

Granted-Served :
    (need h : ℕ) (bs cs : List Block) (r : Option ℕ)
    → Granted need h 0 bs cs r
    → Served need h bs cs r
Granted-Served need h bs cs none g = let q : h + 0 ≡ h = omega arith in rw q at g
Granted-Served need h bs cs (some p) g = let q : h + 0 ≡ h = omega arith in rw q at g

-- `heap_alloc` of 1 to 2 ^ 32 - 8 bytes, on a heap in order, fails exactly if no run of adjacent free
-- blocks has the bytes needed, which are those requested, the header, and less than 8 more. If it
-- fails, the used blocks are the same; if not, one came to them, at the header before the pointer, of
-- at least the bytes needed and less than 8 more. The heap is in order again, and no used block changed.
pub heap_alloc-Served :
    {p : Heap} {bs : List Block} (size : ℕ)
    → IsHeap p bs
    → 0 < size
    → size ≤ u32 - 8
    → let (p', r) = heap_alloc p size in
      ((cs : List Block) × IsHeap p' cs × Served (need_of size) p.heap_start bs cs r)
      × ((a : ℕ) → InUsed p.heap_start bs a → p'.mem a ≡ p.mem a)
      × (size + 4 ≤ need_of size)
      × (need_of size < size + 12)
heap_alloc-Served {p} {bs} size v pos h =
    let (w, e, same) = heap_alloc-first_fit size v pos (omega arith) in
    let (least, aligned, bounds) = need_of_lem size (omega arith) in
    let g = first_fit-Granted (need_of size) p.heap_start 0 bs (omega arith) in
    (
      (
        (first_fit (need_of size) p.heap_start 0 bs).0,
        w,
        rw e (
            Granted-Served (need_of size) p.heap_start bs
              (first_fit (need_of size) p.heap_start 0 bs).0
              (first_fit (need_of size) p.heap_start 0 bs).1 g),
      ),
      λ a i. same a (inr (inr i)),
      (bounds h).0,
      (bounds h).1,
    )

-- A request of 2 ^ 32 - 7 bytes or more wraps round, and is served as one of 4 bytes.
pub heap_alloc_wraps :
    (p : Heap) (size : ℕ) → u32 - 7 ≤ size → size < u32 → heap_alloc p size ≡ heap_alloc p 4
unfolding heap_alloc
heap_alloc_wraps p size lo hi =
    let e : need_of size ≡ 8 = unfold need_of in ground arith in
    let f : need_of 4 ≡ 8 = unfold need_of in refl in
    let z : (size == 0) ≡ false = ground arith in rw (z, e, f) refl
