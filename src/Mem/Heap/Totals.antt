-- ===== src/Mem/Heap/Totals.antt =====
-- What the diagnostics count.
use osito_k.Base.{
  ℕ, zero, suc, ◌+◌, ◌-◌, ◌*◌, ◌%◌, ◌≤◌, ◌<◌, ◌≡◌, refl, ◌∙◌, true, false, max, List, [], ◌∷◌,
  Array, length, arith, ltb, if◌then◌else◌,
}
use osito_k.Mem.Heap.{
  Heap, u32, rounds, heap_size, free_walk, used_walk, largest_walk, count_walk, heap_free_total,
  heap_used_total, heap_largest_free, heap_frag_count, blk_size, blk_used, next_blk,
}
use osito_k.Mem.Heap.Blocks.{
  Block, free, used, size_of, is_used, Tiles, Tiles-total, header_reads, total, IsHeap,
}
use osito_k.Mem.Heap.Coalesce.{next_blk_lem}
use osito_k.Mem.Heap.Alloc.{length-le}

abbrev pub free_sum : List Block → ℕ
free_sum [] = 0
free_sum (free n ∷ bs) = n - 4 + free_sum bs
free_sum (used n ∷ bs) = free_sum bs

abbrev pub used_sum : List Block → ℕ
used_sum [] = 0
used_sum (free n ∷ bs) = used_sum bs
used_sum (used n ∷ bs) = n - 4 + used_sum bs

abbrev pub largest_of : List Block → ℕ
largest_of [] = 0
largest_of (free n ∷ bs) = max (n - 4) (largest_of bs)
largest_of (used n ∷ bs) = largest_of bs

abbrev pub count_of : List Block → ℕ
count_of [] = 0
count_of (free n ∷ bs) = suc (count_of bs)
count_of (used n ∷ bs) = count_of bs

sums_total :
    (mem : Array ℕ) (h : ℕ) (bs : List Block) (stop : ℕ)
    → Tiles mem h bs stop
    → free_sum bs + used_sum bs + 4 * length bs ≡ total bs
sums_total mem h [] stop t = refl
sums_total mem h (free n ∷ bs) stop t =
    let l = t.0.least in omega (arith, sums_total mem (h + n) bs stop t.1)
sums_total mem h (used n ∷ bs) stop t =
    let l = t.0.least in omega (arith, sums_total mem (h + n) bs stop t.1)

module _ (mem : Array ℕ) (stop : ℕ) (fits : stop < u32) where
  -- What a round of a walk sees.
  seen :
      (h : ℕ) (b : Block) (bs : List Block)
      → Tiles mem h (b ∷ bs) stop
      → (ltb h stop ≡ true)
        × (blk_size mem h ≡ size_of b)
        × (blk_used mem h ≡ is_used b)
        × (next_blk mem h ≡ h + size_of b)
        × (h + size_of b ≤ stop)
        × (8 ≤ size_of b)
  seen h b bs t =
      let (e, l) = Tiles-total mem h (b ∷ bs) stop t in
      let (s, u) = header_reads b t.0 in
      let ls = t.0.least in
      (ground arith, s, u, next_blk_lem b t.0 (omega arith) fits, omega arith, ls)

  free_walk_lem :
      (n h tot : ℕ) (bs : List Block)
      → length bs ≤ n
      → Tiles mem h bs stop
      → tot ≤ h
      → free_walk n mem stop h tot ≡ tot + free_sum bs
  unfolding free_walk
  free_walk_lem zero h tot [] le t lt = omega arith
  free_walk_lem (suc n) h tot [] le t lt =
      let z : ltb h stop ≡ false = ground arith in rw z (omega arith)
  free_walk_lem zero h tot (b ∷ bs) le t lt = absurd (omega arith)
  free_walk_lem (suc n) h tot (free m ∷ bs) le t lt =
      let (a, b, c, d, e, f) = seen h (free m) bs t in
      let q : (tot + (m + u32 - 4)) % u32 ≡ tot + (m - 4) = omega arith in
      rw (a, d, b, c, q)
        (free_walk_lem n (h + m) (tot + (m - 4)) bs (omega arith) t.1 (omega arith) ∙ omega arith)
  free_walk_lem (suc n) h tot (used m ∷ bs) le t lt =
      let (a, b, c, d, e, f) = seen h (used m) bs t in
      rw (a, c, d) (free_walk_lem n (h + m) tot bs (omega arith) t.1 (omega arith))

  used_walk_lem :
      (n h tot : ℕ) (bs : List Block)
      → length bs ≤ n
      → Tiles mem h bs stop
      → tot ≤ h
      → used_walk n mem stop h tot ≡ tot + used_sum bs
  unfolding used_walk
  used_walk_lem zero h tot [] le t lt = omega arith
  used_walk_lem (suc n) h tot [] le t lt =
      let z : ltb h stop ≡ false = ground arith in rw z (omega arith)
  used_walk_lem zero h tot (b ∷ bs) le t lt = absurd (omega arith)
  used_walk_lem (suc n) h tot (used m ∷ bs) le t lt =
      let (a, b, c, d, e, f) = seen h (used m) bs t in
      let q : (tot + (m + u32 - 4)) % u32 ≡ tot + (m - 4) = omega arith in
      rw (a, d, b, c, q)
        (used_walk_lem n (h + m) (tot + (m - 4)) bs (omega arith) t.1 (omega arith) ∙ omega arith)
  used_walk_lem (suc n) h tot (free m ∷ bs) le t lt =
      let (a, b, c, d, e, f) = seen h (free m) bs t in
      rw (a, c, d) (used_walk_lem n (h + m) tot bs (omega arith) t.1 (omega arith))

  count_walk_lem :
      (n h tot : ℕ) (bs : List Block)
      → length bs ≤ n
      → Tiles mem h bs stop
      → tot ≤ h
      → count_walk n mem stop h tot ≡ tot + count_of bs
  unfolding count_walk
  count_walk_lem zero h tot [] le t lt = omega arith
  count_walk_lem (suc n) h tot [] le t lt =
      let z : ltb h stop ≡ false = ground arith in rw z (omega arith)
  count_walk_lem zero h tot (b ∷ bs) le t lt = absurd (omega arith)
  count_walk_lem (suc n) h tot (free m ∷ bs) le t lt =
      let (a, b, c, d, e, f) = seen h (free m) bs t in
      let q : (tot + 1) % u32 ≡ tot + 1 = omega arith in
      rw (a, c, d, q)
        (count_walk_lem n (h + m) (tot + 1) bs (omega arith) t.1 (omega arith) ∙ omega arith)
  count_walk_lem (suc n) h tot (used m ∷ bs) le t lt =
      let (a, b, c, d, e, f) = seen h (used m) bs t in
      rw (a, c, d) (count_walk_lem n (h + m) tot bs (omega arith) t.1 (omega arith))

  largest_walk_lem :
      (n h top : ℕ) (bs : List Block)
      → length bs ≤ n
      → Tiles mem h bs stop
      → largest_walk n mem stop h top ≡ max top (largest_of bs)
  unfolding largest_walk
  largest_walk_lem zero h top [] le t = omega arith
  largest_walk_lem (suc n) h top [] le t =
      let z : ltb h stop ≡ false = ground arith in rw z (omega arith)
  largest_walk_lem zero h top (b ∷ bs) le t = absurd (omega arith)
  largest_walk_lem (suc n) h top (free m ∷ bs) le t =
      let (a, b, c, d, e, f) = seen h (free m) bs t in
      let q : (m + u32 - 4) % u32 ≡ m - 4 = omega arith in
      let y : (if ltb top (m - 4) then m - 4 else top) ≡ max top (m - 4) = ground arith in
      rw (a, d, b, c, q, y)
        (largest_walk_lem n (h + m) (max top (m - 4)) bs (omega arith) t.1 ∙ omega arith)
  largest_walk_lem (suc n) h top (used m ∷ bs) le t =
      let (a, b, c, d, e, f) = seen h (used m) bs t in
      rw (a, c, d) (largest_walk_lem n (h + m) top bs (omega arith) t.1)

-- On a heap in order the diagnostics are the bytes of the free blocks and of the used ones, headers
-- aside, the longest of the free blocks and their number; with the headers of all blocks the bytes
-- make up the heap.
pub totals_lem :
    {p : Heap} {bs : List Block}
    → IsHeap p bs
    → (heap_free_total p ≡ free_sum bs)
      × (heap_used_total p ≡ used_sum bs)
      × (heap_largest_free p ≡ largest_of bs)
      × (heap_frag_count p ≡ count_of bs)
      × (heap_free_total p + heap_used_total p + 4 * length bs ≡ heap_size)
unfolding heap_free_total heap_used_total heap_largest_free heap_frag_count
totals_lem {p} {bs} v =
    let f =
      free_walk_lem p.mem p.heap_end v.fits rounds p.heap_start 0 bs (length-le v) v.tiles
        (omega arith) in
    let u =
      used_walk_lem p.mem p.heap_end v.fits rounds p.heap_start 0 bs (length-le v) v.tiles
        (omega arith) in
    let c =
      count_walk_lem p.mem p.heap_end v.fits rounds p.heap_start 0 bs (length-le v) v.tiles
        (omega arith) in
    let l =
      largest_walk_lem p.mem p.heap_end v.fits rounds p.heap_start 0 bs (length-le v) v.tiles in
    let s = sums_total p.mem p.heap_start bs p.heap_end v.tiles in
    let (e, _) = Tiles-total p.mem p.heap_start bs p.heap_end v.tiles in
    (
      omega (arith, f),
      omega (arith, u),
      omega (arith, l),
      omega (arith, c),
      omega (arith, f, u, s, e, v.extent),
    )
