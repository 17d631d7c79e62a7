-- ===== src/Mem/Heap/Coalesce.antt =====
-- The merging loop of `heap_alloc` and `heap_free` on a list of blocks.
use osito_k.Base.{
  ℕ, zero, suc, ◌+◌, ◌%◌, ◌≤◌, ◌<◌, ◌≡◌, ◌≢◌, inl, inr, refl, true, false, List, [], ◌∷◌, Array,
  update, update_ne, length, arith, ◌∙◌,
}
use osito_k.Mem.Heap.{u32, blk_size, next_blk, can_merge, coalesce}
use osito_k.Mem.Heap.Blocks.{
  Block, free, used, size_of, IsBlock, Tiles, Tiles-total, Tiles-above, header_reads, InUsed,
}

-- A free block of `n` bytes with the free blocks behind it, and what follows.
abbrev pub absorb : ℕ → List Block → ℕ × List Block
absorb n [] = (n, [])
absorb n (used m ∷ bs) = (n, used m ∷ bs)
absorb n (free m ∷ bs) = absorb (n + m) bs

-- The next block of a block that ends in the heap.
pub next_blk_lem :
    {mem : Array ℕ} {h stop : ℕ} (b : Block)
    → IsBlock mem h b
    → h + size_of b ≤ stop
    → stop < u32
    → next_blk mem h ≡ h + size_of b
next_blk_lem b v le fits = let (e, _) = header_reads b v in omega (arith, e)

-- The list does not begin with a free block.
abbrev pub NoFree : List Block → Type 0
NoFree [] = Unit
NoFree (used m ∷ bs) = Unit
NoFree (free m ∷ bs) = ⊥

pub absorb-NoFree : (n : ℕ) (bs : List Block) → NoFree (absorb n bs).1
absorb-NoFree n [] = tt
absorb-NoFree n (used m ∷ bs) = tt
absorb-NoFree n (free m ∷ bs) = absorb-NoFree (n + m) bs

pub length-absorb : (n : ℕ) (bs : List Block) → length (absorb n bs).1 ≤ length bs
length-absorb n [] = omega arith
length-absorb n (used m ∷ bs) = omega arith
length-absorb n (free m ∷ bs) = omega (arith, length-absorb (n + m) bs)

-- The loop stops at the end of the heap, and at a used block.
cannot_merge :
    (mem : Array ℕ) (next stop : ℕ) (bs : List Block)
    → Tiles mem next bs stop
    → NoFree bs
    → can_merge mem stop next ≡ false
cannot_merge mem next stop [] t z = ground arith
cannot_merge mem next stop (used m ∷ bs) t z =
    let (_, u) = header_reads (used m) t.0 in rw u (ground arith)
cannot_merge mem next stop (free m ∷ bs) t z = absurd z

merges :
    (mem : Array ℕ) (next stop m : ℕ) (bs : List Block)
    → Tiles mem next (free m ∷ bs) stop
    → can_merge mem stop next ≡ true
merges mem next stop m bs t =
    let (_, u) = header_reads (free m) t.0 in
    let (e, l) = Tiles-total mem next (free m ∷ bs) stop t in rw u (ground (arith, e, t.0.least))

-- What the loop leaves: one free block, and the others as they were.
pub record Merged (mem mem' : Array ℕ) (h stop n : ℕ) (bs : List Block) : Type 0 where
  pub tiles : Tiles mem' h (free (absorb n bs).0 ∷ (absorb n bs).1) stop
  pub others : (a : ℕ) → a ≢ h → mem' a ≡ mem a

coalesce_stays :
    (rounds : ℕ) (mem : Array ℕ) (h stop n : ℕ) (bs : List Block)
    → Tiles mem h (free n ∷ bs) stop
    → stop < u32
    → NoFree bs
    → coalesce rounds mem stop h ≡ mem
unfolding coalesce
coalesce_stays zero mem h stop n bs t fits z = refl
coalesce_stays (suc f) mem h stop n bs t fits z =
    let (e, l) = Tiles-total mem h (free n ∷ bs) stop t in
    let nx = next_blk_lem (free n) t.0 (omega (arith, e)) fits in
    rw (nx, cannot_merge mem (h + n) stop bs t.1 z) refl

-- One round: the header grows by the size of the next block.
merge_one :
    (mem : Array ℕ) (h stop n m : ℕ) (bs : List Block)
    → Tiles mem h (free n ∷ free m ∷ bs) stop
    → stop < u32
    → Tiles
        (update mem h ((mem h + blk_size mem (next_blk mem h)) % u32))
        h
        (free (n + m) ∷ bs)
        stop
merge_one mem h stop n m bs t fits =
    let (e, l) = Tiles-total mem h (free n ∷ free m ∷ bs) stop t in
    let nx = next_blk_lem (free n) t.0 (omega (arith, e)) fits in
    let (sz, _) = header_reads (free m) t.1.0 in
    rw (nx, sz)
      (
        record {
          header = ground (arith, e, t.0.header);
          aligned = omega (arith, t.0.aligned, t.1.0.aligned);
          least = omega (arith, t.0.least);
        },
        Tiles-above mem _ (h + (n + m)) bs stop
            (λ a le. update_ne mem h a _ (λ z. omega (arith, z, t.0.least)))
            (let q : h + n + m ≡ h + (n + m) = omega arith in rw (← q) t.1.1),
      )

coalesce_goes :
    (rounds : ℕ) (mem : Array ℕ) (h stop : ℕ)
    → can_merge mem stop (next_blk mem h) ≡ true
    → coalesce (suc rounds) mem stop h
      ≡ coalesce rounds (update mem h ((mem h + blk_size mem (next_blk mem h)) % u32)) stop h
unfolding coalesce
coalesce_goes rounds mem h stop g = rw g refl

pub coalesce-Merged :
    (rounds : ℕ) (mem : Array ℕ) (h stop n : ℕ) (bs : List Block)
    → length bs ≤ rounds
    → Tiles mem h (free n ∷ bs) stop
    → stop < u32
    → Merged mem (coalesce rounds mem stop h) h stop n bs
coalesce-Merged rounds mem h stop n [] le t fits =
    rw (coalesce_stays rounds mem h stop n [] t fits tt)
      (record { tiles = t; others = λ a ne. refl })
coalesce-Merged rounds mem h stop n (used m ∷ bs) le t fits =
    rw (coalesce_stays rounds mem h stop n (used m ∷ bs) t fits tt)
      (record { tiles = t; others = λ a ne. refl })
coalesce-Merged zero mem h stop n (free m ∷ bs) le t fits = absurd (omega arith)
coalesce-Merged (suc f) mem h stop n (free m ∷ bs) le t fits =
    let (e, l) = Tiles-total mem h (free n ∷ free m ∷ bs) stop t in
    let nx = next_blk_lem (free n) t.0 (omega (arith, e)) fits in
    let v =
      coalesce-Merged f _ h stop (n + m) bs (omega arith) (merge_one mem h stop n m bs t fits)
        fits in
    let w : Merged mem
        (coalesce f (update mem h ((mem h + blk_size mem (next_blk mem h)) % u32)) stop h) h stop n
        (free m ∷ bs) =
      record {
        tiles = v.tiles;
        others = λ a ne. v.others a ne ∙ update_ne mem h a _ (λ z. ne (omega arith));
      } in
    let g : can_merge mem stop (next_blk mem h) ≡ true = rw nx (merges mem (h + n) stop m bs t.1) in
    rw (coalesce_goes f mem h stop g) w

-- A used block is no part of a free one that was merged.
pub InUsed-absorb :
    (h n : ℕ) (bs : List Block) (a : ℕ)
    → InUsed (h + n) bs a
    → InUsed (h + (absorb n bs).0) (absorb n bs).1 a
InUsed-absorb h n [] a i = absurd i
InUsed-absorb h n (used m ∷ bs) a i = i
InUsed-absorb h n (free m ∷ bs) a (inl (u, _, _)) = cc u
InUsed-absorb h n (free m ∷ bs) a (inr i) =
    let q : h + n + m ≡ h + (n + m) = omega arith in InUsed-absorb h (n + m) bs a (rw (← q) i)
