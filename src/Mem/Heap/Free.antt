-- ===== src/Mem/Heap/Free.antt =====
-- `heap_free` on the list of blocks, and on the used ones.
use osito_k.Base.{
  ℕ, ◌+◌, ◌-◌, ◌*◌, ◌/◌, ◌%◌, ◌≤◌, ◌≡◌, ◌≢◌, refl, sym, ap, ◌∙◌, false, List, [], ◌∷◌, ◌++◌, Array,
  update, update_ne, length, arith, ltb, leb, ◌==◌, ◌||◌,
}
use osito_k.Mem.Heap.{Heap, u32, rounds, coalesce, heap_free, hdr_size}
use osito_k.Mem.Heap.Blocks.{
  Block, free, used, Tiles, Tiles-total, Tiles-append, Tiles-split, Tiles-below, Tiles-above, total,
  IsHeap,
}
use osito_k.Mem.Heap.Coalesce.{absorb, Merged, coalesce-Merged}
use osito_k.Mem.Heap.Granted.{used_blocks}

used_blocks-append :
    (h : ℕ) (bs cs : List Block)
    → used_blocks h (bs ++ cs) ≡ used_blocks h bs ++ used_blocks (h + total bs) cs
used_blocks-append h [] cs = let q : h + 0 ≡ h = omega arith in rw q refl
used_blocks-append h (free n ∷ bs) cs =
    let q : h + n + total bs ≡ h + (n + total bs) = omega arith in
    rw q at (used_blocks-append (h + n) bs cs)
used_blocks-append h (used n ∷ bs) cs =
    let q : h + n + total bs ≡ h + (n + total bs) = omega arith in
    ap (λ l. (h, n) ∷ l) (rw q at (used_blocks-append (h + n) bs cs))

used_blocks-absorb :
    (h n : ℕ) (bs : List Block)
    → used_blocks (h + (absorb n bs).0) (absorb n bs).1 ≡ used_blocks (h + n) bs
used_blocks-absorb h n [] = refl
used_blocks-absorb h n (used m ∷ bs) = refl
used_blocks-absorb h n (free m ∷ bs) =
    let q : h + (n + m) ≡ h + n + m = omega arith in used_blocks-absorb h (n + m) bs ∙ rw q refl

-- A used block stands somewhere in the list of blocks.
record Found (h b n : ℕ) (bs : List Block) (front back : List (ℕ × ℕ)) : Type 0 where
  pre : List Block
  post : List Block
  blocks : bs ≡ pre ++ used n ∷ post
  place : b ≡ h + total pre
  front_is : front ≡ used_blocks h pre
  back_is : back ≡ used_blocks (b + n) post

find_used :
    (h b n : ℕ) (bs : List Block) (front back : List (ℕ × ℕ))
    → used_blocks h bs ≡ front ++ (b, n) ∷ back
    → Found h b n bs front back
find_used h b n [] [] back e = cc e
find_used h b n [] (x ∷ front) back e = cc e
find_used h b n (free m ∷ bs) front back e =
    let f = find_used (h + m) b n bs front back e in
    record {
      pre = free m ∷ f.pre;
      post = f.post;
      blocks = ap (λ l. free m ∷ l) f.blocks;
      place = omega (arith, f.place);
      front_is = f.front_is;
      back_is = f.back_is;
    }
find_used h b n (used m ∷ bs) [] back e =
    let p : h ≡ b = cc e in
    let q : m ≡ n = cc e in
    let r : used_blocks (h + m) bs ≡ back = cc e in
    record {
      pre = [];
      post = bs;
      blocks = rw q refl;
      place = omega arith;
      front_is = refl;
      back_is = rw (← p, ← q) (sym r);
    }
find_used h b n (used m ∷ bs) (x ∷ front) back e =
    let p : (h, m) ≡ x = cc e in
    let f = find_used (h + m) b n bs front back (cc e) in
    record {
      pre = used m ∷ f.pre;
      post = f.post;
      blocks = ap (λ l. used m ∷ l) f.blocks;
      place = omega (arith, f.place);
      front_is = rw (← p) (ap (λ l. (h, m) ∷ l) f.front_is);
      back_is = f.back_is;
    }

module _ {p : Heap} (pre post : List Block) (n : ℕ) (v : IsHeap p (pre ++ used n ∷ post)) where
  abbrev h : ℕ
  h = p.heap_start + total pre

  behind : Tiles p.mem h (used n ∷ post) p.heap_end
  behind = (Tiles-split p.mem p.heap_start pre (used n ∷ post) p.heap_end v.tiles).1

  ends : (h + (n + total post) ≡ p.heap_end) × (length post ≤ rounds)
  ends =
      let (e, l) = Tiles-total p.mem h (used n ∷ post) p.heap_end behind in
      (e, omega (arith, e, l, v.extent))

  abbrev cleared : Array ℕ
  cleared = update p.mem h (p.mem h / 2 * 2)

  cleared-Tiles : Tiles cleared h (free n ∷ post) p.heap_end
  cleared-Tiles =
      let b = behind.0 in
      let al = b.aligned in
      let hd = b.header in
      let ls = b.least in
      (
        record { header = ground arith; aligned = al; least = ls },
        Tiles-above p.mem cleared (h + n) post p.heap_end
            (λ a le. update_ne p.mem h a (p.mem h / 2 * 2) (λ z. omega arith)) behind.1,
      )

  merged : Merged cleared (coalesce rounds cleared p.heap_end h) h p.heap_end n post
  merged = coalesce-Merged rounds cleared h p.heap_end n post ends.1 cleared-Tiles v.fits

  frees : heap_free p (h + 4) ≡ record p { mem = coalesce rounds cleared p.heap_end h }
  unfolding heap_free
  frees =
      let f = v.fits in
      let e = ends.0 in
      let l = behind.0.least in
      let q : (h + 4 + u32 - hdr_size) % u32 ≡ h = omega arith in
      let a : (h + 4 == 0) ≡ false = ground arith in
      let b : (ltb h p.heap_start || leb p.heap_end h) ≡ false = ground arith in rw (q, a, b) refl

  keeps : (a : ℕ) → a ≢ h → coalesce rounds cleared p.heap_end h a ≡ p.mem a
  keeps a ne = merged.others a ne ∙ update_ne p.mem h a (p.mem h / 2 * 2) (λ z. ne (sym z))

  freed-IsHeap : IsHeap (heap_free p (h + 4)) (pre ++ free (absorb n post).0 ∷ (absorb n post).1)
  freed-IsHeap = rw frees (record {
    tiles =
        Tiles-append (coalesce rounds cleared p.heap_end h) p.heap_start h pre
          (free (absorb n post).0 ∷ (absorb n post).1) p.heap_end
          (Tiles-below p.mem (coalesce rounds cleared p.heap_end h) p.heap_start pre h
            (λ a _ lt. keeps a (omega arith))
            (Tiles-split p.mem p.heap_start pre (used n ∷ post) p.heap_end v.tiles).0)
          merged.tiles;
    fits = v.fits;
    not_null = v.not_null;
    extent = v.extent;
  })

  freed_blocks :
      used_blocks p.heap_start (pre ++ free (absorb n post).0 ∷ (absorb n post).1)
      ≡ used_blocks p.heap_start pre ++ used_blocks (h + n) post
  freed_blocks =
      used_blocks-append p.heap_start pre (free (absorb n post).0 ∷ (absorb n post).1)
      ∙ ap (λ l. used_blocks p.heap_start pre ++ l) (used_blocks-absorb h n post)

-- `heap_free` of a used block, by the pointer behind its header, on a heap in order: exactly that block
-- leaves the used ones, the heap is in order again, and no memory but the block's header changed.
pub heap_free_lem :
    {p : Heap} {bs : List Block} (b n : ℕ) (front back : List (ℕ × ℕ))
    → IsHeap p bs
    → used_blocks p.heap_start bs ≡ front ++ (b, n) ∷ back
    → let p' = heap_free p (b + 4) in
      ((cs : List Block) × IsHeap p' cs × (used_blocks p.heap_start cs ≡ front ++ back))
      × ((a : ℕ) → a ≢ b → p'.mem a ≡ p.mem a)
heap_free_lem {p} {bs} b n front back v e =
    let f = find_used p.heap_start b n bs front back e in
    let w = rw f.blocks at v in
    let back_is : back ≡ used_blocks (p.heap_start + total f.pre + n) f.post =
      rw f.place at f.back_is in
    rw f.place (
      (
        f.pre ++ free (absorb n f.post).0 ∷ (absorb n f.post).1,
        freed-IsHeap f.pre f.post n w,
        rw (f.front_is, back_is) (freed_blocks f.pre f.post n w),
      ),
      rw (frees f.pre f.post n w) (λ a ne. keeps f.pre f.post n w a ne),
    )
