-- ===== src/Mem/Pool/Alloc.antt =====
-- `pool_alloc` and `pool_free` on a pool in order.
use osito_k.Base.{
  ℕ, ◌+◌, ◌≤◌, ◌<◌, ◌≡◌, ◌≢◌, ◌⊎◌, refl, sym, false, Option, none, some, List, [], ◌∷◌, Array,
  update, update_self, update_ne, All, All-map, length_of_Distinct, ◌==◌, arith,
}
use osito_k.Mem.Pool.{
  Pool, block, zero_block, push, pool_alloc, pool_free, pool_num_blocks, pool_block_size,
  pool_total_size,
}
use osito_k.Mem.Pool.Chain.{IsPlaced, IsPool, Chain-frame}

module _ (start : ℕ) (placed : IsPlaced start) where
  -- What `pool_alloc` did. With no free block: nothing, and the result is `NULL`. Otherwise: the
  -- result is the first free block, cleared; the others stay free, and no memory outside the block
  -- changed.
  abbrev pub Allocated : Pool → List ℕ → Pool → Option ℕ → Type 0
  Allocated p [] p' r = (r ≡ none) × (p' ≡ p)
  Allocated p (i ∷ fs) p' r =
      (r ≡ some (block start i))
      × IsPool start p' fs
      × ((w : ℕ) → w < pool_block_size → p'.mem (block start i + w) ≡ 0)
      × ((a : ℕ) → (a < block start i) ⊎ (block start i + pool_block_size ≤ a) → p'.mem a ≡ p.mem a)

  zero_block-first :
      (mem : Array ℕ) (i j : ℕ)
      → j ≢ i
      → zero_block mem (block start i) (block start j) ≡ mem (block start j)
  zero_block-first mem i j ne = let h = placed.not_null in ground arith

  -- `pool_alloc` on a pool in order that is placed above 0 and below 2 ^ 32. With no free block it
  -- returns `NULL` and changes nothing; otherwise it returns the first free block, cleared, the
  -- others stay free in the same order, and no memory outside the block changed.
  pub pool_alloc-Allocated :
      {p : Pool} (fs : List ℕ)
      → IsPool start p fs
      → Allocated p fs (pool_alloc p).0 (pool_alloc p).1
  unfolding pool_alloc
  pool_alloc-Allocated {p} [] v = rw v.chain (refl, refl)
  pool_alloc-Allocated {p} (i ∷ fs) v =
      let not_null : (block start i == 0) ≡ false = let h = placed.not_null in ground arith in
      let n = length_of_Distinct pool_num_blocks (i ∷ fs) v.distinct v.inside in
      rw (v.chain.0, not_null)
        (
          refl,
          record {
            chain =
                Chain-frame start p.mem (zero_block p.mem (block start i)) (p.mem (block start i))
                  fs
                  (All-map (λ j. j ≢ i)
                    (λ j. zero_block p.mem (block start i) (block start j) ≡ p.mem (block start j))
                    fs (λ j ne. zero_block-first p.mem i j ne) v.distinct.0)
                  v.chain.1;
            inside = v.inside.1;
            distinct = v.distinct.1;
            free_is = omega (arith, v.free_is);
            used_is = omega (arith, v.used_is);
          },
          λ w h. ground arith,
          λ a h. ground arith,
        )

  pool_free-push :
      (p : Pool) (i : ℕ)
      → i < pool_num_blocks
      → pool_free start p (block start i) ≡ push p (block start i)
  pool_free-push p i hi =
      unfold pool_free in let h = placed.not_null in let f = placed.fits in ground arith

  -- A null pointer, and one outside the pool, is ignored.
  pub pool_free_outside :
      (p : Pool) (ptr : ℕ)
      → (ptr ≡ 0) ⊎ (ptr < start) ⊎ (start + pool_total_size ≤ ptr)
      → pool_free start p ptr ≡ p
  unfolding pool_free
  pool_free_outside p ptr h = let f = placed.fits in ground arith

  push-IsPool :
      {p : Pool} {fs : List ℕ} (i : ℕ)
      → IsPool start p fs
      → i < pool_num_blocks
      → All (λ j. j ≢ i) fs
      → IsPool start (push p (block start i)) (i ∷ fs)
  unfolding push
  push-IsPool {p} {fs} i v hi out =
      let n = length_of_Distinct pool_num_blocks (i ∷ fs) (out, v.distinct) (hi, v.inside) in
      record {
        chain = (
          refl,
          rw (update_self p.mem (block start i) p.free_list) (
              Chain-frame start p.mem (update p.mem (block start i) p.free_list) p.free_list fs
                (All-map (λ j. j ≢ i)
                  (λ j.
                    update p.mem (block start i) p.free_list (block start j)
                    ≡ p.mem (block start j))
                  fs
                  (λ j ne.
                    update_ne p.mem (block start i) (block start j) p.free_list
                      (λ e. ne (omega arith)))
                  out)
                v.chain),
        );
        inside = (hi, v.inside);
        distinct = (out, v.distinct);
        free_is = omega (arith, v.free_is);
        used_is = omega (arith, v.used_is);
      }

  -- `pool_free` of a block of the pool that is not free puts it in front of the free ones; the pool
  -- stays in order, and only the first word of the block is written.
  pub pool_free-IsPool :
      {p : Pool} {fs : List ℕ} (i : ℕ)
      → IsPool start p fs
      → i < pool_num_blocks
      → All (λ j. j ≢ i) fs
      → IsPool start (pool_free start p (block start i)) (i ∷ fs)
        × ((a : ℕ) → a ≢ block start i → (pool_free start p (block start i)).mem a ≡ p.mem a)
  pool_free-IsPool {p} i v hi out = rw (pool_free-push p i hi) (
    push-IsPool i v hi out,
    λ a ne. unfold push in update_ne p.mem (block start i) a p.free_list (λ e. ne (sym e)),
  )
