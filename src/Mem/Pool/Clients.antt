-- ===== src/Mem/Pool/Clients.antt =====
-- Any sequence of allocations and frees by tasks that free only what they hold and write only into
-- what they hold.
use osito_k.Base.{
  ℕ, ◌+◌, ◌≤◌, ◌<◌, ◌≡◌, ◌≢◌, ◌⊎◌, ◌↔◌, refl, none, some, List, [], ◌∷◌, Array, All, All-map,
  All-and, All-All, All-Has, All-erase, Distinct, Distinct-erase, Has, erase, length, length-erase,
  arith,
}
use osito_k.Mem.Pool.{
  Pool, block, pool_init, pool_alloc, pool_free, pool_num_blocks, pool_block_size,
}
use osito_k.Mem.Pool.Chain.{IsPlaced, IsPool, Chain-frame, blocks_before, pool_init-IsPool}
use osito_k.Mem.Pool.Alloc.{pool_alloc-Allocated, pool_free-IsPool}

-- The pool, and the addresses of the blocks that tasks hold.
pub record Clients : Type 0 where
  pub pool : Pool
  pub owned : List ℕ

module _ (start : ℕ) where
  -- The address is that of one of the pool's 256 blocks.
  abbrev pub IsBlock : ℕ → Type 0
  IsBlock ptr = (i : ℕ) × (i < pool_num_blocks) × (ptr ≡ block start i)

  abbrev pub OutsideBlock : ℕ → ℕ → Type 0
  OutsideBlock a ptr = (a < ptr) ⊎ (ptr + pool_block_size ≤ a)

  pub data Step (c : Clients) : Clients → Type 0 where
    allocate :
        (ptr : ℕ)
        → (pool_alloc c.pool).1 ≡ some ptr
        → Step c (record { pool = (pool_alloc c.pool).0; owned = ptr ∷ c.owned })
    refused : (pool_alloc c.pool).1 ≡ none → Step c (record c { pool = (pool_alloc c.pool).0 })
    release :
        (ptr : ℕ)
        → Has ptr c.owned
        → Step c (record { pool = pool_free start c.pool ptr; owned = erase ptr c.owned })
    write :
        (mem : Array ℕ)
        → ((a : ℕ) → All (OutsideBlock a) c.owned → mem a ≡ c.pool.mem a)
        → Step c (record c { pool = record (c.pool) { mem = mem } })

  pub data Reach (c : Clients) : Clients → Type 0 where
    here : Reach c c
    next : {d e : Clients} → Reach c d → Step d e → Reach c e

  -- None of the blocks `fs` is at `ptr`.
  abbrev NotFree : List ℕ → ℕ → Type 0
  NotFree fs ptr = All (λ j. block start j ≢ ptr) fs

  record IsShared (c : Clients) (fs : List ℕ) : Type 0 where
    pool : IsPool start c.pool fs
    apart : All (NotFree fs) c.owned
    inside : All IsBlock c.owned
    distinct : Distinct c.owned
    total : length c.owned + length fs ≡ pool_num_blocks

  module _ (placed : IsPlaced start) where
    allocate-keeps :
        {c : Clients} (fs : List ℕ) (ptr : ℕ)
        → IsShared c fs
        → (pool_alloc c.pool).1 ≡ some ptr
        → (fs' : List ℕ) × IsShared
            (record { pool = (pool_alloc c.pool).0; owned = ptr ∷ c.owned })
            fs'
          × All (λ k. k ≢ ptr) c.owned
    allocate-keeps {c} [] ptr v e = absurd (cc ((pool_alloc-Allocated start placed [] v.pool).0, e))
    allocate-keeps {c} (j ∷ fs) ptr v e =
        let a = pool_alloc-Allocated start placed (j ∷ fs) v.pool in
        let b : ptr ≡ block start j = cc (a.0, e) in
        let other : All (λ k. k ≢ ptr) c.owned =
          All-map (NotFree (j ∷ fs)) (λ k. k ≢ ptr) c.owned (λ k h z. h.0 (omega arith)) v.apart in
        (
          fs,
          record {
            pool = a.1;
            apart = (
              All-map (λ k. k ≢ j) (λ k. block start k ≢ ptr) fs (λ k ne z. ne (omega arith))
                  v.pool.distinct.0,
              All-map (NotFree (j ∷ fs)) (NotFree fs) c.owned (λ k h. h.1) v.apart,
            );
            inside = ((j, v.pool.inside.0, b), v.inside);
            distinct = (other, v.distinct);
            total = omega (arith, v.total);
          },
          other,
        )

    release-keeps :
        {c : Clients} {fs : List ℕ} (ptr : ℕ)
        → IsShared c fs
        → Has ptr c.owned
        → (i : ℕ) × IsShared
            (record { pool = pool_free start c.pool ptr; owned = erase ptr c.owned })
            (i ∷ fs)
    release-keeps {c} {fs} ptr v h =
        let (i, hi, e) = All-Has IsBlock ptr c.owned v.inside h in
        let out : All (λ j. j ≢ i) fs =
          All-map (λ j. block start j ≢ ptr) (λ j. j ≢ i) fs (λ j ne z. ne (omega arith))
            (All-Has (NotFree fs) ptr c.owned v.apart h) in
        let (d, ne) = Distinct-erase ptr c.owned v.distinct in
        (
          i,
          record {
            pool = rw e ((pool_free-IsPool start placed i v.pool hi out).0);
            apart =
                All-map (λ k. (k ≢ ptr) × NotFree fs k) (NotFree (i ∷ fs)) (erase ptr c.owned)
                  (λ k p. ((λ z. p.0 (omega arith)), p.1))
                  (All-and (λ k. k ≢ ptr) (NotFree fs) (erase ptr c.owned) ne
                    (All-erase (NotFree fs) ptr c.owned v.apart));
            inside = All-erase IsBlock ptr c.owned v.inside;
            distinct = d;
            total = omega (arith, v.total, length-erase ptr c.owned h);
          },
        )

    free_not_held :
        (owned : List ℕ) (j : ℕ)
        → All IsBlock owned
        → All (λ ptr. block start j ≢ ptr) owned
        → All (OutsideBlock (block start j)) owned
    free_not_held owned j inside ne =
        All-map (λ ptr. IsBlock ptr × (block start j ≢ ptr)) (OutsideBlock (block start j)) owned
          (λ ptr h. let (i, hi, e) = h.0 in let n = h.1 in omega arith)
          (All-and IsBlock (λ ptr. block start j ≢ ptr) owned inside ne)

    write-keeps :
        {c : Clients} {fs : List ℕ} (mem : Array ℕ)
        → IsShared c fs
        → ((a : ℕ) → All (OutsideBlock a) c.owned → mem a ≡ c.pool.mem a)
        → IsShared (record c { pool = record (c.pool) { mem = mem } }) fs
    write-keeps {c} {fs} mem v same = record {
      pool = record {
        chain =
            Chain-frame start c.pool.mem mem c.pool.free_list fs
              (All-map (λ j. All (λ ptr. block start j ≢ ptr) c.owned)
                (λ j. mem (block start j) ≡ c.pool.mem (block start j)) fs
                (λ j h. same (block start j) (free_not_held c.owned j v.inside h))
                (All-All (λ ptr j. block start j ≢ ptr) c.owned fs v.apart))
              v.pool.chain;
        inside = v.pool.inside;
        distinct = v.pool.distinct;
        free_is = v.pool.free_is;
        used_is = v.pool.used_is;
      };
      apart = v.apart;
      inside = v.inside;
      distinct = v.distinct;
      total = v.total;
    }

    refused-keeps :
        {c : Clients} (fs : List ℕ)
        → IsShared c fs
        → (pool_alloc c.pool).1 ≡ none
        → IsShared (record c { pool = (pool_alloc c.pool).0 }) fs × (fs ≡ [])
    refused-keeps {c} [] v e = (rw ((pool_alloc-Allocated start placed [] v.pool).1) v, refl)
    refused-keeps {c} (j ∷ fs) v e =
        absurd (cc ((pool_alloc-Allocated start placed (j ∷ fs) v.pool).0, e))

    Holds : Clients → Type 0
    Holds c = (fs : List ℕ) × IsShared c fs

    Step-Holds : {c d : Clients} → Step c d → Holds c → Holds d
    unfolding Holds
    Step-Holds (allocate ptr e) (fs, v) = let (fs', w, _) = allocate-keeps fs ptr v e in (fs', w)
    Step-Holds (refused e) (fs, v) = (fs, (refused-keeps fs v e).0)
    Step-Holds (release ptr h) (fs, v) = let (i, w) = release-keeps ptr v h in (i ∷ fs, w)
    Step-Holds (write mem same) (fs, v) = (fs, write-keeps mem v same)

    Reach-Holds : {c d : Clients} → Holds c → Reach c d → Holds d
    Reach-Holds h here = h
    Reach-Holds h (next r st) = Step-Holds st (Reach-Holds h r)

    fresh-Holds : (p : Pool) → Holds (record { pool = pool_init start p; owned = [] })
    unfolding Holds
    fresh-Holds p =
        let (v, n) = pool_init-IsPool start p in
        (
          blocks_before start pool_num_blocks [],
          record { pool = v; apart = tt; inside = tt; distinct = tt; total = omega (arith, n) },
        )

    refused_lem :
        {c : Clients} (fs : List ℕ)
        → IsShared c fs
        → ((pool_alloc c.pool).1 ≡ none) ↔ (length c.owned ≡ pool_num_blocks)
    refused_lem {c} [] v =
        (λ _. omega (arith, v.total), λ _. (pool_alloc-Allocated start placed [] v.pool).0)
    refused_lem {c} (j ∷ fs) v = (
      λ e. absurd (cc ((pool_alloc-Allocated start placed (j ∷ fs) v.pool).0, e)),
      λ e. absurd (omega (arith, v.total)),
    )

    -- From `pool_init` on, with the pool placed above 0 and ending below 2 ^ 32, whatever clients do
    -- that free only what they hold and write only into what they hold: each address that they hold is that of one of the pool's 256 blocks, none is
    -- held twice, and `used_count` counts them; whatever address `pool_alloc` would return is that
    -- of a block, and nobody holds it; and `pool_alloc` would fail exactly when all 256 blocks are
    -- held.
    pub pool-exclusive :
        (p : Pool) {c : Clients}
        → Reach (record { pool = pool_init start p; owned = [] }) c
        → All IsBlock c.owned
          × Distinct c.owned
          × (c.pool.used_count ≡ length c.owned)
          × ((ptr : ℕ)
              → (pool_alloc c.pool).1 ≡ some ptr
              → IsBlock ptr × All (λ k. k ≢ ptr) c.owned)
          × (((pool_alloc c.pool).1 ≡ none) ↔ (length c.owned ≡ pool_num_blocks))
    unfolding Holds
    pool-exclusive p {c} r =
        let (fs, v) = Reach-Holds (fresh-Holds p) r in
        (
          v.inside,
          v.distinct,
          omega (arith, v.total, v.pool.used_is),
          λ ptr e. let (fs', w, ne) = allocate-keeps fs ptr v e in (w.inside.0, ne),
          refused_lem fs v,
        )
