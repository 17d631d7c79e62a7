-- ===== src/Mem/Pool/Chain.antt =====
-- The free list as a list of blocks, and `pool_init`.
use osito_k.Base.{
  ℕ, zero, suc, ◌+◌, ◌≤◌, ◌<◌, ◌≡◌, ◌≢◌, refl, List, [], ◌∷◌, Array, update, update_self, update_ne,
  All, All-map, Distinct, length, arith,
}
use osito_k.Mem.Pool.{Pool, block, chain_blocks, pool_init, pool_num_blocks, pool_total_size, u32}

-- The linker's promise: the pool does not begin at 0, and ends below 2 ^ 32.
pub record IsPlaced (start : ℕ) : Type 0 where
  pub not_null : 0 < start
  pub fits : start + pool_total_size < u32

module _ (start : ℕ) where
  -- From the address `a` the links in memory lead through the blocks `fs` to `NULL`.
  abbrev pub Chain : Array ℕ → ℕ → List ℕ → Type 0
  Chain mem a [] = a ≡ 0
  Chain mem a (i ∷ fs) = (a ≡ block start i) × Chain mem (mem (block start i)) fs

  -- The blocks `fs` are free, the one to be handed out next in front.
  pub record IsPool (p : Pool) (fs : List ℕ) : Type 0 where
    pub chain : Chain p.mem p.free_list fs
    pub inside : All (λ i. i < pool_num_blocks) fs
    pub distinct : Distinct fs
    pub free_is : p.free_count ≡ length fs
    pub used_is : p.used_count + length fs ≡ pool_num_blocks

  block_ne : (i j : ℕ) → i ≢ j → block start i ≢ block start j
  block_ne i j ne = omega arith

  -- Memory that keeps the first word of each block of the list keeps the list.
  pub Chain-frame :
      (mem mem' : Array ℕ) (a : ℕ) (fs : List ℕ)
      → All (λ i. mem' (block start i) ≡ mem (block start i)) fs
      → Chain mem a fs
      → Chain mem' a fs
  Chain-frame mem mem' a [] same c = c
  Chain-frame mem mem' a (i ∷ fs) same c =
      (c.0, rw same.0 (Chain-frame mem mem' (mem (block start i)) fs same.1 c.1))

  -- The list that `chain_blocks` builds in front of `fs`.
  unfoldable pub blocks_before : ℕ → List ℕ → List ℕ
  blocks_before zero fs = fs
  blocks_before (suc i) fs = blocks_before i (i ∷ fs)

  record IsChained (p : Pool) (n : ℕ) (fs : List ℕ) : Type 0 where
    chained : Chain p.mem p.free_list fs
    all_from : All (λ i. (n ≤ i) × (i < pool_num_blocks)) fs
    all_distinct : Distinct fs

  chain_blocks-IsChained :
      (n : ℕ) (p : Pool) (fs : List ℕ)
      → n ≤ pool_num_blocks
      → IsChained p n fs
      → IsChained (chain_blocks start n p) 0 (blocks_before n fs)
  unfolding chain_blocks blocks_before
  chain_blocks-IsChained zero p fs h c = c
  chain_blocks-IsChained (suc i) p fs h c =
      chain_blocks-IsChained i
        (record p { mem = update p.mem (block start i) p.free_list; free_list = block start i })
        (i ∷ fs) (omega arith)
        (record {
          chained = (
            refl,
            rw (update_self p.mem (block start i) p.free_list) (
                Chain-frame p.mem (update p.mem (block start i) p.free_list) p.free_list fs
                  (All-map (λ j. (suc i ≤ j) × (j < pool_num_blocks))
                    (λ j.
                      update p.mem (block start i) p.free_list (block start j)
                      ≡ p.mem (block start j))
                    fs
                    (λ j b.
                      update_ne p.mem (block start i) (block start j) p.free_list
                        (block_ne i j (λ e. let l = b.0 in omega arith)))
                    c.all_from)
                  c.chained),
          );
          all_from = (
            (omega arith, omega arith),
            All-map (λ j. (suc i ≤ j) × (j < pool_num_blocks))
                (λ j. (i ≤ j) × (j < pool_num_blocks)) fs (λ j b. let l = b.0 in (omega arith, b.1))
                c.all_from,
          );
          all_distinct = (
            All-map (λ j. (suc i ≤ j) × (j < pool_num_blocks)) (λ j. j ≢ i) fs
                (λ j b e. let l = b.0 in omega arith) c.all_from,
            c.all_distinct,
          );
        })

  length-blocks_before : (n : ℕ) (fs : List ℕ) → length (blocks_before n fs) ≡ n + length fs
  unfolding blocks_before
  length-blocks_before zero fs = omega arith
  length-blocks_before (suc i) fs = omega (arith, length-blocks_before i (i ∷ fs))

  counts-chain_blocks :
      (n : ℕ) (p : Pool)
      → ((chain_blocks start n p).free_count ≡ p.free_count)
        × ((chain_blocks start n p).used_count ≡ p.used_count)
  unfolding chain_blocks
  counts-chain_blocks zero p = (refl, refl)
  counts-chain_blocks (suc i) p =
      counts-chain_blocks i
        (record p { mem = update p.mem (block start i) p.free_list; free_list = block start i })

  -- After `pool_init`, on whatever memory, the free list goes through all 256 blocks, each once,
  -- and the counts agree with it.
  pub pool_init-IsPool :
      (p : Pool)
      → IsPool (pool_init start p) (blocks_before pool_num_blocks [])
        × (length (blocks_before pool_num_blocks []) ≡ pool_num_blocks)
  unfolding pool_init
  pool_init-IsPool p =
      let q : Pool = record p { free_list = 0; free_count = pool_num_blocks; used_count = 0 } in
      let c =
        chain_blocks-IsChained pool_num_blocks q [] (omega arith)
          (record { chained = refl; all_from = tt; all_distinct = tt }) in
      let (f, u) = counts-chain_blocks pool_num_blocks q in
      let n = length-blocks_before pool_num_blocks [] in
      (
        record {
          chain = c.chained;
          inside =
              All-map (λ j. (0 ≤ j) × (j < pool_num_blocks)) (λ j. j < pool_num_blocks)
                (blocks_before pool_num_blocks []) (λ j b. b.1) c.all_from;
          distinct = c.all_distinct;
          free_is = omega (arith, f, n);
          used_is = omega (arith, u, n);
        },
        omega (arith, n),
      )
