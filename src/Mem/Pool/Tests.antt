-- ===== src/Mem/Pool/Tests.antt =====
-- Runs of the pool, and its theorems at concrete inputs.
use osito_k.Base.{
  ℕ, ◌+◌, ◌≡◌, ◌≢◌, ◌↔◌, refl, none, some, [], ◌∷◌, All, Distinct, length, arith, if◌then◌else◌,
  ◌==◌,
}
use osito_k.Mem.Pool.{Pool, block, pool_init, pool_alloc, pool_free, pool_num_blocks}
use osito_k.Mem.Pool.Chain.{IsPlaced}
use osito_k.Mem.Pool.Clients.{Clients, IsBlock, Reach, here, next, allocate, pool-exclusive}

abbrev start : ℕ
start = 0x3ffe9000

start-IsPlaced : IsPlaced start
start-IsPlaced = omega arith

abbrev raw : Pool
raw = record { mem = λ _. 0xa5; free_list = 3; free_count = 0; used_count = 9 }

-- A pool with two free blocks.
abbrev two_free : Pool
two_free = record {
  mem = λ a. if a == start then start + 64 else 0;
  free_list = start;
  free_count = 2;
  used_count = 254;
}

null_is_ignored : pool_free start two_free 0 ≡ two_free
unfolding pool_free
null_is_ignored = refl

-- The first allocation is of block 0.
first : (pool_alloc (pool_init start raw)).1 ≡ some (block start 0)
unfolding pool_alloc pool_init
first = refl

abbrev begin : Clients
begin = record { pool = pool_init start raw; owned = [] }

abbrev one_held : Clients
one_held = record { pool = (pool_alloc (pool_init start raw)).0; owned = block start 0 ∷ [] }

one_held-Reach : Reach start begin one_held
one_held-Reach = next here (allocate (block start 0) first)

pool-exclusive_example :
    All (IsBlock start) one_held.owned
    × Distinct one_held.owned
    × (one_held.pool.used_count ≡ length one_held.owned)
    × ((ptr : ℕ)
        → (pool_alloc one_held.pool).1 ≡ some ptr
        → IsBlock start ptr × All (λ k. k ≢ ptr) one_held.owned)
    × (((pool_alloc one_held.pool).1 ≡ none) ↔ (length one_held.owned ≡ pool_num_blocks))
pool-exclusive_example = pool-exclusive start start-IsPlaced raw one_held-Reach
