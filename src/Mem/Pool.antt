-- ===== src/Mem/Pool.antt =====
-- The pool of fixed-size blocks: src/mem/pool_alloc.cpp. Memory is the word at each address. The
-- linker places `pool_memory`, so its address `start` is a parameter. What is printed is left out,
-- and so are `irq_save` and `irq_restore`, which make each operation one step.
pub mod Chain
pub mod Alloc
pub mod Clients
mod Tests
use osito_k.Base.{
  ℕ, zero, suc, ◌+◌, ◌-◌, ◌*◌, ◌%◌, ◌^◌, Bool, ◌&&◌, ◌||◌, Option, none, some, Array, update, ltb,
  leb, ◌==◌, if◌then◌else◌,
}

abbrev pub pool_block_size : ℕ
pool_block_size = 32

abbrev pub pool_num_blocks : ℕ
pool_num_blocks = 256

abbrev pub pool_total_size : ℕ
pool_total_size = pool_block_size * pool_num_blocks

abbrev pub u32 : ℕ
u32 = 2 ^ 32

-- The statics; the address 0 is `NULL`.
pub record Pool : Type 0 where
  pub mem : Array ℕ
  pub free_list : ℕ
  pub free_count : ℕ
  pub used_count : ℕ

module _ (start : ℕ) where
  -- `&pool_memory[i * POOL_BLOCK_SIZE]`
  abbrev pub block : ℕ → ℕ
  block i = start + i * pool_block_size

  -- The loop of `pool_init`, for the blocks below `n`, the last one first.
  unfoldable pub chain_blocks : ℕ → Pool → Pool
  chain_blocks zero p = p
  chain_blocks (suc i) p =
      chain_blocks i (record p { mem = update p.mem (block i) p.free_list; free_list = block i })

  unfoldable pub pool_init : Pool → Pool
  unfolding chain_blocks
  pool_init p =
      chain_blocks pool_num_blocks
        (record p { free_list = 0; free_count = pool_num_blocks; used_count = 0 })

-- `ets_memset(block, 0, POOL_BLOCK_SIZE)`
abbrev pub zero_block : Array ℕ → ℕ → Array ℕ
zero_block mem b a = if leb b a && ltb a (b + pool_block_size) then 0 else mem a

-- `none` is `NULL`.
unfoldable pub pool_alloc : Pool → Pool × Option ℕ
pool_alloc p = if p.free_list == 0 then (p, none) else (
  record {
    mem = zero_block p.mem p.free_list;
    free_list = p.mem p.free_list;
    free_count = (p.free_count + u32 - 1) % u32;
    used_count = (p.used_count + 1) % u32;
  },
  some p.free_list,
)

-- The block at `ptr` goes to the front of the free list.
unfoldable pub push : Pool → ℕ → Pool
push p ptr = record {
  mem = update p.mem ptr p.free_list;
  free_list = ptr;
  free_count = (p.free_count + 1) % u32;
  used_count = (p.used_count + u32 - 1) % u32;
}

unfoldable pub pool_free : ℕ → Pool → ℕ → Pool
unfolding push
pool_free start p ptr =
    if ptr == 0
    then p
    else if ltb ptr start || leb ((start + pool_total_size) % u32) ptr
    then p
    else push p ptr

unfoldable pub pool_free_count : Pool → ℕ
pool_free_count p = p.free_count

unfoldable pub pool_used_count : Pool → ℕ
pool_used_count p = p.used_count
