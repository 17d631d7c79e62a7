-- ===== src/Mem/Heap.antt =====
-- The heap of variable-size blocks: src/mem/heap.cpp. Memory is the word at each aligned address.
-- The linker places `heap_mem`, so its address is a parameter. What is printed is left out, and so
-- are `irq_save` and `irq_restore`, which make `heap_alloc` and `heap_free` one step each.
pub mod Blocks
pub mod Coalesce
pub mod FirstFit
pub mod Granted
mod Rounds
pub mod Init
pub mod Alloc
pub mod Free
pub mod Totals
mod Regions
pub mod Clients
mod Whole
mod Release
pub mod Exclusive
mod Tests
use osito_k.Base.{
  ℕ, zero, suc, ◌+◌, ◌-◌, ◌*◌, ◌/◌, ◌%◌, ◌^◌, Bool, not, ◌&&◌, ◌||◌, Option, none, some, Array,
  update, ltb, leb, ◌==◌, if◌then◌else◌,
}

abbrev pub u32 : ℕ
u32 = 2 ^ 32

abbrev pub heap_size : ℕ
heap_size = 8192

abbrev pub hdr_size : ℕ
hdr_size = 4

abbrev pub min_data : ℕ
min_data = 4

-- The statics.
pub record Heap : Type 0 where
  pub mem : Array ℕ
  pub heap_start : ℕ
  pub heap_end : ℕ

-- `((x) + 3) & ~3u`
abbrev pub align4 : ℕ → ℕ
align4 x = (x + 3) % u32 / 4 * 4

-- The header of the block at `h`: its size, and whether it is used.
abbrev pub blk_size : Array ℕ → ℕ → ℕ
blk_size mem h = mem h / 4 * 4

abbrev pub blk_used : Array ℕ → ℕ → Bool
blk_used mem h = mem h % 2 == 1

abbrev pub next_blk : Array ℕ → ℕ → ℕ
next_blk mem h = (h + blk_size mem h) % u32

unfoldable pub heap_init : ℕ → Heap → Heap
heap_init heap_mem p = record {
  mem = update p.mem heap_mem heap_size;
  heap_start = heap_mem;
  heap_end = (heap_mem + heap_size) % u32;
}

-- No block is shorter than 4 bytes, so this many rounds go through the heap.
abbrev pub rounds : ℕ
rounds = 2048

-- `next < heap_end && !BLK_USED(next)`
abbrev pub can_merge : Array ℕ → ℕ → ℕ → Bool
can_merge mem stop next = ltb next stop && not (blk_used mem next)

-- The loop that merges free blocks into the one at `h`.
unfoldable pub coalesce : ℕ → Array ℕ → ℕ → ℕ → Array ℕ
coalesce zero mem stop h = mem
coalesce (suc n) mem stop h =
    let next = next_blk mem h in
    let rest = coalesce n (update mem h ((mem h + blk_size mem next) % u32)) stop h in
    if can_merge mem stop next then rest else mem

-- The size of the block that a request takes.
unfoldable pub need_of : ℕ → ℕ
need_of size =
    let need = (align4 size + hdr_size) % u32 in
    if ltb need (hdr_size + min_data) then hdr_size + min_data else need

-- The free block at `h`, of `bsz` bytes, becomes used, and what is left over a free
-- block. Sizes are multiples of 4, so `| 1u` adds one.
unfoldable pub place : Array ℕ → ℕ → ℕ → ℕ → Array ℕ
place mem h need bsz =
    if leb (hdr_size + min_data) (bsz - need)
    then update (update mem ((h + need) % u32) (bsz - need)) h (need + 1)
    else update mem h (bsz + 1)

-- The loop of `heap_alloc`: the memory, and the block found, or `none`.
unfoldable pub scan : ℕ → ℕ → Array ℕ → ℕ → ℕ → Array ℕ × Option ℕ
scan zero need mem stop h = (mem, none)
scan (suc n) need mem stop h =
    let merged = if blk_used mem h then mem else coalesce rounds mem stop h in
    let rest = scan n need merged stop (next_blk merged h) in
    if not (ltb h stop)
    then (mem, none)
    else if blk_used mem h
    then rest
    else if leb need (blk_size merged h)
    then (place merged h need (blk_size merged h), some ((h + hdr_size) % u32))
    else rest

-- `none` is `NULL`.
unfoldable pub heap_alloc : Heap → ℕ → Heap × Option ℕ
heap_alloc p size =
    if size == 0
    then (p, none)
    else (let (mem, r) = scan rounds (need_of size) p.mem p.heap_end p.heap_start in
        (record p { mem = mem }, r))

unfoldable pub heap_free : Heap → ℕ → Heap
heap_free p ptr =
    let h = (ptr + u32 - hdr_size) % u32 in
    if ptr == 0
    then p
    else if ltb h p.heap_start || leb p.heap_end h
    then p
    else record p { mem = coalesce rounds (update p.mem h (p.mem h / 2 * 2)) p.heap_end h }

-- The walks of the diagnostics.
unfoldable pub free_walk : ℕ → Array ℕ → ℕ → ℕ → ℕ → ℕ
free_walk zero mem stop h total = total
free_walk (suc n) mem stop h total =
    let rest =
      free_walk n mem stop (next_blk mem h) (
        if not (blk_used mem h)
        then (total + (blk_size mem h + u32 - hdr_size)) % u32
        else total) in
    if ltb h stop then rest else total

unfoldable pub used_walk : ℕ → Array ℕ → ℕ → ℕ → ℕ → ℕ
used_walk zero mem stop h total = total
used_walk (suc n) mem stop h total =
    let rest =
      used_walk n mem stop (next_blk mem h)
        (if blk_used mem h then (total + (blk_size mem h + u32 - hdr_size)) % u32 else total) in
    if ltb h stop then rest else total

unfoldable pub largest_walk : ℕ → Array ℕ → ℕ → ℕ → ℕ → ℕ
largest_walk zero mem stop h largest = largest
largest_walk (suc n) mem stop h largest =
    let sz = (blk_size mem h + u32 - hdr_size) % u32 in
    let rest =
      largest_walk n mem stop (next_blk mem h)
        (if not (blk_used mem h) && ltb largest sz then sz else largest) in
    if ltb h stop then rest else largest

unfoldable pub count_walk : ℕ → Array ℕ → ℕ → ℕ → ℕ → ℕ
count_walk zero mem stop h count = count
count_walk (suc n) mem stop h count =
    let rest =
      count_walk n mem stop (next_blk mem h)
        (if not (blk_used mem h) then (count + 1) % u32 else count) in
    if ltb h stop then rest else count

unfoldable pub heap_free_total : Heap → ℕ
heap_free_total p = free_walk rounds p.mem p.heap_end p.heap_start 0

unfoldable pub heap_used_total : Heap → ℕ
heap_used_total p = used_walk rounds p.mem p.heap_end p.heap_start 0

unfoldable pub heap_largest_free : Heap → ℕ
heap_largest_free p = largest_walk rounds p.mem p.heap_end p.heap_start 0

unfoldable pub heap_frag_count : Heap → ℕ
heap_frag_count p = count_walk rounds p.mem p.heap_end p.heap_start 0
