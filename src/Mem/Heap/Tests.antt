-- ===== src/Mem/Heap/Tests.antt =====
-- Runs of the heap, and its theorems at concrete inputs.
use osito_k.Base.{
  ℕ, ◌+◌, ◌*◌, ◌<◌, ◌≤◌, ◌≡◌, ◌≢◌, refl, some, [], ◌∷◌, List, arith, length, ◌==◌, ◌-◌, none,
  if◌then◌else◌, All, Distinct, update,
}
use osito_k.Mem.Heap.{
  Heap, heap_size, need_of, heap_init, heap_alloc, scan, coalesce, place, heap_free,
  heap_free_total, heap_used_total, heap_largest_free, heap_frag_count,
}
use osito_k.Mem.Heap.Blocks.{Block, free, used, IsHeap, InUsed}
use osito_k.Mem.Heap.FirstFit.{first_fit}
use osito_k.Mem.Heap.Granted.{used_blocks}
use osito_k.Mem.Heap.Rounds.{Spared}
use osito_k.Mem.Heap.Alloc.{heap_alloc-first_fit, Served, heap_alloc-Served}
use osito_k.Mem.Heap.Free.{heap_free_lem}
use osito_k.Mem.Heap.Clients.{Clients, Reach, allocate, here, next}
use osito_k.Mem.Heap.Exclusive.{NoneMeet, heap-exclusive}
use osito_k.Mem.Heap.Totals.{free_sum, used_sum, largest_of, count_of, totals_lem}

abbrev heap_mem : ℕ
heap_mem = 0x3ffea000

abbrev raw : Heap
raw = record { mem = λ _. 0xa5; heap_start = 0; heap_end = 0 }

-- A used block of 104 bytes in front of free ones of 88 and 8000.
abbrev some_used : Heap
some_used = record {
  mem = λ a.
      if a == heap_mem
      then 105
      else if a == heap_mem + 104
      then 88
      else if a == heap_mem + 192
      then 8000
      else 7;
  heap_start = heap_mem;
  heap_end = heap_mem + 8192;
}

abbrev its_blocks : List Block
its_blocks = used 104 ∷ free 88 ∷ free 8000 ∷ []

some_used-IsHeap : IsHeap some_used its_blocks
some_used-IsHeap = record {
  tiles = (
    record { header = refl; aligned = refl; least = omega arith },
    (
      record { header = refl; aligned = refl; least = omega arith },
      (record { header = refl; aligned = refl; least = omega arith }, refl),
    ),
  );
  fits = omega arith;
  not_null = omega arith;
  extent = refl;
}

-- The two free blocks are merged to hold 100 bytes.
first_fit_run :
    first_fit 104 heap_mem 0 its_blocks
    ≡ (used 104 ∷ used 104 ∷ free 7984 ∷ [], some (heap_mem + 108))
unfolding first_fit
first_fit_run = refl

heap_alloc-first_fit_example :
    let (p', r) = heap_alloc some_used 100 in
    let (cs, q) = first_fit (need_of 100) heap_mem 0 its_blocks in
    IsHeap p' cs
    × (r ≡ q)
    × ((a : ℕ) → Spared heap_mem its_blocks some_used.heap_end a → p'.mem a ≡ some_used.mem a)
heap_alloc-first_fit_example = heap_alloc-first_fit 100 some_used-IsHeap (omega arith) (omega arith)

heap_alloc-Served_example :
    let (p', r) = heap_alloc some_used 100 in
    ((cs : List Block) × IsHeap p' cs × Served (need_of 100) heap_mem its_blocks cs r)
    × ((a : ℕ) → InUsed heap_mem its_blocks a → p'.mem a ≡ some_used.mem a)
    × (104 ≤ need_of 100)
    × (need_of 100 < 112)
heap_alloc-Served_example = heap_alloc-Served 100 some_used-IsHeap (omega arith) (omega arith)

heap_free_lem_example :
    let p' = heap_free some_used (heap_mem + 4) in
    ((cs : List Block) × IsHeap p' cs × (used_blocks heap_mem cs ≡ []))
    × ((a : ℕ) → a ≢ heap_mem → p'.mem a ≡ some_used.mem a)
heap_free_lem_example = heap_free_lem heap_mem 104 [] [] some_used-IsHeap refl

totals_lem_example :
    (heap_free_total some_used ≡ free_sum its_blocks)
    × (heap_used_total some_used ≡ used_sum its_blocks)
    × (heap_largest_free some_used ≡ largest_of its_blocks)
    × (heap_frag_count some_used ≡ count_of its_blocks)
    × (heap_free_total some_used + heap_used_total some_used + 4 * length its_blocks ≡ heap_size)
totals_lem_example = totals_lem some_used-IsHeap

abbrev begin : Clients
begin = record { heap = heap_init heap_mem raw; held = []; sizes = λ _. 0 }

abbrev first_held : Clients
first_held = record {
  heap = (heap_alloc begin.heap 100).0;
  held = (heap_mem + 4) ∷ [];
  sizes = update begin.sizes (heap_mem + 4) 100;
}

first_is : (heap_alloc begin.heap 100).1 ≡ some (heap_mem + 4)
unfolding heap_init heap_alloc scan coalesce need_of place
first_is = refl

abbrev two_held : Clients
two_held = record {
  heap = (heap_alloc first_held.heap 20).0;
  held = (heap_mem + 108) ∷ (heap_mem + 4) ∷ [];
  sizes = update first_held.sizes (heap_mem + 108) 20;
}

second_is : (heap_alloc first_held.heap 20).1 ≡ some (heap_mem + 108)
unfolding heap_init heap_alloc scan coalesce need_of place
second_is = refl

two_held-Reach : Reach begin two_held
two_held-Reach =
    next (next here (allocate 100 (heap_mem + 4) (omega arith) (omega arith) first_is))
      (allocate 20 (heap_mem + 108) (omega arith) (omega arith) second_is)

heap-exclusive_example :
    Distinct two_held.held
    × All
        (λ ptr. (heap_mem + 4 ≤ ptr) × (ptr + two_held.sizes ptr ≤ heap_mem + heap_size))
        two_held.held
    × NoneMeet two_held.sizes two_held.held
    × (two_held.held ≡ []
        → (size : ℕ) → 0 < size
        → size ≤ heap_size - 4
        → (heap_alloc two_held.heap size).1 ≢ none)
heap-exclusive_example =
    heap-exclusive heap_mem raw begin.sizes (omega arith) (omega arith) two_held-Reach
