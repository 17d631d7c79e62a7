-- ===== src/Mem/Heap/Init.antt =====
-- The heap after `heap_init`, and where its used blocks lie.
use osito_k.Base.{ℕ, ◌+◌, ◌≤◌, ◌<◌, refl, List, [], ◌∷◌, Array, arith}
use osito_k.Mem.Heap.{Heap, u32, heap_init, heap_size}
use osito_k.Mem.Heap.Blocks.{Block, free, used, Tiles, IsHeap}
use osito_k.Mem.Heap.Granted.{used_blocks}

-- `heap_init` leaves one free block, wherever the linker placed the heap.
pub heap_init-IsHeap :
    (heap_mem : ℕ) (p : Heap)
    → 0 < heap_mem
    → heap_mem + heap_size < u32
    → IsHeap (heap_init heap_mem p) (free heap_size ∷ [])
unfolding heap_init
heap_init-IsHeap heap_mem p pos fits = record {
  tiles = (record { header = ground arith; aligned = refl; least = omega arith }, ground arith);
  fits = ground arith;
  not_null = pos;
  extent = ground arith;
}

-- The used blocks lie one behind the other between `lo` and `stop`.
abbrev pub Apart : ℕ → ℕ → List (ℕ × ℕ) → Type 0
Apart lo stop [] = lo ≤ stop
Apart lo stop ((h, n) ∷ l) = (lo ≤ h) × (8 ≤ n) × Apart (h + n) stop l

Apart-le : (lo lo' stop : ℕ) (l : List (ℕ × ℕ)) → lo ≤ lo' → Apart lo' stop l → Apart lo stop l
Apart-le lo lo' stop [] le a = omega arith
Apart-le lo lo' stop ((h, n) ∷ l) le (x, y, z) = (omega arith, y, z)

pub Tiles-Apart :
    (mem : Array ℕ) (h : ℕ) (bs : List Block) (stop : ℕ)
    → Tiles mem h bs stop
    → Apart h stop (used_blocks h bs)
Tiles-Apart mem h [] stop t = omega (arith, t)
Tiles-Apart mem h (free n ∷ bs) stop t =
    Apart-le h (h + n) stop (used_blocks (h + n) bs) (omega arith)
      (Tiles-Apart mem (h + n) bs stop t.1)
Tiles-Apart mem h (used n ∷ bs) stop t =
    (omega arith, t.0.least, Tiles-Apart mem (h + n) bs stop t.1)

-- On a heap in order the used blocks are disjoint, each of at least 8 bytes, and lie in the heap.
pub used_blocks-Apart :
    {p : Heap} {bs : List Block}
    → IsHeap p bs
    → Apart p.heap_start p.heap_end (used_blocks p.heap_start bs)
used_blocks-Apart {p} {bs} v = Tiles-Apart p.mem p.heap_start bs p.heap_end v.tiles
