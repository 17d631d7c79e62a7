-- ===== src/Mem/Heap/Whole.antt =====
-- The heap when none of its blocks is used.
use osito_k.Base.{ℕ, ◌+◌, ◌≤◌, ◌<◌, ◌≡◌, ◌≢◌, subst, List, [], ◌∷◌, none, ◌-◌, arith}
use osito_k.Mem.Heap.{Heap, heap_size, heap_alloc, need_of}
use osito_k.Mem.Heap.Blocks.{Block, free, used, IsHeap, total, Tiles-total}
use osito_k.Mem.Heap.Granted.{used_blocks, longest_run}
use osito_k.Mem.Heap.Alloc.{Served, heap_alloc-Served}

longest_run-total :
    (h acc : ℕ) (bs : List Block) → used_blocks h bs ≡ [] → longest_run acc bs ≡ acc + total bs
longest_run-total h acc [] e = omega arith
longest_run-total h acc (free n ∷ bs) e = omega (arith, longest_run-total (h + n) (acc + n) bs e)
longest_run-total h acc (used n ∷ bs) e = absurd (cc e)

need_of-le : (size : ℕ) → size ≤ heap_size - 4 → need_of size ≤ heap_size
unfolding need_of
need_of-le size le = ground arith

-- A heap with no used block serves every request that fits into it.
pub served_whole :
    {p : Heap} {bs : List Block} (size : ℕ)
    → IsHeap p bs
    → used_blocks p.heap_start bs ≡ []
    → 0 < size
    → size ≤ heap_size - 4
    → (heap_alloc p size).1 ≢ none
served_whole {p} {bs} size v e pos le q =
    let ((cs, w, served), same, room, more) = heap_alloc-Served size v pos (omega arith) in
    let (short, us) = subst (λ r. Served (need_of size) p.heap_start bs cs r) q served in
    let run = longest_run-total p.heap_start 0 bs e in
    let (sum, least) = Tiles-total p.mem p.heap_start bs p.heap_end v.tiles in
    let extent = v.extent in let need = need_of-le size le in omega arith
