-- ===== src/Mem/Heap/Exclusive.antt =====
-- What the clients of the heap do, step by step, and what they hold after it.
use osito_k.Base.{
  ℕ, ◌+◌, ◌≤◌, ◌<◌, ◌≡◌, ◌≢◌, ◌⊎◌, refl, ◌∙◌, subst, List, [], ◌∷◌, Array, All, All-map, All-and,
  Distinct, none, ◌-◌, arith,
}
use osito_k.Mem.Heap.{Heap, u32, heap_size, heap_init, heap_alloc}
use osito_k.Mem.Heap.Blocks.{Block, free}
use osito_k.Mem.Heap.Granted.{used_blocks}
use osito_k.Mem.Heap.Init.{Apart, used_blocks-Apart, heap_init-IsHeap}
use osito_k.Mem.Heap.Regions.{All-In, Apart-inside, Apart-Disjoint, OffPayload, Tiles-written}
use osito_k.Mem.Heap.Whole.{served_whole}
use osito_k.Mem.Heap.Release.{release-keeps, heap_free-heap_start}
use osito_k.Mem.Heap.Clients.{
  Clients, OutsideRegion, Step, Reach, allocate, refused, release, write, here, next, Backed, Owned,
  IsShared, Holds, heap_alloc-heap_start, allocate-keeps, refused-keeps,
}

write-keeps :
    {c : Clients} {bs : List Block} (mem : Array ℕ)
    → IsShared c bs
    → ((a : ℕ) → All (OutsideRegion c.sizes a) c.held → mem a ≡ c.heap.mem a)
    → Holds (record c { heap = record (c.heap) { mem = mem } })
unfolding Holds
write-keeps {c} {bs} mem v same =
    let us = used_blocks c.heap.heap_start bs in
    let off : (a : ℕ) → All (OffPayload a) us → All (OutsideRegion c.sizes a) c.held = λ a q.
      All-map (Backed us c.sizes) (OutsideRegion c.sizes a) c.held
        (λ k w.
          let o = All-In (OffPayload a) (w.at, w.size) us q w.stands in
          let b = w.behind in let r = w.room in omega arith)
        v.backed in
    (
      bs,
      record {
        heap = record {
          tiles =
              Tiles-written c.heap.mem mem c.heap.heap_start bs c.heap.heap_end []
                (λ a _ q. same a (off a q)) tt v.heap.tiles;
          fits = v.heap.fits;
          not_null = v.heap.not_null;
          extent = v.heap.extent;
        };
        backed = v.backed;
        distinct = v.distinct;
        owned = v.owned;
      },
    )

Step-Holds : {c d : Clients} → Step c d → Holds c → Holds d
unfolding Holds
Step-Holds (allocate size ptr pos small e) (bs, v) = allocate-keeps size ptr v pos small e
Step-Holds (refused size pos small e) (bs, v) = refused-keeps size v pos small e
Step-Holds (release ptr m) (bs, v) = release-keeps ptr v m
Step-Holds (write mem same) (bs, v) = write-keeps mem v same

Reach-Holds : {c d : Clients} → Holds c → Reach c d → Holds d
Reach-Holds h here = h
Reach-Holds h (next r st) = Step-Holds st (Reach-Holds h r)

Reach-heap_start : {c d : Clients} → Reach c d → d.heap.heap_start ≡ c.heap.heap_start
Reach-heap_start here = refl
Reach-heap_start (next {d = d} r (allocate size ptr pos small e)) =
    heap_alloc-heap_start d.heap size ∙ Reach-heap_start r
Reach-heap_start (next {d = d} r (refused size pos small e)) =
    heap_alloc-heap_start d.heap size ∙ Reach-heap_start r
Reach-heap_start (next {d = d} r (release ptr m)) =
    heap_free-heap_start d.heap ptr ∙ Reach-heap_start r
Reach-heap_start (next r (write mem same)) = Reach-heap_start r

-- No two of the regions that are held share a byte.
abbrev pub NoneMeet : Array ℕ → List ℕ → Type 0
NoneMeet sizes [] = Unit
NoneMeet sizes (p ∷ held) =
    All (λ q. (p + sizes p ≤ q) ⊎ (q + sizes q ≤ p)) held × NoneMeet sizes held

Backed-NoneMeet :
    (lo stop : ℕ) (us : List (ℕ × ℕ)) (sizes : Array ℕ) (held : List ℕ)
    → Apart lo stop us
    → All (Backed us sizes) held
    → Distinct held
    → NoneMeet sizes held
Backed-NoneMeet lo stop us sizes [] a w d = tt
Backed-NoneMeet lo stop us sizes (p ∷ held) a (w, ws) (d, ds) = (
  All-map (λ q. (q ≢ p) × Backed us sizes q) (λ q. (p + sizes p ≤ q) ⊎ (q + sizes q ≤ p)) held
      (λ q (ne, x).
        let b = w.behind in
        let b' = x.behind in
        let r = w.room in
        let r' = x.room in
        let m =
          Apart-Disjoint lo stop us (w.at, w.size) (x.at, x.size) a w.stands x.stands
            (λ z. ne (omega arith)) in
        omega arith)
      (All-and (λ q. q ≢ p) (Backed us sizes) held d ws),
  Backed-NoneMeet lo stop us sizes held a ws ds,
)

none_used : (us : List (ℕ × ℕ)) → All (Owned []) us → us ≡ []
none_used [] h = refl
none_used (u ∷ us) h = absurd h.0

-- From `heap_init` on, with the heap placed above 0 and ending below 2 ^ 32, whatever clients do that
-- ask for 1 to 2 ^ 32 - 8 bytes, free only what they hold, and write only into the bytes they asked
-- for: the bytes asked for at the addresses held lie in the heap, behind its first 4 bytes, and no
-- two regions share a byte. When nothing is held, `heap_alloc` serves every request of 1 to 8188
-- bytes, so no memory is lost.
pub heap-exclusive :
    (heap_mem : ℕ) (p : Heap) (sizes : Array ℕ) {c : Clients}
    → 0 < heap_mem
    → heap_mem + heap_size < u32
    → Reach (record { heap = heap_init heap_mem p; held = []; sizes = sizes }) c
    → Distinct c.held
      × All (λ ptr. (heap_mem + 4 ≤ ptr) × (ptr + c.sizes ptr ≤ heap_mem + heap_size)) c.held
      × NoneMeet c.sizes c.held
      × (c.held ≡ []
          → (size : ℕ) → 0 < size
          → size ≤ heap_size - 4
          → (heap_alloc c.heap size).1 ≢ none)
unfolding Holds heap_init
heap-exclusive heap_mem p sizes {c} pos fits r =
    let (bs, v) =
      Reach-Holds
        (
          free heap_size ∷ [],
          record {
            heap = heap_init-IsHeap heap_mem p pos fits;
            backed = tt;
            distinct = tt;
            owned = tt;
          },
        )
        r in
    let start : c.heap.heap_start ≡ heap_mem = Reach-heap_start r in
    let us = used_blocks c.heap.heap_start bs in
    let apart = used_blocks-Apart v.heap in
    let (inside, _) = Apart-inside c.heap.heap_start c.heap.heap_end us apart in
    let extent = v.heap.extent in
    (
      v.distinct,
      All-map (Backed us c.sizes)
          (λ ptr. (heap_mem + 4 ≤ ptr) × (ptr + c.sizes ptr ≤ heap_mem + heap_size)) c.held
          (λ k w.
            let i =
              All-In (λ u. (c.heap.heap_start ≤ u.0) × (u.0 + u.1 ≤ c.heap.heap_end)) (w.at, w.size)
                us inside w.stands in
            let b = w.behind in let room = w.room in (omega arith, omega arith))
          v.backed,
      Backed-NoneMeet c.heap.heap_start c.heap.heap_end us c.sizes c.held apart v.backed v.distinct,
      λ e size pos le.
          served_whole size v.heap (none_used us (subst (λ l. All (Owned l) us) e v.owned)) pos le,
    )
