-- ===== src/Mem/Heap/Release.antt =====
-- A free by a client of the heap.
use osito_k.Base.{
  ℕ, ◌+◌, ◌≡◌, ◌≢◌, ap, sym, subst, List, ◌++◌, All, All-map, All-and, All-Has, All-erase,
  Distinct-erase, Has, Has-erase, erase, arith,
}
use osito_k.Mem.Heap.{Heap, heap_free}
use osito_k.Mem.Heap.Blocks.{Block, IsHeap}
use osito_k.Mem.Heap.Granted.{used_blocks}
use osito_k.Mem.Heap.Init.{Apart, used_blocks-Apart}
use osito_k.Mem.Heap.Free.{heap_free_lem}
use osito_k.Mem.Heap.Regions.{In, All-In, all_In, All-remove, granted_elsewhere, In-remove, around}
use osito_k.Mem.Heap.Clients.{Clients, Backed, Owned, IsShared, Holds}

pub heap_free-heap_start : (p : Heap) (ptr : ℕ) → (heap_free p ptr).heap_start ≡ p.heap_start
unfolding heap_free
heap_free-heap_start p ptr = ground arith

pub release-keeps :
    {c : Clients} {bs : List Block} (ptr : ℕ)
    → IsShared c bs
    → Has ptr c.held
    → Holds (record c { heap = heap_free c.heap ptr; held = erase ptr c.held })
unfolding Holds
release-keeps {c} {bs} ptr v h =
    let us = used_blocks c.heap.heap_start bs in
    let w = All-Has (Backed us c.sizes) ptr c.held v.backed h in
    let r = around (w.at, w.size) us w.stands in
    let (cs, heap, us') = (heap_free_lem w.at w.size r.front r.back v.heap r.is).0 in
    let (distinct, others) = Distinct-erase ptr c.held v.distinct in
    let start = heap_free-heap_start c.heap (w.at + 4) in
    let behind = w.behind in
    let backed =
      All-map (λ k. (k ≢ ptr) × Backed us c.sizes k) (Backed (r.front ++ r.back) c.sizes)
        (erase ptr c.held)
        (λ k (ne, x). record {
          at = x.at;
          size = x.size;
          stands =
              In-remove (x.at, x.size) (w.at, w.size) r.front r.back
                (λ z. let q = ap (λ u. u.0) z in let b = x.behind in ne (omega arith))
                (subst (In (x.at, x.size)) r.is x.stands);
          behind = x.behind;
          room = x.room;
        })
        (All-and (λ k. k ≢ ptr) (Backed us c.sizes) (erase ptr c.held) others
          (All-erase (Backed us c.sizes) ptr c.held v.backed)) in
    let apart = subst (Apart c.heap.heap_start c.heap.heap_end) r.is (used_blocks-Apart v.heap) in
    let owned = all_In (Owned (erase ptr c.held)) (r.front ++ r.back) (λ u m.
      let ne =
        granted_elsewhere c.heap.heap_end w.at w.size r.front r.back c.heap.heap_start u apart m in
      Has-erase (u.0 + 4) ptr c.held
        (All-In (Owned c.held) u (r.front ++ r.back)
          (All-remove (Owned c.held) (w.at, w.size) r.front r.back
            (subst (All (Owned c.held)) r.is v.owned))
          m)
        (λ z. ne (omega arith))) in
    (
      cs,
      record {
        heap = subst (λ a. IsHeap (heap_free c.heap a) cs) (sym behind) heap;
        backed =
            subst
              (λ a.
                All (Backed (used_blocks (heap_free c.heap a).heap_start cs) c.sizes)
                  (erase ptr c.held))
              (sym behind)
              (subst (λ a. All (Backed (used_blocks a cs) c.sizes) (erase ptr c.held)) (sym start)
                (subst (λ l. All (Backed l c.sizes) (erase ptr c.held)) (sym us') backed));
        distinct = distinct;
        owned =
            subst
              (λ a. All (Owned (erase ptr c.held)) (used_blocks (heap_free c.heap a).heap_start cs))
              (sym behind)
              (subst (λ a. All (Owned (erase ptr c.held)) (used_blocks a cs)) (sym start)
                (subst (All (Owned (erase ptr c.held))) (sym us') owned));
      },
    )
