-- ===== src/Mem/Heap/Clients.antt =====
-- Any sequence of allocations and frees by tasks that free only what they hold and write only into
-- what they hold.
use osito_k.Base.{
  ℕ, ◌+◌, ◌-◌, ◌≤◌, ◌<◌, ◌≡◌, ◌≢◌, ◌⊎◌, inl, inr, refl, sym, subst, none, some, List, ◌∷◌, ◌++◌,
  Array, update, All, All-map, Distinct, Has, erase, arith, Bool-cases, ◌==◌,
}
use osito_k.Mem.Heap.{Heap, u32, need_of, heap_alloc, heap_free}
use osito_k.Mem.Heap.Blocks.{Block, IsHeap}
use osito_k.Mem.Heap.Granted.{used_blocks, Grants}
use osito_k.Mem.Heap.Init.{Apart, used_blocks-Apart}
use osito_k.Mem.Heap.Alloc.{Served, heap_alloc-Served}
use osito_k.Mem.Heap.Regions.{In, In-insert, All-insert, granted_elsewhere, In-middle}

-- The heap, the addresses that tasks hold, and how many bytes were asked for at each.
pub record Clients : Type 0 where
  pub heap : Heap
  pub held : List ℕ
  pub sizes : Array ℕ

-- Address `a` is none of the bytes that were asked for at `ptr`.
abbrev pub OutsideRegion : Array ℕ → ℕ → ℕ → Type 0
OutsideRegion sizes a ptr = (a < ptr) ⊎ (ptr + sizes ptr ≤ a)

pub data Step (c : Clients) : Clients → Type 0 where
  allocate :
      (size ptr : ℕ)
      → 0 < size
      → size ≤ u32 - 8
      → (heap_alloc c.heap size).1 ≡ some ptr
      → Step c (record {
        heap = (heap_alloc c.heap size).0;
        held = ptr ∷ c.held;
        sizes = update c.sizes ptr size;
      })
  refused :
      (size : ℕ)
      → 0 < size
      → size ≤ u32 - 8
      → (heap_alloc c.heap size).1 ≡ none
      → Step c (record c { heap = (heap_alloc c.heap size).0 })
  release :
      (ptr : ℕ)
      → Has ptr c.held
      → Step c (record c { heap = heap_free c.heap ptr; held = erase ptr c.held })
  write :
      (mem : Array ℕ)
      → ((a : ℕ) → All (OutsideRegion c.sizes a) c.held → mem a ≡ c.heap.mem a)
      → Step c (record c { heap = record (c.heap) { mem = mem } })

pub data Reach (c : Clients) : Clients → Type 0 where
  here : Reach c c
  next : {d e : Clients} → Reach c d → Step d e → Reach c e

-- A used block that has room for what was asked for at `ptr` begins 4 bytes before it.
pub record Backed (us : List (ℕ × ℕ)) (sizes : Array ℕ) (ptr : ℕ) : Type 0 where
  pub at : ℕ
  pub size : ℕ
  pub stands : In (at, size) us
  pub behind : ptr ≡ at + 4
  pub room : sizes ptr + 4 ≤ size

-- The bytes behind the header of the used block are held.
abbrev pub Owned : List ℕ → ℕ × ℕ → Type 0
Owned held u = Has (u.0 + 4) held

pub record IsShared (c : Clients) (bs : List Block) : Type 0 where
  pub heap : IsHeap c.heap bs
  pub backed : All (Backed (used_blocks c.heap.heap_start bs) c.sizes) c.held
  pub distinct : Distinct c.held
  pub owned : All (Owned c.held) (used_blocks c.heap.heap_start bs)

unfoldable pub Holds : Clients → Type 0
Holds c = (bs : List Block) × IsShared c bs

pub heap_alloc-heap_start : (p : Heap) (size : ℕ) → (heap_alloc p size).0.heap_start ≡ p.heap_start
unfolding heap_alloc
heap_alloc-heap_start p size = elim (Bool-cases (size == 0)) [
  | inl e ↦ rw e refl
  | inr e ↦ rw e refl
]

grant-keeps :
    (us us' : List (ℕ × ℕ)) (held : List ℕ) (sizes : Array ℕ) (lo stop need size ptr b : ℕ)
    → Grants need us us' b
    → Apart lo stop us'
    → ptr ≡ b + 4
    → size + 4 ≤ need
    → All (Backed us sizes) held
    → All (λ k. k ≢ ptr) held × All (Backed us' (update sizes ptr size)) (ptr ∷ held)
grant-keeps us us' held sizes lo stop need size ptr b g apart e room backed =
    let old : (k : ℕ) → Backed us sizes k → (k ≢ ptr) × Backed us' (update sizes ptr size) k =
      λ k w.
        let m = subst (In (w.at, w.size)) g.before_is w.stands in
        let ne =
          granted_elsewhere stop b g.size g.front g.back lo (w.at, w.size)
            (subst (Apart lo stop) g.after_is apart) m in
        let behind = w.behind in
        let other : k ≢ ptr = λ z. ne (omega arith) in
        (
          other,
          record {
            at = w.at;
            size = w.size;
            stands =
                subst (In (w.at, w.size)) (sym g.after_is)
                  (In-insert (w.at, w.size) (b, g.size) g.front g.back m);
            behind = behind;
            room = let r = w.room in ground arith;
          },
        ) in
    (
      All-map (Backed us sizes) (λ k. k ≢ ptr) held (λ k w. (old k w).0) backed,
      (
        record {
          at = b;
          size = g.size;
          stands = subst (In (b, g.size)) (sym g.after_is) (In-middle (b, g.size) g.front g.back);
          behind = e;
          room = let r = g.enough in ground arith;
        },
        All-map (Backed us sizes) (Backed us' (update sizes ptr size)) held (λ k w. (old k w).1)
            backed,
      ),
    )

grant-Owned :
    (us us' : List (ℕ × ℕ)) (held : List ℕ) (need ptr b : ℕ)
    → Grants need us us' b
    → ptr ≡ b + 4
    → All (Owned held) us
    → All (Owned (ptr ∷ held)) us'
grant-Owned us us' held need ptr b g e owned = subst (All (Owned (ptr ∷ held))) (sym g.after_is) (
    All-insert (Owned (ptr ∷ held)) (b, g.size) g.front g.back (inl e)
      (All-map (Owned held) (Owned (ptr ∷ held)) (g.front ++ g.back) (λ u h. inr h)
        (subst (All (Owned held)) g.before_is owned)))

pub allocate-keeps :
    {c : Clients} {bs : List Block} (size ptr : ℕ)
    → IsShared c bs
    → 0 < size
    → size ≤ u32 - 8
    → (heap_alloc c.heap size).1 ≡ some ptr
    → Holds (record {
      heap = (heap_alloc c.heap size).0;
      held = ptr ∷ c.held;
      sizes = update c.sizes ptr size;
    })
unfolding Holds
allocate-keeps {c} {bs} size ptr v pos small e =
    let ((cs, w, served), same, room, more) = heap_alloc-Served size v.heap pos small in
    let start = heap_alloc-heap_start c.heap size in
    let (long, (b, at, g)) =
      subst (λ r. Served (need_of size) c.heap.heap_start bs cs r) e served in
    let apart =
      subst (λ h. Apart h (heap_alloc c.heap size).0.heap_end (used_blocks h cs)) start
        (used_blocks-Apart w) in
    let (other, backed) =
      grant-keeps _ _ c.held c.sizes c.heap.heap_start (heap_alloc c.heap size).0.heap_end
        (need_of size) size ptr b g apart at room v.backed in
    (
      cs,
      record {
        heap = w;
        backed =
            subst (λ h. All (Backed (used_blocks h cs) (update c.sizes ptr size)) (ptr ∷ c.held))
              (sym start) backed;
        distinct = (other, v.distinct);
        owned =
            subst (λ h. All (Owned (ptr ∷ c.held)) (used_blocks h cs)) (sym start)
              (grant-Owned _ _ c.held (need_of size) ptr b g at v.owned);
      },
    )

pub refused-keeps :
    {c : Clients} {bs : List Block} (size : ℕ)
    → IsShared c bs
    → 0 < size
    → size ≤ u32 - 8
    → (heap_alloc c.heap size).1 ≡ none
    → Holds (record c { heap = (heap_alloc c.heap size).0 })
unfolding Holds
refused-keeps {c} {bs} size v pos small e =
    let ((cs, w, served), same, room, more) = heap_alloc-Served size v.heap pos small in
    let (short, us) = subst (λ r. Served (need_of size) c.heap.heap_start bs cs r) e served in
    (
      cs,
      record {
        heap = w;
        backed =
            subst (λ h. All (Backed (used_blocks h cs) c.sizes) c.held)
              (sym (heap_alloc-heap_start c.heap size))
              (subst (λ l. All (Backed l c.sizes) c.held) (sym us) v.backed);
        distinct = v.distinct;
        owned =
            subst (λ h. All (Owned c.held) (used_blocks h cs))
              (sym (heap_alloc-heap_start c.heap size))
              (subst (All (Owned c.held)) (sym us) v.owned);
      },
    )
