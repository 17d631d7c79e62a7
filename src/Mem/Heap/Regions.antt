-- ===== src/Mem/Heap/Regions.antt =====
-- The used blocks of the heap as regions of memory: which they are, and that writing inside them
-- keeps the blocks.
use osito_k.Base.{
  ℕ, ◌+◌, ◌≤◌, ◌≡◌, ◌≢◌, ◌⊎◌, inl, inr, refl, ap, sym, subst, ◌∙◌, List, [], ◌∷◌, ◌++◌, Array, All,
  All-map, arith,
}
use osito_k.Mem.Heap.Blocks.{Block, free, used, Tiles}
use osito_k.Mem.Heap.Granted.{used_blocks}
use osito_k.Mem.Heap.Init.{Apart, Tiles-Apart}

-- The region stands in the list.
abbrev pub In : ℕ × ℕ → List (ℕ × ℕ) → Type 0
In u [] = ⊥
In u (x ∷ l) = (x ≡ u) ⊎ In u l

pub All-In {κ} : (P : ℕ × ℕ → Type κ) (u : ℕ × ℕ) (l : List (ℕ × ℕ)) → All P l → In u l → P u
All-In P u [] h m = absurd m
All-In P u (x ∷ l) h (inl e) = subst P e h.0
All-In P u (x ∷ l) h (inr m) = All-In P u l h.1 m

pub all_In {κ} : (P : ℕ × ℕ → Type κ) (l : List (ℕ × ℕ)) → ((u : ℕ × ℕ) → In u l → P u) → All P l
all_In P [] f = tt
all_In P (x ∷ l) f = (f x (inl refl), all_In P l (λ u m. f u (inr m)))

pub All-insert {κ} :
    (P : ℕ × ℕ → Type κ) (x : ℕ × ℕ) (front back : List (ℕ × ℕ))
    → P x
    → All P (front ++ back)
    → All P (front ++ x ∷ back)
All-insert P x [] back p h = (p, h)
All-insert P x (y ∷ front) back p h = (h.0, All-insert P x front back p h.1)

pub All-remove {κ} :
    (P : ℕ × ℕ → Type κ) (x : ℕ × ℕ) (front back : List (ℕ × ℕ))
    → All P (front ++ x ∷ back)
    → All P (front ++ back)
All-remove P x [] back h = h.1
All-remove P x (y ∷ front) back h = (h.0, All-remove P x front back h.1)

pub In-insert :
    (u x : ℕ × ℕ) (front back : List (ℕ × ℕ)) → In u (front ++ back) → In u (front ++ x ∷ back)
In-insert u x [] back m = inr m
In-insert u x (y ∷ front) back (inl e) = inl e
In-insert u x (y ∷ front) back (inr m) = inr (In-insert u x front back m)

pub In-middle : (u : ℕ × ℕ) (front back : List (ℕ × ℕ)) → In u (front ++ u ∷ back)
In-middle u [] back = inl refl
In-middle u (y ∷ front) back = inr (In-middle u front back)

pub In-remove :
    (u x : ℕ × ℕ) (front back : List (ℕ × ℕ))
    → x ≢ u
    → In u (front ++ x ∷ back)
    → In u (front ++ back)
In-remove u x [] back ne (inl e) = absurd (ne e)
In-remove u x [] back ne (inr m) = m
In-remove u x (y ∷ front) back ne (inl e) = inl e
In-remove u x (y ∷ front) back ne (inr m) = inr (In-remove u x front back ne m)

pub record Around (u : ℕ × ℕ) (l : List (ℕ × ℕ)) : Type 0 where
  pub front : List (ℕ × ℕ)
  pub back : List (ℕ × ℕ)
  pub is : l ≡ front ++ u ∷ back

pub around : (u : ℕ × ℕ) (l : List (ℕ × ℕ)) → In u l → Around u l
around u [] m = absurd m
around u (x ∷ l) (inl e) = record { front = []; back = l; is = ap (λ y. y ∷ l) e }
around u (x ∷ l) (inr m) =
    let r = around u l m in record { front = x ∷ r.front; back = r.back; is = ap (λ k. x ∷ k) r.is }

-- Two regions do not meet.
abbrev pub Disjoint : ℕ × ℕ → ℕ × ℕ → Type 0
Disjoint u v = (u.0 + u.1 ≤ v.0) ⊎ (v.0 + v.1 ≤ u.0)

pub Apart-inside :
    (lo stop : ℕ) (l : List (ℕ × ℕ))
    → Apart lo stop l
    → All (λ u. (lo ≤ u.0) × (u.0 + u.1 ≤ stop)) l × (lo ≤ stop)
Apart-inside lo stop [] a = (tt, a)
Apart-inside lo stop ((h, n) ∷ l) (x, y, z) =
    let (rest, le) = Apart-inside (h + n) stop l z in
    (
      (
        (x, le),
        All-map (λ u. (h + n ≤ u.0) × (u.0 + u.1 ≤ stop)) (λ u. (lo ≤ u.0) × (u.0 + u.1 ≤ stop)) l
            (λ u r. (omega arith, r.1)) rest,
      ),
      omega arith,
    )

-- Of two used blocks either is the same or they do not meet.
pub Apart-Disjoint :
    (lo stop : ℕ) (l : List (ℕ × ℕ)) (u v : ℕ × ℕ)
    → Apart lo stop l
    → In u l
    → In v l
    → u.0 ≢ v.0
    → Disjoint u v
Apart-Disjoint lo stop [] u v a m k ne = absurd m
Apart-Disjoint lo stop (x ∷ l) u v a (inl e) (inl f) ne =
    absurd (ne (ap (λ z. z.0) (sym e) ∙ ap (λ z. z.0) f))
Apart-Disjoint lo stop (x ∷ l) u v a (inl e) (inr k) ne =
    let r =
      All-In (λ z. (x.0 + x.1 ≤ z.0) × (z.0 + z.1 ≤ stop)) v l
        (Apart-inside (x.0 + x.1) stop l a.2).0 k in
    subst (λ z. Disjoint z v) e (inl r.0)
Apart-Disjoint lo stop (x ∷ l) u v a (inr m) (inl f) ne =
    let r =
      All-In (λ z. (x.0 + x.1 ≤ z.0) × (z.0 + z.1 ≤ stop)) u l
        (Apart-inside (x.0 + x.1) stop l a.2).0 m in
    subst (λ z. Disjoint u z) f (inr r.0)
Apart-Disjoint lo stop (x ∷ l) u v a (inr m) (inr k) ne =
    Apart-Disjoint (x.0 + x.1) stop l u v a.2 m k ne

-- Of the used blocks one begins at `b`.
pub granted_elsewhere :
    (stop b n : ℕ) (front back : List (ℕ × ℕ)) (lo : ℕ) (u : ℕ × ℕ)
    → Apart lo stop (front ++ (b, n) ∷ back)
    → In u (front ++ back)
    → u.0 ≢ b
granted_elsewhere stop b n [] back lo u a m =
    let r =
      All-In (λ z. (b + n ≤ z.0) × (z.0 + z.1 ≤ stop)) u back (Apart-inside (b + n) stop back a.2).0
        m in
    let least = a.1 in omega arith
granted_elsewhere stop b n (x ∷ front) back lo u a (inl e) =
    let r =
      All-In (λ z. (x.0 + x.1 ≤ z.0) × (z.0 + z.1 ≤ stop)) (b, n) (front ++ (b, n) ∷ back)
        (Apart-inside (x.0 + x.1) stop (front ++ (b, n) ∷ back) a.2).0
        (In-middle (b, n) front back) in
    let least = a.1 in let q = ap (λ z. z.0) e in omega arith
granted_elsewhere stop b n (x ∷ front) back lo u a (inr m) =
    granted_elsewhere stop b n front back (x.0 + x.1) u a.2 m

-- The address is a header or outside the region.
abbrev pub OffPayload : ℕ → ℕ × ℕ → Type 0
OffPayload a u = (a ≤ u.0) ⊎ (u.0 + u.1 ≤ a)

-- Writing only behind the headers of used blocks keeps the blocks; `seen` are the used blocks in
-- front of `h`.
pub Tiles-written :
    (mem mem' : Array ℕ) (h : ℕ) (bs : List Block) (stop : ℕ) (seen : List (ℕ × ℕ))
    → ((a : ℕ) → All (OffPayload a) seen → All (OffPayload a) (used_blocks h bs) → mem' a ≡ mem a)
    → All (λ u. u.0 + u.1 ≤ h) seen
    → Tiles mem h bs stop
    → Tiles mem' h bs stop
Tiles-written mem mem' h [] stop seen same before t = t
Tiles-written mem mem' h (free n ∷ bs) stop seen same before t =
    let ahead =
      (Apart-inside (h + n) stop (used_blocks (h + n) bs)
        (Tiles-Apart mem (h + n) bs stop t.1)).0 in
    let here = same h (All-map (λ u. u.0 + u.1 ≤ h) (OffPayload h) seen (λ u r. inr r) before) (
      All-map (λ u. (h + n ≤ u.0) × (u.0 + u.1 ≤ stop)) (OffPayload h) (used_blocks (h + n) bs)
        (λ u r. inl (omega arith)) ahead) in
    (
      record { header = here ∙ t.0.header; aligned = t.0.aligned; least = t.0.least },
      Tiles-written mem mem' (h + n) bs stop seen same
          (All-map (λ u. u.0 + u.1 ≤ h) (λ u. u.0 + u.1 ≤ h + n) seen (λ u r. omega arith) before)
          t.1,
    )
Tiles-written mem mem' h (used n ∷ bs) stop seen same before t =
    let ahead =
      (Apart-inside (h + n) stop (used_blocks (h + n) bs)
        (Tiles-Apart mem (h + n) bs stop t.1)).0 in
    let here = same h (All-map (λ u. u.0 + u.1 ≤ h) (OffPayload h) seen (λ u r. inr r) before) (
      inl (omega arith),
      All-map (λ u. (h + n ≤ u.0) × (u.0 + u.1 ≤ stop)) (OffPayload h) (used_blocks (h + n) bs)
          (λ u r. inl (omega arith)) ahead,
    ) in
    (
      record { header = here ∙ t.0.header; aligned = t.0.aligned; least = t.0.least },
      Tiles-written mem mem' (h + n) bs stop ((h, n) ∷ seen) (λ a s r. same a s.1 (s.0, r))
          (
            omega arith,
            All-map (λ u. u.0 + u.1 ≤ h) (λ u. u.0 + u.1 ≤ h + n) seen (λ u r. omega arith) before,
          )
          t.1,
    )
