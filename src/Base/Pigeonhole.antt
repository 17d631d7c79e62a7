-- ===== src/Base/Pigeonhole.antt =====
-- Lists of numbers that are all different, and how long they can be.
use Prim.Native.Nat.{ℕ, zero, suc, ◌+◌, ◌≤◌, ◌<◌}
use mathlib.Core.Logic.{◌≢◌, ◌⊎◌, inl, inr}
use mathlib.Core.Path.{◌≡◌, refl, ap, subst}
use mathlib.Core.List.{List, [], ◌∷◌, ◌++◌}
use native.Mathlib.Omega.{arith}
use native.Mathlib.Decide.{ℕ_discrete}
use osito_k.Base.Lists.{length}

-- `P` holds of each element.
abbrev pub All {ℓ κ} : {A : Type ℓ} → (A → Type κ) → List A → Type κ
All P [] = Unit
All P (x ∷ xs) = P x × All P xs

abbrev pub Distinct : List ℕ → Type 0
Distinct [] = Unit
Distinct (x ∷ xs) = All (λ y. y ≢ x) xs × Distinct xs

pub All-map {ℓ κ μ} :
    {A : Type ℓ} (P : A → Type κ) (Q : A → Type μ) (xs : List A)
    → ((a : A) → P a → Q a)
    → All P xs
    → All Q xs
All-map P Q [] f h = tt
All-map P Q (x ∷ xs) f h = (f x h.0, All-map P Q xs f h.1)

pub All-and {ℓ κ μ} :
    {A : Type ℓ} (P : A → Type κ) (Q : A → Type μ) (xs : List A)
    → All P xs
    → All Q xs
    → All (λ a. P a × Q a) xs
All-and P Q [] h k = tt
All-and P Q (x ∷ xs) h k = ((h.0, k.0), All-and P Q xs h.1 k.1)

pub All-snoc {ℓ κ} :
    {A : Type ℓ} (P : A → Type κ) (xs : List A) (a : A) → All P xs → P a → All P (xs ++ a ∷ [])
All-snoc P [] a h p = (p, tt)
All-snoc P (x ∷ xs) a h p = (h.0, All-snoc P xs a h.1 p)

pub Distinct-snoc :
    (xs : List ℕ) (a : ℕ) → Distinct xs → All (λ y. y ≢ a) xs → Distinct (xs ++ a ∷ [])
Distinct-snoc [] a d h = (tt, tt)
Distinct-snoc (x ∷ xs) a d h =
    (All-snoc (λ y. y ≢ x) xs a d.0 (λ e. h.0 (omega arith)), Distinct-snoc xs a d.1 h.1)

-- The list without the first `a`.
unfoldable pub erase : ℕ → List ℕ → List ℕ
erase a [] = []
erase a (x ∷ xs) = elim (ℕ_discrete x a) [ yes _ ↦ xs | no _ ↦ x ∷ erase a xs ]

length-erase-le : (a : ℕ) (xs : List ℕ) → length xs ≤ length (erase a xs) + 1
unfolding erase
length-erase-le a [] = omega arith
length-erase-le a (x ∷ xs) =
    elim (ℕ_discrete x a)
      as (λ d. length (x ∷ xs) ≤ length (elim d [ yes _ ↦ xs | no _ ↦ x ∷ erase a xs ]) + 1) [
        | yes p ↦ omega arith
        | no p ↦ omega (arith, length-erase-le a xs)
      ]

pub All-erase {κ} : (P : ℕ → Type κ) (a : ℕ) (xs : List ℕ) → All P xs → All P (erase a xs)
unfolding erase
All-erase P a [] h = tt
All-erase P a (x ∷ xs) h =
    elim (ℕ_discrete x a) as (λ d. All P (elim d [ yes _ ↦ xs | no _ ↦ x ∷ erase a xs ])) [
      | yes p ↦ h.1
      | no p ↦ (h.0, All-erase P a xs h.1)
    ]

pub Distinct-erase :
    (a : ℕ) (xs : List ℕ) → Distinct xs → Distinct (erase a xs) × All (λ y. y ≢ a) (erase a xs)
unfolding erase
Distinct-erase a [] d = (tt, tt)
Distinct-erase a (x ∷ xs) d =
    elim (ℕ_discrete x a)
      as (λ c.
        Distinct (elim c [ yes _ ↦ xs | no _ ↦ x ∷ erase a xs ])
        × All (λ y. y ≢ a) (elim c [ yes _ ↦ xs | no _ ↦ x ∷ erase a xs ])) [
          | yes p ↦ (d.1, All-map (λ y. y ≢ x) (λ y. y ≢ a) xs (λ y ne e. ne (omega arith)) d.0)
          | no p ↦
              let (d', n) = Distinct-erase a xs d.1 in
              ((All-erase (λ y. y ≢ x) a xs d.0, d'), (p, n))
        ]

below-pred :
    (m : ℕ) (xs : List ℕ) → All (λ y. y < suc m) xs → All (λ y. y ≢ m) xs → All (λ y. y < m) xs
below-pred m [] h n = tt
below-pred m (x ∷ xs) h n = (let p = n.0 in omega arith, below-pred m xs h.1 n.1)

-- The pigeonhole principle.
pub length_of_Distinct : (m : ℕ) (xs : List ℕ) → Distinct xs → All (λ y. y < m) xs → length xs ≤ m
length_of_Distinct zero [] d h = omega arith
length_of_Distinct zero (x ∷ xs) d h = absurd (omega arith)
length_of_Distinct (suc m) xs d h =
    let (d', n) = Distinct-erase m xs d in
    omega (
      arith,
      length-erase-le m xs,
      length_of_Distinct m (erase m xs) d'
          (below-pred m (erase m xs) (All-erase (λ y. y < suc m) m xs h) n),
    )

abbrev pub Has : ℕ → List ℕ → Type 0
Has a [] = ⊥
Has a (x ∷ xs) = (x ≡ a) ⊎ Has a xs

pub length-erase : (a : ℕ) (xs : List ℕ) → Has a xs → length (erase a xs) + 1 ≡ length xs
unfolding erase
length-erase a [] h = absurd h
length-erase a (x ∷ xs) h =
    elim (ℕ_discrete x a)
      as (λ d. length (elim d [ yes _ ↦ xs | no _ ↦ x ∷ erase a xs ]) + 1 ≡ length (x ∷ xs)) [
        | yes p ↦ omega arith
        | no p ↦ omega (arith, length-erase a xs (elim h [ inl e ↦ absurd (p e) | inr r ↦ r ]))
      ]

pub All-Has {κ} : (P : ℕ → Type κ) (a : ℕ) (xs : List ℕ) → All P xs → Has a xs → P a
All-Has P a [] h m = absurd m
All-Has P a (x ∷ xs) h (inl e) = subst P e h.0
All-Has P a (x ∷ xs) h (inr m) = All-Has P a xs h.1 m

-- A relation that holds of all pairs, read the other way round.
pub All-All {κ} :
    (R : ℕ → ℕ → Type κ) (xs ys : List ℕ)
    → All (λ x. All (R x) ys) xs
    → All (λ y. All (λ x. R x y) xs) ys
All-All R xs [] h = tt
All-All R xs (y ∷ ys) h = (
  All-map (λ x. All (R x) (y ∷ ys)) (λ x. R x y) xs (λ x a. a.0) h,
  All-All R xs ys (All-map (λ x. All (R x) (y ∷ ys)) (λ x. All (R x) ys) xs (λ x a. a.1) h),
)

pub erase-append :
    (t : ℕ) (pre post : List ℕ) → All (λ x. x ≢ t) pre → erase t (pre ++ t ∷ post) ≡ pre ++ post
unfolding erase
erase-append t [] post h =
    elim (ℕ_discrete t t) as (λ d. elim d [ yes _ ↦ post | no _ ↦ t ∷ erase t post ] ≡ post) [
      | yes _ ↦ refl
      | no ne ↦ absurd (ne refl)
    ]
erase-append t (x ∷ pre) post h =
    elim (ℕ_discrete x t)
      as (λ d.
        elim d [ yes _ ↦ pre ++ t ∷ post | no _ ↦ x ∷ erase t (pre ++ t ∷ post) ]
        ≡ x ∷ (pre ++ post)) [
          | yes e ↦ absurd (h.0 e)
          | no _ ↦ ap (λ l. x ∷ l) (erase-append t pre post h.1)
        ]

pub erase_none : (t : ℕ) (l : List ℕ) → All (λ x. x ≢ t) l → erase t l ≡ l
unfolding erase
erase_none t [] h = refl
erase_none t (x ∷ l) h =
    elim (ℕ_discrete x t) as (λ d. elim d [ yes _ ↦ l | no _ ↦ x ∷ erase t l ] ≡ x ∷ l) [
      | yes e ↦ absurd (h.0 e)
      | no _ ↦ ap (λ k. x ∷ k) (erase_none t l h.1)
    ]

pub Has-append : (t : ℕ) (pre post : List ℕ) → Has t (pre ++ t ∷ post)
Has-append t [] post = inl refl
Has-append t (x ∷ pre) post = inr (Has-append t pre post)

pub erase_shorter : (a : ℕ) (xs : List ℕ) → length (erase a xs) ≤ length xs
unfolding erase
erase_shorter a [] = omega arith
erase_shorter a (x ∷ xs) =
    elim (ℕ_discrete x a)
      as (λ d. length (elim d [ yes _ ↦ xs | no _ ↦ x ∷ erase a xs ]) ≤ length (x ∷ xs)) [
        | yes p ↦ omega arith
        | no p ↦ omega (arith, erase_shorter a xs)
      ]

pub Has-erase : (a p : ℕ) (xs : List ℕ) → Has a xs → a ≢ p → Has a (erase p xs)
unfolding erase
Has-erase a p [] h ne = absurd h
Has-erase a p (x ∷ xs) h ne =
    elim (ℕ_discrete x p) as (λ d. Has a (elim d [ yes _ ↦ xs | no _ ↦ x ∷ erase p xs ])) [
      | yes e ↦ elim h [ inl q ↦ absurd (ne (omega arith)) | inr m ↦ m ]
      | no _ ↦ elim h [ inl q ↦ inl q | inr m ↦ inr (Has-erase a p xs m ne) ]
    ]
