-- ===== src/Base/Search.antt =====
-- The first index of a range that passes a test: the shape of many loops.
use Prim.Native.Nat.{ℕ, zero, suc, ◌+◌, ◌≤◌, ◌<◌}
use mathlib.Core.Path.{◌≡◌, refl, ap}
use mathlib.Core.Bool.{Bool, true, false}
use mathlib.Core.Logic.{inl, inr}
use mathlib.Core.Option.{Option, none, some}
use native.Mathlib.Omega.{arith}
use native.Mathlib.Decide.{ℕ_discrete, dec_lt}
use osito_k.Base.Tests.{if◌then◌else◌, Bool-cases}

-- Among the `n` indices from `i` on.
unfoldable pub first_index : ℕ → (ℕ → Bool) → ℕ → Option ℕ
first_index zero test i = none
first_index (suc n) test i =
    let rest = first_index n test (i + 1) in if test i then some i else rest

abbrev pub First : (ℕ → Bool) → ℕ → ℕ → Option ℕ → Type 0
First test lo hi none = (j : ℕ) → lo ≤ j → j < hi → test j ≡ false
First test lo hi (some s) =
    (lo ≤ s) × (s < hi) × (test s ≡ true) × ((j : ℕ) → lo ≤ j → j < s → test j ≡ false)

here_or_later :
    (test : ℕ → Bool) (i j : ℕ)
    → i ≤ j
    → test i ≡ false
    → (i + 1 ≤ j → test j ≡ false)
    → test j ≡ false
here_or_later test i j lo f rest = elim (ℕ_discrete i j) [
  | yes e ↦ rw (← e) f
  | no ne ↦ rest (omega arith)
]

later :
    (test : ℕ → Bool) (i hi : ℕ) (r : Option ℕ)
    → First test (i + 1) hi r
    → test i ≡ false
    → First test i hi r
later test i hi none all f = λ j lo h. here_or_later test i j lo f (λ k. all j k h)
later test i hi (some s) (lo, h, t, all) f =
    (omega arith, h, t, λ j k m. here_or_later test i j k f (λ x. all j x m))

pub first_index-First :
    (n : ℕ) (test : ℕ → Bool) (i hi : ℕ) → i + n ≡ hi → First test i hi (first_index n test i)
unfolding first_index
first_index-First zero test i hi e = λ j lo h. absurd (omega arith)
first_index-First (suc n) test i hi e = elim (Bool-cases (test i)) [
  | inl t ↦ rw t (omega arith, omega arith, t, λ j lo h. absurd (omega arith))
  | inr f ↦ rw f (
      later test i hi (first_index n test (i + 1))
        (first_index-First n test (i + 1) hi (omega arith)) f)
]

-- Tests that agree on the range have the same first index.
pub First-unique :
    (f g : ℕ → Bool) (lo hi : ℕ) (r s : Option ℕ)
    → ((j : ℕ) → lo ≤ j → j < hi → f j ≡ g j)
    → First f lo hi r
    → First g lo hi s
    → r ≡ s
First-unique f g lo hi none none same a b = refl
First-unique f g lo hi none (some s) same a (ls, hs, ts, bs) = cc (same s ls hs, a s ls hs, ts)
First-unique f g lo hi (some r) none same (lr, hr, tr, br) b = cc (same r lr hr, b r lr hr, tr)
First-unique f g lo hi (some r) (some s) same (lr, hr, tr, br) (ls, hs, ts, bs) =
    elim (ℕ_discrete r s) [
      | yes e ↦ ap some e
      | no ne ↦ elim (dec_lt r s) [
        | yes lt ↦ cc (same r lr hr, bs r lr lt, tr)
        | no nlt ↦ cc (same s ls hs, br s ls (omega arith), ts)
      ]
    ]
