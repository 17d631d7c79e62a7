-- ===== src/Base/Window.antt =====
-- A stretch of an array as a list.
use Prim.Native.Nat.{ℕ, zero, suc, ◌+◌, ◌<◌}
use mathlib.Core.Path.{◌≡◌, refl, ap₂}
use mathlib.Core.List.{List, [], ◌∷◌, ◌++◌}
use mathlib.Core.Logic.{◌≢◌}
use native.Mathlib.Omega.{arith}
use osito_k.Base.Tests.{◌==◌, if◌then◌else◌}
use osito_k.Base.Lists.{length}

-- A C array, or memory, as the function from an index to what stands there. That no index leaves
-- the array is proved where the program relies on it.
abbrev pub Array {ℓ} : Type ℓ → Type ℓ
Array A = ℕ → A

abbrev pub update {ℓ} : {A : Type ℓ} → Array A → ℕ → A → Array A
update f i v j = if i == j then v else f j

-- The elements `i … i + n - 1`.
abbrev pub window {ℓ} : {A : Type ℓ} → Array A → ℕ → ℕ → List A
window w i zero = []
window w i (suc n) = w i ∷ window w (i + 1) n

pub length-window {ℓ} : {A : Type ℓ} (w : Array A) (i n : ℕ) → length (window w i n) ≡ n
length-window w i zero = refl
length-window w i (suc n) = omega (arith, length-window w (i + 1) n)

-- Two arrays that agree on a range show the same window, also at an offset.
pub window_eq {ℓ} :
    {A : Type ℓ} (w u : Array A) (i j n : ℕ)
    → ((d : ℕ) → d < n → w (i + d) ≡ u (j + d))
    → window w i n ≡ window u j n
window_eq w u i j zero h = refl
window_eq w u i j (suc n) h =
    ap₂ ◌∷◌ (ground (arith, h 0))
      (window_eq w u (i + 1) (j + 1) n (λ d lt. ground (arith, h (d + 1))))

-- Writing behind the window appends.
pub window-snoc {ℓ} :
    {A : Type ℓ} (w : Array A) (i n p : ℕ) (x : A)
    → p ≡ i + n
    → window (update w p x) i (suc n) ≡ window w i n ++ x ∷ []
window-snoc w i zero p x e = ground arith
window-snoc w i (suc n) p x e = ap₂ ◌∷◌ (ground arith) (window-snoc w (i + 1) n p x (omega arith))

pub update_self {ℓ} : {A : Type ℓ} (f : Array A) (i : ℕ) (v : A) → update f i v i ≡ v
update_self f i v = ground arith

pub update_ne {ℓ} : {A : Type ℓ} (f : Array A) (i j : ℕ) (v : A) → i ≢ j → update f i v j ≡ f j
update_ne f i j v ne = ground arith
