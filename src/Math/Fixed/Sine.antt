-- ===== src/Math/Fixed/Sine.antt =====
-- The symmetries of the table of sines, found by looking at every entry.
use osito_k.Base.{
  ℕ, zero, suc, ◌+◌, ◌-◌, ◌%◌, ◌<◌, ◌≤◌, ◌≡◌, inl, inr, refl, Bool, true, false, leb, ◌==◌,
  if◌then◌else◌, Bool-cases, ==_iff, leb→le, arith,
}
use native.Mathlib.Decide.{ℕ_discrete}
use osito_k.Math.Fixed.{fix_sin, fix_neg, fix_abs, fix16_one}

abbrev all_below : ℕ → (ℕ → Bool) → Bool
all_below zero p = true
all_below (suc n) p = if p n then all_below n p else false

all_below_lem : (n : ℕ) (p : ℕ → Bool) → all_below n p ≡ true → (i : ℕ) → i < n → p i ≡ true
all_below_lem zero p h i lt = absurd (omega arith)
all_below_lem (suc n) p h i lt = elim (Bool-cases (p n)) [
  | inl y ↦ elim (ℕ_discrete i n) [
    | yes e ↦ rw e y
    | no ne ↦ all_below_lem n p (rw y at h) i (omega arith)
  ]
  | inr f ↦ let c : false ≡ true = rw f at h in absurd (ground arith)
]

abbrev half_turn : ℕ → Bool
half_turn a = fix_sin ((a + 128) % 256) == fix_neg (fix_sin a)

abbrev mirrored : ℕ → Bool
mirrored a = fix_sin ((384 - a) % 256) == fix_sin a

abbrev small : ℕ → Bool
small a = leb (fix_abs (fix_sin a)) fix16_one

half_turn_all : all_below 256 half_turn ≡ true
half_turn_all = refl

mirrored_all : all_below 256 mirrored ≡ true
mirrored_all = refl

small_all : all_below 256 small ≡ true
small_all = refl

-- For every angle: half a turn further the sine is the negative one; the angle mirrored at the quarter
-- turn, 128 - angle, has the same sine; no sine is above 1 or below -1.
pub fix_sin_lem :
    (angle : ℕ)
    → angle < 256
    → (fix_sin ((angle + 128) % 256) ≡ fix_neg (fix_sin angle))
      × (fix_sin ((384 - angle) % 256) ≡ fix_sin angle)
      × (fix_abs (fix_sin angle) ≤ fix16_one)
fix_sin_lem angle h =
    let a : half_turn angle ≡ true = all_below_lem 256 half_turn half_turn_all angle h in
    let b : mirrored angle ≡ true = all_below_lem 256 mirrored mirrored_all angle h in
    let c : small angle ≡ true = all_below_lem 256 small small_all angle h in
    (
      (==_iff (fix_sin ((angle + 128) % 256)) (fix_neg (fix_sin angle))).0 a,
      (==_iff (fix_sin ((384 - angle) % 256)) (fix_sin angle)).0 b,
      leb→le (fix_abs (fix_sin angle)) fix16_one c,
    )
