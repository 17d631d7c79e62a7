-- ===== src/Drivers/Video/Error.antt =====
-- The error that the loops of `fb_line` carry along.
use osito_k.Base.{
  ℕ, ◌+◌, ◌-◌, ◌*◌, ◌/◌, ◌^◌, ◌≤◌, ◌<◌, ◌≡◌, inl, inr, if◌then◌else◌, Bool-cases, arith,
}
use native.Mathlib.Nat.{div-eq_of_lt-le}
use osito_k.Drivers.Video.{int_add, int_sub, int_is_negative}
use osito_k.Drivers.Video.Points.{rounded}

pub div_exact : (q d r : ℕ) → r < d → (q * d + r) / d ≡ q
div_exact q d r h =
    let pos : 0 < d = omega arith in
    let next : (q + 1) * d ≡ q * d + d = omega arith in
    div-eq_of_lt-le d (omega arith) (omega arith)

-- After `i` steps the error is `n / 2 - i * m + k * n`, with `k` the steps of the other coordinate.
pub record IsError (n m i k err : ℕ) : Type 0 where
  pub below : err < n
  pub within : k ≤ i
  pub sum : err + i * m ≡ n / 2 + k * n

pub IsError-rounded : (n m i k err : ℕ) → IsError n m i k err → rounded n m i ≡ k
IsError-rounded n m i k err v =
    let q : i * m + (n - 1) / 2 ≡ k * n + (n - 1 - err) = omega (arith, v.sum, v.below) in
    rw q (div_exact k n (n - 1 - err) (omega (arith, v.below)))

pub IsError-start : (n m : ℕ) → 0 < n → IsError n m 0 0 (n / 2)
IsError-start n m h = record { below = omega arith; within = omega arith; sum = omega arith }

abbrev pub next_err : ℕ → ℕ → ℕ → ℕ
next_err n m err = let less = int_sub err m in if int_is_negative less then int_add less n else less

pub IsError-next :
    (n m i k err : ℕ)
    → n < 2 ^ 31
    → m ≤ n
    → IsError n m i k err
    → IsError n m (i + 1) (if int_is_negative (int_sub err m) then k + 1 else k) (next_err n m err)
IsError-next n m i k err small le v =
    let p : (i + 1) * m ≡ i * m + m = omega arith in
    let q : (k + 1) * n ≡ k * n + n = omega arith in
    elim (Bool-cases (int_is_negative (int_sub err m))) [
      | inl y ↦
          rw y
            (record { below = ground arith; within = omega (arith, v.within); sum = ground arith })
      | inr stays ↦
          rw stays
            (record { below = ground arith; within = omega (arith, v.within); sum = ground arith })
    ]
