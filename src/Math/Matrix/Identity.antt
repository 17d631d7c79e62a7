-- ===== src/Math/Matrix/Identity.antt =====
-- The identity matrix changes nothing.
use osito_k.Base.{ℕ, zero, suc, ◌*◌, ◌^◌, ◌<◌, ◌≡◌, inl, inr, refl, Bool-cases, arith}
use osito_k.Math.Fixed.{fix16_one, is_negative, widened, fix_add, fix_mul}
use osito_k.Math.Matrix.{Vec3, Mat3, mat3_identity, mat3_multiply, mat3_transform}

fix_mul_one : (x : ℕ) → x < 2 ^ 32 → fix_mul fix16_one x ≡ x
unfolding fix_mul
fix_mul_one x h = elim (Bool-cases (is_negative x)) [
  | inl y ↦ rw y (omega arith)
  | inr n ↦ rw n (omega arith)
]

fix_mul_zero : (x : ℕ) → fix_mul 0 x ≡ 0
unfolding fix_mul
fix_mul_zero x = let e : 0 * widened x ≡ 0 = omega arith in rw e refl

-- Entries of a matrix, and coordinates, are words.
abbrev pub IsMat3 : Mat3 → Type 0
IsMat3 m = (i j : ℕ) → i < 3 → j < 3 → m i j < 2 ^ 32

abbrev pub IsVec3 : Vec3 → Type 0
IsVec3 v = (v.x < 2 ^ 32) × (v.y < 2 ^ 32) × (v.z < 2 ^ 32)

sum_first :
    (x y z : ℕ)
    → x < 2 ^ 32
    → fix_add (fix_add (fix_mul fix16_one x) (fix_mul 0 y)) (fix_mul 0 z) ≡ x
sum_first x y z h = rw (fix_mul_one x h, fix_mul_zero y, fix_mul_zero z) (omega arith)

sum_second :
    (x y z : ℕ)
    → y < 2 ^ 32
    → fix_add (fix_add (fix_mul 0 x) (fix_mul fix16_one y)) (fix_mul 0 z) ≡ y
sum_second x y z h = rw (fix_mul_zero x, fix_mul_one y h, fix_mul_zero z) (omega arith)

sum_third :
    (x y z : ℕ)
    → z < 2 ^ 32
    → fix_add (fix_add (fix_mul 0 x) (fix_mul 0 y)) (fix_mul fix16_one z) ≡ z
sum_third x y z h = rw (fix_mul_zero x, fix_mul_zero y, fix_mul_one z h) (omega arith)

identity_entry :
    (m : Mat3) → IsMat3 m → (i j : ℕ) → i < 3 → j < 3 → mat3_multiply mat3_identity m i j ≡ m i j
unfolding mat3_identity mat3_multiply
identity_entry m hm zero j hi hj = sum_first (m 0 j) (m 1 j) (m 2 j) (hm 0 j hi hj)
identity_entry m hm (suc zero) j hi hj = sum_second (m 0 j) (m 1 j) (m 2 j) (hm 1 j hi hj)
identity_entry m hm (suc (suc zero)) j hi hj = sum_third (m 0 j) (m 1 j) (m 2 j) (hm 2 j hi hj)
identity_entry m hm (suc (suc (suc i))) j hi hj = absurd (omega arith)

-- Multiplying the identity by a matrix gives that matrix, and transforming a vector by the identity
-- gives that vector, with no rounding and for every word.
pub mat3_identity_lem :
    (m : Mat3) (v : Vec3)
    → IsMat3 m
    → IsVec3 v
    → ((i j : ℕ) → i < 3 → j < 3 → mat3_multiply mat3_identity m i j ≡ m i j)
      × (mat3_transform mat3_identity v ≡ v)
unfolding mat3_identity mat3_multiply mat3_transform
mat3_identity_lem m v hm (hx, hy, hz) = (
  identity_entry m hm,
  rw (sum_first v.x v.y v.z hx, sum_second v.x v.y v.z hy, sum_third v.x v.y v.z hz) refl,
)
