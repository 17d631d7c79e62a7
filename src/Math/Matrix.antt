-- ===== src/Math/Matrix.antt =====
-- Vectors and matrices: src/math/matrix3.h and matrix3.cpp. A matrix is the function from row and
-- column, both below 3, to the entry.
pub mod Identity
use osito_k.Base.{
  ℕ, zero, suc, ◌+◌, ◌-◌, ◌*◌, ◌/◌, ◌%◌, ◌^◌, Bool, true, false, ◌||◌, Option, none, some, Array,
  leb, if◌then◌else◌,
}
use osito_k.Math.Fixed.{
  fix16_one, fix16_half, is_negative, fix_add, fix_sub, fix_neg, fix_mul, fix_sin, fix_cos, fix_div,
  fix_sqrt,
}

-- `vec3_t`
pub record Vec3 : Type 0 where
  pub x : ℕ
  pub y : ℕ
  pub z : ℕ

-- `mat3_t`
abbrev pub Mat3 : Type 0
Mat3 = Array (Array ℕ)

abbrev pub row : ℕ → ℕ → ℕ → Array ℕ
row a b c zero = a
row a b c (suc zero) = b
row a b c (suc (suc j)) = c

abbrev pub rows : Array ℕ → Array ℕ → Array ℕ → Mat3
rows a b c zero = a
rows a b c (suc zero) = b
rows a b c (suc (suc i)) = c

unfoldable pub vec3_add : Vec3 → Vec3 → Vec3
vec3_add a b = record { x = fix_add a.x b.x; y = fix_add a.y b.y; z = fix_add a.z b.z }

unfoldable pub vec3_sub : Vec3 → Vec3 → Vec3
vec3_sub a b = record { x = fix_sub a.x b.x; y = fix_sub a.y b.y; z = fix_sub a.z b.z }

unfoldable pub vec3_neg : Vec3 → Vec3
vec3_neg v = record { x = fix_neg v.x; y = fix_neg v.y; z = fix_neg v.z }

unfoldable pub vec3_scale : Vec3 → ℕ → Vec3
vec3_scale v s = record { x = fix_mul v.x s; y = fix_mul v.y s; z = fix_mul v.z s }

unfoldable pub vec3_dot : Vec3 → Vec3 → ℕ
vec3_dot a b = fix_add (fix_add (fix_mul a.x b.x) (fix_mul a.y b.y)) (fix_mul a.z b.z)

unfoldable pub vec3_length : Vec3 → ℕ
vec3_length v = fix_sqrt (vec3_dot v v)

unfoldable pub mat3_identity : Mat3
mat3_identity = rows (row fix16_one 0 0) (row 0 fix16_one 0) (row 0 0 fix16_one)

unfoldable pub mat3_rotate_x : ℕ → Mat3
mat3_rotate_x angle =
    let c = fix_cos angle in
    let s = fix_sin angle in rows (row fix16_one 0 0) (row 0 c (fix_neg s)) (row 0 s c)

unfoldable pub mat3_rotate_y : ℕ → Mat3
mat3_rotate_y angle =
    let c = fix_cos angle in
    let s = fix_sin angle in rows (row c 0 s) (row 0 fix16_one 0) (row (fix_neg s) 0 c)

unfoldable pub mat3_rotate_z : ℕ → Mat3
mat3_rotate_z angle =
    let c = fix_cos angle in
    let s = fix_sin angle in rows (row c (fix_neg s) 0) (row s c 0) (row 0 0 fix16_one)

-- The product is made in a local matrix, so `out` may be `a` or `b`.
unfoldable pub mat3_multiply : Mat3 → Mat3 → Mat3
mat3_multiply a b i j =
    fix_add (fix_add (fix_mul (a i 0) (b 0 j)) (fix_mul (a i 1) (b 1 j))) (fix_mul (a i 2) (b 2 j))

unfoldable pub mat3_transform : Mat3 → Vec3 → Vec3
mat3_transform m v = record {
  x = fix_add (fix_add (fix_mul (m 0 0) v.x) (fix_mul (m 0 1) v.y)) (fix_mul (m 0 2) v.z);
  y = fix_add (fix_add (fix_mul (m 1 0) v.x) (fix_mul (m 1 1) v.y)) (fix_mul (m 1 2) v.z);
  z = fix_add (fix_add (fix_mul (m 2 0) v.x) (fix_mul (m 2 1) v.y)) (fix_mul (m 2 2) v.z);
}

-- `FIX16_ROUND`, with the shift of a negative number filling in ones.
abbrev pub fix16_round : ℕ → ℕ
fix16_round x =
    let y = fix_add x fix16_half in
    if is_negative y then y / 2 ^ 16 + (2 ^ 32 - 2 ^ 16) else y / 2 ^ 16

-- `none` stands for the result 0: nothing is written.
unfoldable pub project : Vec3 → ℕ → Option (ℕ × ℕ)
project v focal =
    if is_negative v.z || leb v.z fix16_half
    then none
    else let inv_z = fix_div focal v.z in
      some
        (fix_add 64 (fix16_round (fix_mul v.x inv_z)), fix_sub 32 (fix16_round (fix_mul v.y inv_z)))
