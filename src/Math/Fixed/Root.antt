-- ===== src/Math/Fixed/Root.antt =====
-- The square root bit by bit.
use osito_k.Base.{
  ℕ, zero, suc, ◌+◌, ◌-◌, ◌*◌, ◌/◌, ◌%◌, ◌^◌, ◌<◌, ◌≤◌, ◌≡◌, inl, inr, refl, ◌∙◌, ap, ap₂, false,
  ltb, leb, ◌==◌, if◌then◌else◌, Bool-cases, arith,
}
use osito_k.Math.Fixed.{start_bit, root_loop, fix_sqrt, is_negative}

-- `r` is the integer square root of `n`.
abbrev pub IsRoot : ℕ → ℕ → Type 0
IsRoot n r = (r * r ≤ n) × (n < (r + 1) * (r + 1))

-- The bit that the round with `n` rounds left looks at: 4 ^ (n - 1), and 0 at the end.
abbrev bit_at : ℕ → ℕ
bit_at zero = 0
bit_at (suc n) = 4 ^ n

four_times : (n : ℕ) → 4 ^ suc n ≡ 4 * 4 ^ n
four_times n = grind arith

bit_at-next : (n : ℕ) → 4 ^ n / 4 ≡ bit_at n
bit_at-next zero = refl
bit_at-next (suc n) = let e = four_times n in omega (arith, e)

power_pos : (n : ℕ) → 0 < 4 ^ n
power_pos zero = omega arith
power_pos (suc n) = let e = four_times n in let p = power_pos n in omega (arith, e)

-- One round, with `b` for its bit and `a` for four times that.
module _ (a b rad val root c : ℕ) (f : a ≡ 4 * b) (e : root ≡ a * c) where
  scaled : root ≡ 4 * (b * c)
  scaled = e ∙ rw f (grind arith)

  half : root / 2 ≡ b * (2 * c)
  half = let s = scaled in let t : b * (2 * c) ≡ 2 * (b * c) = grind arith in omega (arith, t)

  half_more : root / 2 + b ≡ b * (2 * c + 1)
  half_more =
      let h = half in let t : b * (2 * c + 1) ≡ b * (2 * c) + b = grind arith in omega (arith, t)

  module _ (r : rad ≡ val + a * (c * c)) (h : val < 2 * root + a) where
    squares : a * (c * c) ≡ 4 * (b * (c * c))
    squares = rw f (grind arith)

    less : rad ≡ val + b * (2 * c * (2 * c))
    less =
        let q = squares in
        let t : b * (2 * c * (2 * c)) ≡ 4 * (b * (c * c)) = grind arith in omega (arith, t, q)

    more : root + b ≤ val → rad ≡ val - (root + b) + b * ((2 * c + 1) * (2 * c + 1))
    more le =
        let q = squares in
        let s = scaled in
        let t : b * ((2 * c + 1) * (2 * c + 1)) ≡ 4 * (b * (c * c)) + 4 * (b * c) + b =
          grind arith in
        omega (arith, t, q, s)

    more_below : root + b ≤ val → val - (root + b) < 2 * (root / 2 + b) + b
    more_below le = let s = scaled in omega (arith, s)

    less_below : val < root + b → val < 2 * (root / 2) + b
    less_below lt = let s = scaled in omega (arith, s)

-- `root` is `c` times 4 ^ n, and the part of the radicand behind `c` in front of the bits to come is
-- `val`.
root_loop_lem :
    (n rad val root c : ℕ)
    → root ≡ 4 ^ n * c
    → rad ≡ val + 4 ^ n * (c * c)
    → val < 2 * root + 4 ^ n
    → IsRoot rad (root_loop n val root (bit_at n))
unfolding root_loop
root_loop_lem zero rad val root c e r h =
    let q : root ≡ c = omega arith in
    let one : 4 ^ 0 * (c * c) ≡ c * c = grind arith in
    let sq : (c + 1) * (c + 1) ≡ c * c + 2 * c + 1 = grind arith in
    rw q (omega (arith, one, r), omega (arith, one, r, sq, h, q))
root_loop_lem (suc n) rad val root c e r h =
    let b : ℕ = 4 ^ n in
    let a : ℕ = 4 ^ suc n in
    let f = four_times n in
    let p = power_pos n in
    let some_bit : (4 ^ n == 0) ≡ false = ground arith in
    elim (Bool-cases (leb (root + 4 ^ n) val)) [
      | inl y ↦
          let le : root + 4 ^ n ≤ val = ground arith in
          rw (some_bit, y, bit_at-next n)
            (root_loop_lem n rad (val - (root + 4 ^ n)) (root / 2 + 4 ^ n) (2 * c + 1)
              (half_more a b rad val root c f e) (more a b rad val root c f e r h le)
              (more_below a b rad val root c f e r h le))
      | inr m ↦
          let lt : val < root + 4 ^ n = ground arith in
          rw (some_bit, m, bit_at-next n)
            (root_loop_lem n rad val (root / 2) (2 * c) (half a b rad val root c f e)
              (less a b rad val root c f e r h) (less_below a b rad val root c f e r h lt))
    ]

start_bit_lem :
    (m n val : ℕ)
    → 0 < val
    → val < 4 ^ suc m
    → m < n
    → (k : ℕ) × (start_bit n val (4 ^ m) ≡ 4 ^ k) × (val < 4 ^ suc k) × (k ≤ m)
unfolding start_bit
start_bit_lem m zero val pos below enough = absurd (omega arith)
start_bit_lem zero (suc n) val pos below enough =
    let s : ltb val 1 ≡ false = ground arith in rw s (0, refl, below, omega arith)
start_bit_lem (suc m) (suc n) val pos below enough = elim (Bool-cases (ltb val (4 ^ suc m))) [
  | inl y ↦
      let lt : val < 4 ^ suc m = ground arith in
      let (k, e, b, le) = start_bit_lem m n val pos lt (omega arith) in
      rw (y, bit_at-next (suc m)) (k, e, b, omega arith)
  | inr fits ↦ rw fits (suc m, refl, below, omega arith)
]

-- Rounds that are left when the bit is 0 change nothing.
root_loop-more :
    (n d val root : ℕ) → root_loop (n + d) val root (bit_at n) ≡ root_loop n val root (bit_at n)
unfolding root_loop
root_loop-more zero zero val root = refl
root_loop-more zero (suc d) val root = let q : 0 + suc d ≡ suc d = omega arith in rw q refl
root_loop-more (suc n) d val root =
    let q : suc n + d ≡ suc (n + d) = omega arith in
    let next = bit_at-next n in
    rw (q, next)
      (ap₂ (λ more less. if 4 ^ n == 0 then root else if leb (root + 4 ^ n) val then more else less)
        (root_loop-more n d (val - (root + 4 ^ n)) (root / 2 + 4 ^ n))
        (root_loop-more n d val (root / 2)))

root_below : (r n : ℕ) → r * r ≤ n → n < 2 ^ 64 → r < 2 ^ 32
root_below r n le lt = grind arith

-- For a number that is not negative, `fix_sqrt` returns the integer square root of the number shifted
-- by 16 bits, which is the root as a fixed-point number, rounded down.
pub fix_sqrt_lem : (x : ℕ) → x < 2 ^ 31 → IsRoot (x * 2 ^ 16) (fix_sqrt x)
unfolding fix_sqrt
fix_sqrt_lem x h =
    let positive : is_negative x ≡ false = ground arith in
    elim (Bool-cases (x == 0)) [
      | inl y ↦ let z : x ≡ 0 = ground arith in rw (positive, y, z) (omega arith, omega arith)
      | inr n ↦
          let pos : 0 < x = ground arith in
          let (k, e, b, le) =
            start_bit_lem 23 24 (x * 2 ^ 16) (omega arith) (omega arith) (omega arith) in
          let fuel : 24 ≡ suc k + (23 - k) = omega arith in
          let zero_root : 0 ≡ 4 ^ suc k * 0 = grind arith in
          let whole : x * 2 ^ 16 ≡ x * 2 ^ 16 + 4 ^ suc k * (0 * 0) = grind arith in
          let root =
            root_loop_lem (suc k) (x * 2 ^ 16) (x * 2 ^ 16) 0 0 zero_root whole (omega arith) in
          let same : root_loop 24 (x * 2 ^ 16) 0 (4 ^ k)
              ≡ root_loop (suc k) (x * 2 ^ 16) 0 (4 ^ k) =
            ap (λ n. root_loop n (x * 2 ^ 16) 0 (4 ^ k)) fuel
            ∙ root_loop-more (suc k) (23 - k) (x * 2 ^ 16) 0 in
          let small : root_loop (suc k) (x * 2 ^ 16) 0 (4 ^ k) < 2 ^ 32 =
            root_below (root_loop (suc k) (x * 2 ^ 16) 0 (4 ^ k)) (x * 2 ^ 16) root.0
              (omega arith) in
          let cut : root_loop (suc k) (x * 2 ^ 16) 0 (4 ^ k) % 2 ^ 32
              ≡ root_loop (suc k) (x * 2 ^ 16) 0 (4 ^ k) =
            omega arith in
          rw (positive, n, e, same, cut) root
    ]
