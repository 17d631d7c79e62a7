-- ===== src/Drivers/Uart/Decimal.antt =====
-- What `uart_put_dec` prints, read as a number.
use osito_k.Base.{
  ℕ, zero, suc, ◌+◌, ◌-◌, ◌*◌, ◌/◌, ◌%◌, ◌^◌, ◌<◌, ◌≤◌, ◌≡◌, inl, inr, refl, ◌∙◌, ap, ap₂, List, [],
  ◌∷◌, Array, update, update_self, update_ne, ltb, ◌==◌, Bool-cases, All, arith,
}
use osito_k.Drivers.Uart.{dec_loop, put_back, uart_put_dec}

-- The number that decimal digits stand for behind the number `a`.
abbrev pub decimal : ℕ → List ℕ → ℕ
decimal a [] = a
decimal a (c ∷ cs) = decimal (a * 10 + (c - 48)) cs

abbrev pub IsDigit : ℕ → Type 0
IsDigit c = (48 ≤ c) × (c < 58)

put_back-update : (buf : Array ℕ) (i c n : ℕ) → n ≤ i → put_back (update buf i c) n ≡ put_back buf n
unfolding put_back
put_back-update buf i c zero h = refl
put_back-update buf i c (suc n) h =
    ap₂ ◌∷◌ (update_ne buf i n c (omega arith)) (put_back-update buf i c n (omega arith))

put_back-next : (buf : Array ℕ) (i c : ℕ) → put_back (update buf i c) (i + 1) ≡ c ∷ put_back buf i
unfolding put_back
put_back-next buf i c =
    let q : i + 1 ≡ suc i = omega arith in
    rw q (ap₂ ◌∷◌ (update_self buf i c) (put_back-update buf i c i (omega arith)))

-- The digits in front of those that stand in the buffer.
dec_loop_lem :
    (n : ℕ) (buf : Array ℕ) (i val : ℕ)
    → val < 10 ^ n
    → decimal 0 (put_back (dec_loop n buf i val).0 (dec_loop n buf i val).1)
      ≡ decimal val (put_back buf i)
unfolding dec_loop put_back
dec_loop_lem zero buf i val h = let z : val ≡ 0 = omega arith in rw z refl
dec_loop_lem (suc n) buf i val h = elim (Bool-cases (ltb 0 val)) [
  | inl y ↦
      let less : val / 10 < 10 ^ n = omega arith in
      let ih = dec_loop_lem n (update buf i (48 + val % 10)) (i + 1) (val / 10) less in
      let last : val / 10 * 10 + (48 + val % 10 - 48) ≡ val = omega arith in
      rw y (
        ih
        ∙ ap (decimal (val / 10)) (put_back-next buf i (48 + val % 10))
        ∙ ap (λ v. decimal v (put_back buf i)) last)
  | inr m ↦ let z : val ≡ 0 = ground arith in rw (m, z) refl
]

dec_loop_digits :
    (n : ℕ) (buf : Array ℕ) (i val : ℕ)
    → All IsDigit (put_back buf i)
    → All IsDigit (put_back (dec_loop n buf i val).0 (dec_loop n buf i val).1)
unfolding dec_loop
dec_loop_digits zero buf i val h = h
dec_loop_digits (suc n) buf i val h = elim (Bool-cases (ltb 0 val)) [
  | inl y ↦ rw y (
      dec_loop_digits n (update buf i (48 + val % 10)) (i + 1) (val / 10)
        (rw (put_back-next buf i (48 + val % 10)) ((omega arith, omega arith), h)))
  | inr m ↦ rw m h
]

-- What `uart_put_dec` prints for a 32-bit number are decimal digits, and they stand for the number,
-- whatever the local array held.
pub uart_put_dec_lem :
    (buf : Array ℕ) (val : ℕ)
    → val < 2 ^ 32
    → All IsDigit (uart_put_dec buf val) × (decimal 0 (uart_put_dec buf val) ≡ val)
unfolding uart_put_dec put_back
uart_put_dec_lem buf val h = elim (Bool-cases (val == 0)) [
  | inl y ↦ let z : val ≡ 0 = ground arith in rw (y, z) (((omega arith, omega arith), tt), refl)
  | inr m ↦ rw m (dec_loop_digits 10 buf 0 val tt, dec_loop_lem 10 buf 0 val (omega arith))
]
