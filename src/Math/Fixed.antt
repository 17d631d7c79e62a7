-- ===== src/Math/Fixed.antt =====
-- Fixed-point numbers: src/math/fixedpoint.h and fixedpoint.cpp. A `fix16_t` is the bit pattern of
-- its `int32_t`, below 2 ^ 32.
pub mod Table
pub mod Sine
pub mod Root
mod Tests
use osito_k.Base.{
  ℕ, zero, suc, ◌+◌, ◌-◌, ◌*◌, ◌/◌, ◌%◌, ◌^◌, Bool, true, false, List, [], ◌∷◌, ◌++◌, Array,
  element, ltb, leb, ◌==◌, if◌then◌else◌,
}
use osito_k.Drivers.Uart.{uart_putc, uart_put_dec}
use osito_k.Math.Fixed.Table.{sin_table}

abbrev pub fix16_one : ℕ
fix16_one = 65536

abbrev pub fix16_half : ℕ
fix16_half = 32768

-- `x < 0`
abbrev pub is_negative : ℕ → Bool
is_negative x = leb (2 ^ 31) x

-- The bit pattern of the same number as an `int64_t`.
abbrev pub widened : ℕ → ℕ
widened x = if is_negative x then x + (2 ^ 64 - 2 ^ 32) else x

abbrev pub fix_add : ℕ → ℕ → ℕ
fix_add a b = (a + b) % 2 ^ 32

abbrev pub fix_sub : ℕ → ℕ → ℕ
fix_sub a b = (a + (2 ^ 32 - b)) % 2 ^ 32

abbrev pub fix_neg : ℕ → ℕ
fix_neg x = (2 ^ 32 - x) % 2 ^ 32

abbrev pub fix_abs : ℕ → ℕ
fix_abs x = if is_negative x then fix_neg x else x

-- The bits 16 to 47 of the product of 64 bits, which the shift moves down.
unfoldable pub fix_mul : ℕ → ℕ → ℕ
fix_mul a b = widened a * widened b % 2 ^ 64 / 2 ^ 16 % 2 ^ 32

abbrev pub fix_sin : ℕ → ℕ
fix_sin angle = element sin_table angle

abbrev pub fix_cos : ℕ → ℕ
fix_cos angle = element sin_table ((angle + 64) % 256)

-- C divides the magnitudes and then sets the sign. A magnitude is at most 2 ^ 31.
unfoldable pub fix_div : ℕ → ℕ → ℕ
fix_div a b =
    if b == 0
    then (if is_negative a then 2 ^ 31 else 2 ^ 31 - 1)
    else let q = (fix_abs a * 2 ^ 16 / fix_abs b) % 2 ^ 32 in
      if is_negative a
      then (if is_negative b then q else fix_neg q)
      else (if is_negative b then fix_neg q else q)

-- `while (bit > val) bit >>= 2`
unfoldable pub start_bit : ℕ → ℕ → ℕ → ℕ
start_bit zero val bit = bit
start_bit (suc n) val bit =
    let rest = start_bit n val (bit / 4) in if ltb val bit then rest else bit

unfoldable pub root_loop : ℕ → ℕ → ℕ → ℕ → ℕ
root_loop zero val root bit = root
root_loop (suc n) val root bit =
    let trial = root + bit in
    let more = root_loop n (val - trial) (root / 2 + bit) (bit / 4) in
    let less = root_loop n val (root / 2) (bit / 4) in
    if bit == 0 then root else if leb trial val then more else less

-- `bit` starts at 2 ^ 46 = 4 ^ 23, so 24 rounds are enough for both loops.
unfoldable pub fix_sqrt : ℕ → ℕ
fix_sqrt x =
    if is_negative x
    then 0
    else if x == 0
    then 0
    else let val = x * 2 ^ 16 in root_loop 24 val 0 (start_bit 24 val (2 ^ 46)) % 2 ^ 32

-- `buf` is what stands in the local array of `uart_put_dec`.
unfoldable pub fix_print : Array ℕ → ℕ → List ℕ
fix_print buf x =
    let y = fix_abs x in
    let dec = (y % 65536 * 1000 + 32768) / 65536 in
    (if is_negative x then uart_putc 45 else [])
    ++ uart_put_dec buf (y / 65536)
    ++ uart_putc 46
    ++ (if ltb dec 100 then uart_putc 48 else [])
    ++ (if ltb dec 10 then uart_putc 48 else [])
    ++ uart_put_dec buf dec
