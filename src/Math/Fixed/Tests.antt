-- ===== src/Math/Fixed/Tests.antt =====
-- Runs of the arithmetic: the cases of `fix_test`.
use osito_k.Drivers.Uart.{dec_loop, put_back, uart_put_dec}
use osito_k.Base.{ℕ, ◌*◌, ◌-◌, ◌^◌, ◌≡◌, refl, [], ◌∷◌, Array, arith}
use osito_k.Math.Fixed.{fix_mul, fix_div, fix_sqrt, fix_print, root_loop, start_bit}
use osito_k.Math.Fixed.Root.{IsRoot, fix_sqrt_lem}

mul_negative : fix_mul (2 ^ 32 - 3 * 65536) 163840 ≡ 2 ^ 32 - 491520
unfolding fix_mul
mul_negative = refl

div_third : fix_div 655360 196608 ≡ 218453
unfolding fix_div
div_third = refl

sqrt_four : fix_sqrt 262144 ≡ 131072
unfolding fix_sqrt root_loop start_bit
sqrt_four = refl

abbrev zeros : Array ℕ
zeros i = 0

-- 65535 / 65536 is printed as 0.1000.
prints_high : fix_print zeros 65535 ≡ 48 ∷ 46 ∷ 49 ∷ 48 ∷ 48 ∷ 48 ∷ []
unfolding fix_print uart_put_dec put_back dec_loop
prints_high = refl

fix_sqrt_lem_example : IsRoot (131072 * 2 ^ 16) (fix_sqrt 131072)
fix_sqrt_lem_example = fix_sqrt_lem 131072 (omega arith)
