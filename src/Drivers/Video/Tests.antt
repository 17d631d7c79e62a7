-- ===== src/Drivers/Video/Tests.antt =====
-- Pixels and a line on a dark screen, and a character.
use osito_k.Base.{
  ℕ, ◌+◌, ◌-◌, ◌^◌, ◌≤◌, ◌≡◌, ◌⊎◌, ◌↔◌, refl, true, false, not, ◌&&◌, ◌||◌, Array, ◌==◌, arith,
}
use osito_k.Drivers.Video.{
  fb_size, fb_set_pixel, fb_clear_pixel, fb_line, fb_putchar, shallow_loop, set_bit, has_bit,
  glyph_rows, glyph_row,
}
use osito_k.Drivers.Video.Pixels.{pixel, on_screen, pixels_lem}
use osito_k.Drivers.Video.Points.{line_point, line_steps, Meets}
use osito_k.Drivers.Video.Line.{fb_line_lem}

abbrev dark : Array ℕ
dark = λ _. 0

-- From (2, 1) to (6, 3): the points are (2, 1), (3, 1), (4, 2), (5, 2) and (6, 3).
drawn :
    (pixel (fb_line dark 2 1 6 3) 3 1 ≡ true)
    × (pixel (fb_line dark 2 1 6 3) 3 2 ≡ false)
    × (pixel (fb_line dark 2 1 6 3) 4 2 ≡ true)
    × (pixel (fb_line dark 2 1 6 3) 6 3 ≡ true)
unfolding fb_line shallow_loop fb_set_pixel set_bit has_bit
drawn = (refl, refl, refl, refl)

-- The upper bar of an `E`.
letter :
    (pixel (fb_putchar dark 10 7 69) 13 7 ≡ true) × (pixel (fb_putchar dark 10 7 69) 13 8 ≡ false)
unfolding fb_putchar glyph_rows glyph_row fb_set_pixel set_bit has_bit
letter = (refl, refl)

pixels_lem_example :
    ((x' y' : ℕ)
      → on_screen x' y' ≡ true
      → (pixel (fb_set_pixel dark 9 4) x' y' ≡ ((x' == 9) && (y' == 4)) || pixel dark x' y')
        × (pixel (fb_clear_pixel dark 9 4) x' y'
            ≡ not ((x' == 9) && (y' == 4)) && pixel dark x' y'))
    × ((a : ℕ)
        → fb_size ≤ a
        → (fb_set_pixel dark 9 4 a ≡ dark a) × (fb_clear_pixel dark 9 4 a ≡ dark a))
pixels_lem_example = pixels_lem dark 9 4

-- The line leaves the screen on the left.
fb_line_lem_example :
    let fb' = fb_line dark 6 3 (2 ^ 32 - 4) 5 in
    let point = line_point 6 3 (2 ^ 32 - 4) 5 in
    let steps = line_steps 6 3 (2 ^ 32 - 4) 5 in
    ((x y : ℕ)
      → on_screen x y ≡ true
      → (pixel fb' x y ≡ true) ↔ ((pixel dark x y ≡ true) ⊎ Meets point 0 (steps + 1) x y))
    × (point 0 ≡ (6, 3))
    × (point steps ≡ (2 ^ 32 - 4, 5))
    × ((a : ℕ) → fb_size ≤ a → fb' a ≡ dark a)
fb_line_lem_example =
    fb_line_lem dark 6 3 (2 ^ 32 - 4) 5 (omega arith) (omega arith) (omega arith) (omega arith)
      (λ e. omega (arith, e)) (λ e. omega (arith, e))
