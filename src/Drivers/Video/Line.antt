-- ===== src/Drivers/Video/Line.antt =====
-- What `fb_line` draws: the points of the line, from the division.
use osito_k.Base.{
  ℕ, ◌+◌, ◌-◌, ◌*◌, ◌/◌, ◌^◌, ◌≤◌, ◌<◌, ◌≡◌, ◌≢◌, ◌⊎◌, ◌↔◌, inl, inr, refl, true, Array, leb,
  Bool-cases, arith,
}
use native.Mathlib.Decide.{ℕ_discrete}
use osito_k.Drivers.Video.{int_sub, magnitude, fb_size, fb_line}
use osito_k.Drivers.Video.Pixels.{pixel, on_screen}
use osito_k.Drivers.Video.Points.{
  moved, rounded, plot, line_point, line_steps, Meets, plot_lem, plot_frame,
}
use osito_k.Drivers.Video.Error.{div_exact}
use osito_k.Drivers.Video.Loops.{shallow_line, steep_line, rounded_none}

magnitude_small : (d : ℕ) → d < 2 ^ 32 → d ≢ 2 ^ 31 → magnitude d < 2 ^ 31
magnitude_small d h ne = ground arith

pub fb_line-plot :
    (fb : Array ℕ) (x0 y0 x1 y1 : ℕ)
    → x0 < 2 ^ 32
    → y0 < 2 ^ 32
    → int_sub x1 x0 ≢ 2 ^ 31
    → int_sub y1 y0 ≢ 2 ^ 31
    → fb_line fb x0 y0 x1 y1 ≡ plot (line_steps x0 y0 x1 y1 + 1) (line_point x0 y0 x1 y1) 0 fb
unfolding fb_line
fb_line-plot fb x0 y0 x1 y1 hx hy nx ny =
    let ex = int_sub x1 x0 in
    let ey = int_sub y1 y0 in
    let sx = magnitude_small ex (omega arith) nx in
    let sy = magnitude_small ey (omega arith) ny in
    let at_x : moved x0 ex 0 ≡ x0 = ground arith in
    let at_y : moved y0 ey 0 ≡ y0 = ground arith in
    elim (Bool-cases (leb (magnitude ey) (magnitude ex))) [
      | inl shallow ↦
          let le : magnitude ey ≤ magnitude ex = ground arith in
          let steps : line_steps x0 y0 x1 y1 ≡ magnitude ex = omega arith in
          rw (shallow, steps) (shallow_line ex ey x0 y0 fb at_x at_y sx le)
      | inr steep ↦
          let lt : magnitude ex < magnitude ey = ground arith in
          let steps : line_steps x0 y0 x1 y1 ≡ magnitude ey = omega arith in
          rw (steep, steps) (steep_line ex ey x0 y0 fb at_x at_y sy lt)
    ]

end_point :
    (a b : ℕ) → a < 2 ^ 32 → b < 2 ^ 32 → moved a (int_sub b a) (magnitude (int_sub b a)) ≡ b
end_point a b ha hb = ground arith

rounded_all : (n m : ℕ) → m ≤ n → rounded n m n ≡ m
rounded_all n m le = elim (ℕ_discrete n 0) [
  | yes e ↦ let z : m ≡ 0 = omega arith in rw (e, z) refl
  | no ne ↦ let q : n * m ≡ m * n = omega arith in rw q (div_exact m n ((n - 1) / 2) (omega arith))
]

rounded_start : (n m : ℕ) → m ≤ n → rounded n m 0 ≡ 0
rounded_start n m le = elim (ℕ_discrete n 0) [
  | yes e ↦ rounded_none n m e le
  | no ne ↦
      let q : 0 * m + (n - 1) / 2 ≡ 0 * n + (n - 1) / 2 = omega arith in
      rw q (div_exact 0 n ((n - 1) / 2) (omega arith))
]

first_point : (x0 y0 x1 y1 : ℕ) → x0 < 2 ^ 32 → y0 < 2 ^ 32 → line_point x0 y0 x1 y1 0 ≡ (x0, y0)
first_point x0 y0 x1 y1 hx hy =
    let ex = int_sub x1 x0 in
    let ey = int_sub y1 y0 in
    let at_x : moved x0 ex 0 ≡ x0 = ground arith in
    let at_y : moved y0 ey 0 ≡ y0 = ground arith in
    elim (Bool-cases (leb (magnitude ey) (magnitude ex))) [
      | inl y ↦
          let le : magnitude ey ≤ magnitude ex = ground arith in
          rw (y, at_x, rounded_start (magnitude ex) (magnitude ey) le, at_y) refl
      | inr n ↦
          let le : magnitude ex ≤ magnitude ey = ground arith in
          rw (n, at_y, rounded_start (magnitude ey) (magnitude ex) le, at_x) refl
    ]

last_point :
    (x0 y0 x1 y1 : ℕ)
    → x0 < 2 ^ 32
    → y0 < 2 ^ 32
    → x1 < 2 ^ 32
    → y1 < 2 ^ 32
    → line_point x0 y0 x1 y1 (line_steps x0 y0 x1 y1) ≡ (x1, y1)
last_point x0 y0 x1 y1 hx hy kx ky =
    let ex = int_sub x1 x0 in
    let ey = int_sub y1 y0 in
    let dx = magnitude ex in
    let dy = magnitude ey in
    elim (Bool-cases (leb dy dx)) [
      | inl y ↦
          let le : dy ≤ dx = ground arith in
          let steps : line_steps x0 y0 x1 y1 ≡ dx = omega arith in
          rw (y, steps, rounded_all dx dy le, end_point x0 x1 hx kx, end_point y0 y1 hy ky) refl
      | inr n ↦
          let le : dx ≤ dy = ground arith in
          let steps : line_steps x0 y0 x1 y1 ≡ dy = omega arith in
          rw (n, steps, rounded_all dy dx le, end_point x0 x1 hx kx, end_point y0 y1 hy ky) refl
    ]

-- `fb_line`, for coordinates whose differences are not -2 ^ 31: on the screen those pixels are lit that
-- were, and the points of the line from the first to the last, each found by division: the coordinate
-- that moves further moves by one at each step, and the other one is rounded to the nearest pixel. The
-- first point is the start, the last is the end, and no byte behind the framebuffer is touched.
pub fb_line_lem :
    (fb : Array ℕ) (x0 y0 x1 y1 : ℕ)
    → x0 < 2 ^ 32
    → y0 < 2 ^ 32
    → x1 < 2 ^ 32
    → y1 < 2 ^ 32
    → int_sub x1 x0 ≢ 2 ^ 31
    → int_sub y1 y0 ≢ 2 ^ 31
    → let fb' = fb_line fb x0 y0 x1 y1 in
      let point = line_point x0 y0 x1 y1 in
      let steps = line_steps x0 y0 x1 y1 in
      ((x y : ℕ)
        → on_screen x y ≡ true
        → (pixel fb' x y ≡ true) ↔ ((pixel fb x y ≡ true) ⊎ Meets point 0 (steps + 1) x y))
      × (point 0 ≡ (x0, y0))
      × (point steps ≡ (x1, y1))
      × ((a : ℕ) → fb_size ≤ a → fb' a ≡ fb a)
fb_line_lem fb x0 y0 x1 y1 hx hy kx ky nx ny =
    let steps = line_steps x0 y0 x1 y1 in
    let point = line_point x0 y0 x1 y1 in
    rw (fb_line-plot fb x0 y0 x1 y1 hx hy nx ny) (
      (λ x y on. plot_lem (steps + 1) point 0 fb x y on),
      first_point x0 y0 x1 y1 hx hy,
      last_point x0 y0 x1 y1 hx hy kx ky,
      (λ a h. plot_frame (steps + 1) point 0 fb a h),
    )
