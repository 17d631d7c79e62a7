-- ===== src/Drivers/Video/Points.antt =====
-- The points of a line, and what the screen shows after some points have been lit.
use osito_k.Base.{
  ℕ, zero, suc, ◌+◌, ◌-◌, ◌*◌, ◌/◌, max, ◌≤◌, ◌<◌, ◌≡◌, ◌⊎◌, ◌↔◌, inl, inr, refl, sym, ap, ◌∙◌,
  true, ◌&&◌, Array, leb, ◌==◌, if◌then◌else◌, Bool-cases, arith,
}
use native.Mathlib.Decide.{ℕ_discrete}
use osito_k.Drivers.Video.{int_add, int_sub, int_is_negative, magnitude, fb_size, fb_set_pixel}
use osito_k.Drivers.Video.Pixels.{pixel, on_screen, pixels_lem}

-- The coordinate `i` steps from `a` in the direction of `d`.
abbrev pub moved : ℕ → ℕ → ℕ → ℕ
moved a d i = if int_is_negative d then int_sub a i else int_add a i

-- How far the other coordinate has moved after `i` of `n` steps, if it moves by `m` in all: `i * m / n`,
-- rounded to the nearest number, and down from the middle.
abbrev pub rounded : ℕ → ℕ → ℕ → ℕ
rounded n m i = (i * m + (n - 1) / 2) / n

-- The points with the numbers `i` to `i + n - 1` are lit, one after the other.
unfoldable pub plot : ℕ → (ℕ → ℕ × ℕ) → ℕ → Array ℕ → Array ℕ
plot zero point i fb = fb
plot (suc n) point i fb = plot n point (i + 1) (fb_set_pixel fb (point i).0 (point i).1)

-- The points of the line from `(x0, y0)` to `(x1, y1)`.
abbrev pub line_point : ℕ → ℕ → ℕ → ℕ → ℕ → ℕ × ℕ
line_point x0 y0 x1 y1 =
    let ex = int_sub x1 x0 in
    let ey = int_sub y1 y0 in
    let dx = magnitude ex in
    let dy = magnitude ey in
    if leb dy dx
    then (λ i. (moved x0 ex i, moved y0 ey (rounded dx dy i)))
    else (λ i. (moved x0 ex (rounded dy dx i), moved y0 ey i))

-- The number of the last point.
abbrev pub line_steps : ℕ → ℕ → ℕ → ℕ → ℕ
line_steps x0 y0 x1 y1 = max (magnitude (int_sub x1 x0)) (magnitude (int_sub y1 y0))

-- One of the points with the numbers `i` to `i + n - 1` is `(x, y)`.
abbrev pub Meets : (ℕ → ℕ × ℕ) → ℕ → ℕ → ℕ → ℕ → Type 0
Meets point i n x y = (j : ℕ) × (i ≤ j) × (j < i + n) × ((point j).0 ≡ x) × ((point j).1 ≡ y)

lit_cases :
    (fb : Array ℕ) (px py x y : ℕ)
    → on_screen x y ≡ true
    → pixel (fb_set_pixel fb px py) x y ≡ true
    → (pixel fb x y ≡ true) ⊎ ((px ≡ x) × (py ≡ y))
lit_cases fb px py x y on h =
    let e = (pixels_lem fb px py).0 x y on in
    elim (Bool-cases ((x == px) && (y == py))) [
      | inl y' ↦ inr (ground arith)
      | inr n ↦ inl (rw n at (sym e.0 ∙ h))
    ]

lit_stays :
    (fb : Array ℕ) (px py x y : ℕ)
    → on_screen x y ≡ true
    → (pixel fb x y ≡ true) ⊎ ((px ≡ x) × (py ≡ y))
    → pixel (fb_set_pixel fb px py) x y ≡ true
lit_stays fb px py x y on (inl h) =
    let e = (pixels_lem fb px py).0 x y on in e.0 ∙ rw h (ground arith)
lit_stays fb px py x y on (inr (a, b)) =
    let e = (pixels_lem fb px py).0 x y on in
    let same : ((x == px) && (y == py)) ≡ true = ground arith in e.0 ∙ rw same refl

pub plot_lem :
    (n : ℕ) (point : ℕ → ℕ × ℕ) (i : ℕ) (fb : Array ℕ) (x y : ℕ)
    → on_screen x y ≡ true
    → (pixel (plot n point i fb) x y ≡ true) ↔ ((pixel fb x y ≡ true) ⊎ Meets point i n x y)
unfolding plot
plot_lem zero point i fb x y on =
    (λ h. inl h, λ m. elim m [ inl h ↦ h | inr (j, lo, hi, _, _) ↦ absurd (omega arith) ])
plot_lem (suc n) point i fb x y on =
    let fb' = fb_set_pixel fb (point i).0 (point i).1 in
    let (f, g) = plot_lem n point (i + 1) fb' x y on in
    (
      λ h. elim (f h) [
        | inl h' ↦ elim (lit_cases fb (point i).0 (point i).1 x y on h') [
          | inl before ↦ inl before
          | inr (a, b) ↦ inr (i, omega arith, omega arith, a, b)
        ]
        | inr (j, lo, hi, a, b) ↦ inr (j, omega arith, omega arith, a, b)
      ],
      λ m. elim m [
        | inl before ↦ g (inl (lit_stays fb (point i).0 (point i).1 x y on (inl before)))
        | inr (j, lo, hi, a, b) ↦ elim (ℕ_discrete j i) [
          | yes e ↦ g (
              inl (
                lit_stays fb (point i).0 (point i).1 x y on
                  (inr (ap (λ k. (point k).0) (sym e) ∙ a, ap (λ k. (point k).1) (sym e) ∙ b))))
          | no ne ↦ g (inr (j, omega arith, omega arith, a, b))
        ]
      ],
    )

pub plot_frame :
    (n : ℕ) (point : ℕ → ℕ × ℕ) (i : ℕ) (fb : Array ℕ) (a : ℕ)
    → fb_size ≤ a
    → plot n point i fb a ≡ fb a
unfolding plot
plot_frame zero point i fb a h = refl
plot_frame (suc n) point i fb a h =
    plot_frame n point (i + 1) (fb_set_pixel fb (point i).0 (point i).1) a h
    ∙ ((pixels_lem fb (point i).0 (point i).1).1 a h).0
