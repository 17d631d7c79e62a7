-- ===== src/Drivers/Video/Pixels.antt =====
-- Pixels: what `fb_set_pixel` and `fb_clear_pixel` do to them.
use osito_k.Base.{
  ℕ, zero, suc, ◌+◌, ◌-◌, ◌*◌, ◌/◌, ◌%◌, ◌≤◌, ◌<◌, ◌≡◌, ◌≢◌, inl, inr, refl, sym, ap, ◌∙◌, Bool,
  true, false, not, ◌&&◌, ◌||◌, Array, update, update_self, update_ne, ltb, leb, ◌==◌, Bool-cases,
  arith,
}
use native.Mathlib.Decide.{ℕ_discrete}
use osito_k.Drivers.Video.{
  fb_width, fb_height, fb_stride, fb_size, set_bit, clear_bit, has_bit, fb_set_pixel,
  fb_clear_pixel,
}

has_bit-set_bit : (b k j : ℕ) → has_bit (set_bit b k) j ≡ (j == k) || has_bit b j
unfolding has_bit set_bit
has_bit-set_bit b zero zero = ground arith
has_bit-set_bit b zero (suc j) =
    let h : (2 * (b / 2) + 1) / 2 ≡ b / 2 = omega arith in
    let z : (suc j == 0) ≡ false = ground arith in rw (h, z) refl
has_bit-set_bit b (suc k) zero = ground arith
has_bit-set_bit b (suc k) (suc j) =
    let h : (2 * set_bit (b / 2) k + b % 2) / 2 ≡ set_bit (b / 2) k = omega arith in
    let e : (suc j == suc k) ≡ (j == k) = ground arith in rw (h, e) (has_bit-set_bit (b / 2) k j)

has_bit-clear_bit : (b k j : ℕ) → has_bit (clear_bit b k) j ≡ not (j == k) && has_bit b j
unfolding has_bit clear_bit
has_bit-clear_bit b zero zero = ground arith
has_bit-clear_bit b zero (suc j) =
    let h : 2 * (b / 2) / 2 ≡ b / 2 = omega arith in
    let z : (suc j == 0) ≡ false = ground arith in rw (h, z) refl
has_bit-clear_bit b (suc k) zero = ground arith
has_bit-clear_bit b (suc k) (suc j) =
    let h : (2 * clear_bit (b / 2) k + b % 2) / 2 ≡ clear_bit (b / 2) k = omega arith in
    let e : (suc j == suc k) ≡ (j == k) = ground arith in rw (h, e) (has_bit-clear_bit (b / 2) k j)

-- The pixel in column `x` of line `y` is lit.
abbrev pub pixel : Array ℕ → ℕ → ℕ → Bool
pixel fb x y = has_bit (fb (y * fb_stride + x / 8)) (7 - x % 8)

abbrev pub on_screen : ℕ → ℕ → Bool
on_screen x y = ltb x fb_width && ltb y fb_height

-- A byte is replaced in which the change of a bit is known.
module _ (fb : Array ℕ) (x y x' y' : ℕ) (f : ℕ → ℕ) (g : Bool → Bool → Bool)
    (bits : (b j : ℕ) → has_bit (f b) j ≡ g (j == 7 - x % 8) (has_bit b j))
    (keeps : (b : Bool) → g false b ≡ b) (inside : x < fb_width) (inside' : x' < fb_width) where
  pub pixel-update :
      pixel (update fb (y * fb_stride + x / 8) (f (fb (y * fb_stride + x / 8)))) x' y'
      ≡ g ((x' == x) && (y' == y)) (pixel fb x' y')
  pixel-update = elim (ℕ_discrete (y * 16 + x / 8) (y' * 16 + x' / 8)) [
    | no ne ↦
        let other : ((x' == x) && (y' == y)) ≡ false = ground arith in
        rw other (
          ap (λ b. has_bit b (7 - x' % 8)) (update_ne fb (y * 16 + x / 8) (y' * 16 + x' / 8) _ ne)
          ∙ sym (keeps (pixel fb x' y')))
    | yes same ↦
        let bit : ((x' == x) && (y' == y)) ≡ (7 - x' % 8 == 7 - x % 8) = ground arith in
        rw (bit, ← same)
          (ap (λ b. has_bit b (7 - x' % 8)) (update_self fb (y * 16 + x / 8) _)
            ∙ bits (fb (y * 16 + x / 8)) (7 - x' % 8))
  ]

off_screen : (x y : ℕ) → (leb fb_width x || leb fb_height y) ≡ not (on_screen x y)
off_screen x y = ground arith

-- `fb_set_pixel` lights the pixel and no other, and `fb_clear_pixel` darkens it and no other; a
-- position that is not on the screen, such as a negative one, changes nothing. No byte behind the
-- framebuffer is touched.
pub pixels_lem :
    (fb : Array ℕ) (x y : ℕ)
    → ((x' y' : ℕ)
        → on_screen x' y' ≡ true
        → (pixel (fb_set_pixel fb x y) x' y' ≡ ((x' == x) && (y' == y)) || pixel fb x' y')
          × (pixel (fb_clear_pixel fb x y) x' y' ≡ not ((x' == x) && (y' == y)) && pixel fb x' y'))
      × ((a : ℕ) → fb_size ≤ a → (fb_set_pixel fb x y a ≡ fb a) × (fb_clear_pixel fb x y a ≡ fb a))
unfolding fb_set_pixel fb_clear_pixel
pixels_lem fb x y = elim (Bool-cases (leb fb_width x || leb fb_height y)) [
  | inl off ↦ rw off (
    (λ x' y' on.
        let no_one : ((x' == x) && (y' == y)) ≡ false = ground arith in rw no_one (refl, refl)),
    (λ a h. (refl, refl)),
  )
  | inr on ↦ rw on (
    (λ x' y' on'. (
      pixel-update fb x y x' y' (λ b. set_bit b (7 - x % 8)) (λ p q. p || q)
          (λ b j. has_bit-set_bit b (7 - x % 8) j) (λ b. refl) (ground arith) (ground arith),
      pixel-update fb x y x' y' (λ b. clear_bit b (7 - x % 8)) (λ p q. not p && q)
          (λ b j. has_bit-clear_bit b (7 - x % 8) j) (λ b. refl) (ground arith) (ground arith),
    )),
    (λ a h.
        let out : y * fb_stride + x / 8 ≢ a = ground arith in
        (update_ne fb _ a _ out, update_ne fb _ a _ out)),
  )
]
