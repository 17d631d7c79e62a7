-- ===== src/Drivers/Video/Loops.antt =====
-- The loops of `fb_line` against the points of the line.
use osito_k.Base.{
  ℕ, zero, suc, ◌+◌, ◌/◌, ◌^◌, ◌≤◌, ◌<◌, ◌≡◌, inl, inr, refl, sym, ap, ap₂, ◌∙◌, Array,
  if◌then◌else◌, Bool-cases, arith,
}
use native.Mathlib.Decide.{ℕ_discrete}
use osito_k.Drivers.Video.{
  int_add, int_sub, int_is_negative, magnitude, direction_of, fb_set_pixel, shallow_loop,
  steep_loop,
}
use osito_k.Drivers.Video.Points.{moved, rounded, plot}
use osito_k.Drivers.Video.Error.{IsError, IsError-rounded, IsError-start, IsError-next, next_err}

-- A step in the direction of `d`.
moved-next : (a d i : ℕ) → i < 2 ^ 31 → int_add (moved a d i) (direction_of d) ≡ moved a d (i + 1)
moved-next a d i h = ground arith

module _ (ex ey : ℕ) where
  abbrev dx : ℕ
  dx = magnitude ex

  abbrev dy : ℕ
  dy = magnitude ey

  abbrev sx : ℕ
  sx = direction_of ex

  abbrev sy : ℕ
  sy = direction_of ey

  shallow_lem :
      (n x0 y0 i k err : ℕ) (fb : Array ℕ)
      → IsError dx dy i k err
      → dx < 2 ^ 31
      → dy ≤ dx
      → i + n ≤ 2 ^ 31
      → shallow_loop n dx dy sx sy (moved x0 ex i) (moved y0 ey k) err fb
        ≡ plot n (λ j. (moved x0 ex j, moved y0 ey (rounded dx dy j))) i fb
  unfolding shallow_loop plot
  shallow_lem zero x0 y0 i k err fb v small le h = refl
  shallow_lem (suc n) x0 y0 i k err fb v small le h =
      let down = int_is_negative (int_sub err dy) in
      let kin = v.within in
      let px = moved-next x0 ex i (omega arith) in
      let py = moved-next y0 ey k (omega arith) in
      let ey' : (if down then int_add (moved y0 ey k) sy else moved y0 ey k)
          ≡ moved y0 ey (if down then k + 1 else k) =
        elim (Bool-cases down) [ inl y ↦ rw y py | inr stays ↦ rw stays refl ] in
      let r = IsError-rounded dx dy i k err v in
      let ih =
        shallow_lem n x0 y0 (i + 1) (if down then k + 1 else k) (next_err dx dy err)
          (fb_set_pixel fb (moved x0 ex i) (moved y0 ey k)) (IsError-next dx dy i k err small le v)
          small le (omega arith) in
      rw (px, ey', r) ih

  steep_lem :
      (n x0 y0 i k err : ℕ) (fb : Array ℕ)
      → IsError dy dx i k err
      → dy < 2 ^ 31
      → dx ≤ dy
      → i + n ≤ 2 ^ 31
      → steep_loop n dx dy sx sy (moved x0 ex k) (moved y0 ey i) err fb
        ≡ plot n (λ j. (moved x0 ex (rounded dy dx j), moved y0 ey j)) i fb
  unfolding steep_loop plot
  steep_lem zero x0 y0 i k err fb v small le h = refl
  steep_lem (suc n) x0 y0 i k err fb v small le h =
      let down = int_is_negative (int_sub err dx) in
      let kin = v.within in
      let px = moved-next x0 ex k (omega arith) in
      let py = moved-next y0 ey i (omega arith) in
      let ex' : (if down then int_add (moved x0 ex k) sx else moved x0 ex k)
          ≡ moved x0 ex (if down then k + 1 else k) =
        elim (Bool-cases down) [ inl y ↦ rw y px | inr stays ↦ rw stays refl ] in
      let r = IsError-rounded dy dx i k err v in
      let ih =
        steep_lem n x0 y0 (i + 1) (if down then k + 1 else k) (next_err dy dx err)
          (fb_set_pixel fb (moved x0 ex k) (moved y0 ey i)) (IsError-next dy dx i k err small le v)
          small le (omega arith) in
      rw (py, ex', r) ih

pub rounded_none : (n m : ℕ) → n ≡ 0 → m ≤ n → rounded n m 0 ≡ 0
rounded_none n m e le = let z : m ≡ 0 = omega arith in rw (e, z) refl

module _ (ex ey x0 y0 : ℕ) (fb : Array ℕ) (at_x : moved x0 ex 0 ≡ x0)
    (at_y : moved y0 ey 0 ≡ y0) where
  pub shallow_line :
      dx ex ey < 2 ^ 31
      → dy ex ey ≤ dx ex ey
      → shallow_loop
          (dx ex ey + 1)
          (dx ex ey)
          (dy ex ey)
          (sx ex ey)
          (sy ex ey)
          x0
          y0
          (dx ex ey / 2)
          fb
        ≡ plot
            (dx ex ey + 1)
            (λ j. (moved x0 ex j, moved y0 ey (rounded (dx ex ey) (dy ex ey) j)))
            0
            fb
  unfolding shallow_loop plot
  shallow_line small le = elim (ℕ_discrete (magnitude ex) 0) [
    | no ne ↦
        ap₂
          (λ a b.
            shallow_loop (dx ex ey + 1) (dx ex ey) (dy ex ey) (sx ex ey) (sy ex ey) a b
              (dx ex ey / 2) fb)
          (sym at_x) (sym at_y)
        ∙ shallow_lem ex ey (dx ex ey + 1) x0 y0 0 0 (dx ex ey / 2) fb
            (IsError-start (dx ex ey) (dy ex ey) (omega arith)) small le (omega arith)
    | yes e ↦
        let one : magnitude ex + 1 ≡ 1 = omega arith in
        let z = rounded_none (magnitude ex) (magnitude ey) e le in
        ap (λ n. shallow_loop n (dx ex ey) (dy ex ey) (sx ex ey) (sy ex ey) x0 y0 (dx ex ey / 2) fb)
          one
        ∙ ap₂ (fb_set_pixel fb) (sym at_x) (sym at_y ∙ ap (moved y0 ey) (sym z))
        ∙ ap
            (λ n. plot n (λ j. (moved x0 ex j, moved y0 ey (rounded (dx ex ey) (dy ex ey) j))) 0 fb)
            (sym one)
  ]

  pub steep_line :
      dy ex ey < 2 ^ 31
      → dx ex ey < dy ex ey
      → steep_loop
          (dy ex ey + 1)
          (dx ex ey)
          (dy ex ey)
          (sx ex ey)
          (sy ex ey)
          x0
          y0
          (dy ex ey / 2)
          fb
        ≡ plot
            (dy ex ey + 1)
            (λ j. (moved x0 ex (rounded (dy ex ey) (dx ex ey) j), moved y0 ey j))
            0
            fb
  steep_line small lt =
      ap₂
        (λ a b.
          steep_loop (dy ex ey + 1) (dx ex ey) (dy ex ey) (sx ex ey) (sy ex ey) a b (dy ex ey / 2)
            fb)
        (sym at_x) (sym at_y)
      ∙ steep_lem ex ey (dy ex ey + 1) x0 y0 0 0 (dy ex ey / 2) fb
          (IsError-start (dy ex ey) (dx ex ey) (omega arith)) small (omega arith) (omega arith)
