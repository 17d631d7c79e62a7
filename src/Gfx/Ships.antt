-- ===== src/Gfx/Ships.antt =====
-- The command `ship` of src/gfx/ships.cpp, up to what is printed. A string is the list of its
-- characters, without the zero at its end.
pub mod Tables
pub mod Command
use osito_k.Base.{
  ℕ, zero, suc, ◌+◌, ◌*◌, Bool, true, false, Option, none, some, List, [], ◌∷◌, Array, first_index,
  ◌==◌, if◌then◌else◌,
}
use osito_k.Math.Fixed.{fix16_one}
use osito_k.Math.Matrix.{Vec3, Mat3, mat3_rotate_x, mat3_rotate_y, mat3_multiply}
use osito_k.Drivers.Video.{fb_clear, fb_text_puts}
use osito_k.Gfx.Wire.{wire_render}
use osito_k.Gfx.Ships.Tables.{ship_count, ship_list, ship_names}

unfoldable pub str_eq : List ℕ → List ℕ → Bool
str_eq [] [] = true
str_eq [] (b ∷ ys) = false
str_eq (a ∷ xs) [] = false
str_eq (a ∷ xs) (b ∷ ys) = let rest = str_eq xs ys in if a == b then rest else false

-- `while (*args == ' ') args++`
unfoldable pub skip_spaces : List ℕ → List ℕ
skip_spaces [] = []
skip_spaces (c ∷ cs) = let rest = skip_spaces cs in if c == 32 then rest else c ∷ cs

-- The picture of ship `i`. The station, ship 3, is further away.
unfoldable pub ship_picture : Array ℕ → ℕ → Array ℕ
ship_picture fb i =
    let rot = mat3_multiply (mat3_rotate_y 200) (mat3_rotate_x 20) in
    let pos : Vec3 = record { x = 0; y = 0; z = (if i == 3 then 8 else 4) * fix16_one } in
    fb_text_puts (wire_render (fb_clear fb) (ship_list i) rot pos (64 * fix16_one)) 0 0
      (ship_names i)

unfoldable pub picture_of : Array ℕ → Option ℕ → Option (Array ℕ)
picture_of fb none = none
picture_of fb (some i) = some (ship_picture fb i)

unfoldable pub ship_named : Array ℕ → List ℕ → Option (Array ℕ)
ship_named fb [] = none
ship_named fb (c ∷ cs) =
    picture_of fb (first_index ship_count (λ i. str_eq (c ∷ cs) (ship_names i)) 0)

-- The picture that is sent, if one is.
unfoldable pub cmd_ship : Array ℕ → List ℕ → Option (Array ℕ)
cmd_ship fb args = ship_named fb (skip_spaces args)
