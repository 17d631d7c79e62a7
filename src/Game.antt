-- ===== src/Game.antt =====
-- The flight demo: src/game/game.cpp and game.h. An `int8_t` is the bit pattern of its byte. What the
-- joystick and the UART say in a frame is an argument.
pub mod Stars
mod Tests
use osito_k.Base.{
  ℕ, zero, suc, ◌+◌, ◌-◌, ◌*◌, ◌/◌, ◌%◌, ◌^◌, Bool, true, false, List, [], ◌∷◌, Option, none, some,
  Array, update, ltb, ◌==◌, if◌then◌else◌,
}
use osito_k.Math.Fixed.{fix16_one}
use osito_k.Math.Matrix.{Vec3, mat3_rotate_x, mat3_rotate_y, mat3_multiply}
use osito_k.Drivers.Input.{
  InputEvent, input_none, input_left, input_right, input_press, input_release,
}
use osito_k.Drivers.Video.{
  int_sub, int_add, int_is_negative, fb_clear, fb_set_pixel, fb_line, fb_text_puts,
}
use osito_k.Gfx.Wire.{wire_render}
use osito_k.Gfx.Ships.Tables.{ship_count, ship_list, ship_names}

abbrev pub star_count : ℕ
star_count = 16

abbrev pub view_y_min : ℕ
view_y_min = 1

abbrev pub view_y_max : ℕ
view_y_max = 47

abbrev pub hud_y : ℕ
hud_y = 48

-- `game_state_t`
pub record GameState : Type 0 where
  pub yaw : ℕ
  pub pitch : ℕ
  pub speed : ℕ
  pub ship_idx : ℕ
  pub star_x : Array ℕ
  pub star_y : Array ℕ
  pub rng_seed : ℕ
  pub frame_count : ℕ

abbrev pub next_seed : ℕ → ℕ
next_seed seed = (seed * 1103515245 + 12345) % 2 ^ 32

unfoldable pub game_rand : GameState → GameState × ℕ
game_rand g =
    let seed = next_seed g.rng_seed in (record g { rng_seed = seed }, seed / 2 ^ 16 % 2 ^ 15)

-- `VIEW_Y_MIN + game_rand(g) % (VIEW_Y_MAX - VIEW_Y_MIN)`, stored as an `int8_t`
abbrev pub row_of : ℕ → ℕ
row_of r = (view_y_min + r % (view_y_max - view_y_min)) % 256

unfoldable pub init_loop : ℕ → ℕ → GameState → GameState
init_loop zero i g = g
init_loop (suc n) i g =
    let (g1, r) = game_rand g in
    let (g2, r') = game_rand (record g1 { star_x = update g1.star_x i (r % 128) }) in
    init_loop n (i + 1) (record g2 { star_y = update g2.star_y i (row_of r') })

unfoldable pub stars_init : GameState → GameState
stars_init g = init_loop star_count 0 g

-- A byte as an `int`, with its sign.
abbrev pub sign_extended : ℕ → ℕ
sign_extended b = if ltb b 128 then b else b + (2 ^ 32 - 256)

-- `(int8_t)yaw >> 5`
abbrev pub yaw_shift : ℕ → ℕ
yaw_shift yaw = if ltb yaw 128 then yaw / 32 else yaw / 32 + (2 ^ 32 - 8)

-- A star that leaves on one side comes back on the other, in another row.
unfoldable pub star_at : GameState → ℕ → ℕ → GameState
star_at g i sx =
    let (g', r) = game_rand g in
    let new_row = record g' { star_y = update g'.star_y i (row_of r) } in
    if int_is_negative sx
    then record new_row { star_x = update new_row.star_x i 127 }
    else if ltb 127 sx
    then record new_row { star_x = update new_row.star_x i 0 }
    else record g { star_x = update g.star_x i (sx % 256) }

unfoldable pub update_loop : ℕ → ℕ → ℕ → GameState → Array ℕ → GameState × Array ℕ
update_loop zero i drift g fb = (g, fb)
update_loop (suc n) i drift g fb =
    let g' = star_at g i (int_sub (sign_extended (g.star_x i)) drift) in
    update_loop n (i + 1) drift g'
      (fb_set_pixel fb (sign_extended (g'.star_x i)) (sign_extended (g'.star_y i)))

unfoldable pub stars_update : GameState → Array ℕ → GameState × Array ℕ
stars_update g fb = update_loop star_count 0 (yaw_shift g.yaw) g fb

-- `SPD:` and the bar: 61 is `=`, 45 is `-`.
abbrev pub bar : ℕ → ℕ → ℕ
bar speed i = if ltb i speed then 61 else 45

abbrev pub compass_dirs : ℕ → ℕ × ℕ
compass_dirs zero = (78, 32)
compass_dirs (suc zero) = (78, 69)
compass_dirs (suc (suc zero)) = (69, 32)
compass_dirs (suc (suc (suc zero))) = (83, 69)
compass_dirs (suc (suc (suc (suc zero)))) = (83, 32)
compass_dirs (suc (suc (suc (suc (suc zero))))) = (83, 87)
compass_dirs (suc (suc (suc (suc (suc (suc zero)))))) = (87, 32)
compass_dirs (suc (suc (suc (suc (suc (suc (suc i))))))) = (78, 87)

-- The dot of the ship on the radar, kept within its box.
abbrev pub radar_x : ℕ → ℕ
radar_x yaw =
    let rx = int_add 8 (yaw_shift yaw) in
    let rx = if int_is_negative rx then 1 else if ltb rx 1 then 1 else rx in
    if ltb 14 rx then 14 else rx

unfoldable pub hud_draw : GameState → Array ℕ → Array ℕ
hud_draw g fb =
    let b = bar g.speed in
    let spd = 83 ∷ 80 ∷ 68 ∷ 58 ∷ b 0 ∷ b 1 ∷ b 2 ∷ b 3 ∷ b 4 ∷ b 5 ∷ [] in
    let (d0, d1) = compass_dirs ((g.yaw + 16) / 32 % 8) in
    let deg = g.yaw * 360 / 256 in
    let comp = d0 ∷ d1 ∷ (48 + deg / 100 % 10) ∷ (48 + deg / 10 % 10) ∷ (48 + deg % 10) ∷ [] in
    let fb = fb_text_puts (fb_line fb 0 hud_y 127 hud_y) 0 8 spd in
    let fb = fb_text_puts (fb_text_puts fb 12 8 comp) 20 8 (ship_names g.ship_idx) in
    let fb = fb_line (fb_line fb 0 54 15 54) 0 62 15 62 in
    let fb = fb_line (fb_line fb 0 54 0 62) 15 54 15 62 in
    let fb = fb_set_pixel (fb_set_pixel fb 7 58) 8 58 in
    fb_set_pixel (fb_set_pixel fb (radar_x g.yaw) 57) (radar_x g.yaw) 58

-- `yaw += by`, with `by` as a byte, and the other controls
abbrev pub turned : ℕ → GameState → GameState
turned by g = record g { yaw = (g.yaw + by) % 256 }

abbrev pub pitched : ℕ → GameState → GameState
pitched by g = record g { pitch = (g.pitch + by) % 256 }

abbrev pub next_ship : GameState → GameState
next_ship g = record g { ship_idx = (g.ship_idx + 1) % ship_count }

unfoldable pub game_event : GameState → InputEvent → GameState
game_event g input_left = turned 252 g
game_event g input_right = turned 4 g
game_event g input_press = next_ship g
game_event g input_release = g
game_event g input_none = g

unfoldable pub game_events : GameState → List InputEvent → GameState
game_events g [] = g
game_events g (ev ∷ evs) = game_events (game_event g ev) evs

-- A key other than Ctrl+C: 97 is `a`, 100 `d`, 119 `w`, 115 `s`, 110 `n`.
unfoldable pub game_key : GameState → ℕ → GameState
game_key g ch =
    if ch == 97
    then turned 252 g
    else if ch == 100
    then turned 4 g
    else if ch == 119
    then pitched 253 g
    else if ch == 115
    then pitched 3 g
    else if ch == 110
    then next_ship g
    else g

-- `none` for Ctrl+C, which ends the game.
unfoldable pub game_keys : GameState → List ℕ → Option GameState
game_keys g [] = some g
game_keys g (ch ∷ chs) = let rest = game_keys (game_key g ch) chs in if ch == 3 then none else rest

-- The button pitches the ship, which else drifts every fourth frame.
unfoldable pub game_button : GameState → ℕ → GameState
game_button g state =
    if state / 2 ^ 16 % 2 == 1
    then pitched 254 g
    else if g.frame_count % 4 == 0
    then pitched 1 g
    else g

unfoldable pub game_render : GameState → Array ℕ → GameState × Array ℕ
game_render g fb =
    let (g', fb') = stars_update g (fb_clear fb) in
    let rot = mat3_multiply (mat3_rotate_y g'.yaw) (mat3_rotate_x g'.pitch) in
    let pos : Vec3 = record { x = 0; y = 0; z = (if g'.ship_idx == 3 then 8 else 4) * fix16_one } in
    let shown = wire_render fb' (ship_list g'.ship_idx) rot pos (64 * fix16_one) in
    (record g' { frame_count = (g'.frame_count + 1) % 2 ^ 32 }, hud_draw g' shown)

unfoldable pub rendered : Option GameState → Array ℕ → Option (GameState × Array ℕ)
rendered none fb = none
rendered (some g) fb = some (game_render g fb)

-- A round of the game's loop: the state behind it and the picture that is sent.
unfoldable pub game_frame :
    GameState → Array ℕ → List InputEvent → ℕ → List ℕ → Option (GameState × Array ℕ)
game_frame g fb events state keys =
    rendered (game_keys (game_button (game_events g events) state) keys) fb

-- What the game starts with.
unfoldable pub game_start : ℕ → GameState
game_start tick_count = stars_init (record {
  yaw = 0;
  pitch = 0;
  speed = 3;
  ship_idx = 0;
  star_x = λ _. 0;
  star_y = λ _. 0;
  rng_seed = tick_count;
  frame_count = 0;
})
