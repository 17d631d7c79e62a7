-- ===== src/Game/Tests.antt =====
-- A frame of the game in which the joystick goes left and `n` is pressed.
use osito_k.Base.{ℕ, ◌≡◌, refl, some, [], ◌∷◌, Array}
use osito_k.Drivers.Input.{input_left}
use osito_k.Game.{
  GameState, game_start, game_render, game_events, game_key, game_keys, game_button, game_frame,
  rendered, next_ship,
}
use osito_k.Game.Stars.{IsGame, begins, frame, Plays-IsGame}

abbrev dark : Array ℕ
dark = λ _. 0

abbrev controlled : GameState
controlled = next_ship (game_button (game_events (game_start 4711) (input_left ∷ [])) 512)

abbrev after : GameState
after = (game_render controlled dark).0

played :
    game_frame (game_start 4711) dark (input_left ∷ []) 512 (110 ∷ [])
    ≡ some (after, (game_render controlled dark).1)
unfolding game_frame rendered game_keys game_key
played = refl

Plays-IsGame_example : IsGame after
Plays-IsGame_example =
    Plays-IsGame 4711 (frame dark _ (input_left ∷ []) 512 (110 ∷ []) begins played)
