-- ===== src/Game/Stars.antt =====
-- The stars stay in view, whatever the controls do.
use osito_k.Base.{
  ℕ, zero, suc, ◌+◌, ◌/◌, ◌%◌, ◌^◌, ◌≤◌, ◌<◌, ◌≡◌, ◌≢◌, inl, inr, refl, sym, subst, Bool, true,
  false, List, [], ◌∷◌, some, Array, update, update_self, update_ne, ltb, ◌==◌, if◌then◌else◌,
  Bool-cases, arith,
}
use mathlib.Core.Option.{some-injective}
use native.Mathlib.Decide.{ℕ_discrete}
use osito_k.Drivers.Input.{
  InputEvent, input_none, input_left, input_right, input_press, input_release,
}
use osito_k.Drivers.Video.{int_sub, int_is_negative, fb_clear}
use osito_k.Gfx.Ships.Tables.{ship_count}
use osito_k.Game.{
  GameState, star_count, view_y_min, view_y_max, game_rand, row_of, init_loop, stars_init,
  sign_extended, yaw_shift, star_at, update_loop, stars_update, game_event, game_events, game_key,
  game_keys, game_button, game_render, rendered, game_frame, game_start, turned, pitched, next_ship,
}

-- Star `i` is on the screen, above the panel.
abbrev pub InView : GameState → ℕ → Type 0
InView g i = (g.star_x i < 128) × (view_y_min ≤ g.star_y i) × (g.star_y i < view_y_max)

pub record IsGame (g : GameState) : Type 0 where
  pub ship : g.ship_idx < ship_count
  pub stars : (i : ℕ) → i < star_count → InView g i

row_in : (r : ℕ) → (view_y_min ≤ row_of r) × (row_of r < view_y_max)
row_in r = (omega arith, omega arith)

-- A star is placed, and the others stay.
placed-InView :
    (g : GameState) (x y i j : ℕ)
    → x < 128
    → (view_y_min ≤ y) × (y < view_y_max)
    → (j ≢ i → InView g j)
    → InView (record g { star_x = update g.star_x i x; star_y = update g.star_y i y }) j
placed-InView g x y i j hx hy old = elim (ℕ_discrete j i) [
  | yes e ↦ rw (e, update_self g.star_x i x, update_self g.star_y i y) (hx, hy.0, hy.1)
  | no ne ↦
      let (a, b, c) = old ne in
      rw (update_ne g.star_x i j x (λ e. ne (sym e)), update_ne g.star_y i j y (λ e. ne (sym e)))
        (a, b, c)
]

init_loop-InView :
    (n i : ℕ) (g : GameState)
    → ((j : ℕ) → j < i → InView g j)
    → (j : ℕ) → j < i + n
    → InView (init_loop n i g) j
unfolding init_loop game_rand
init_loop-InView zero i g done j h = done j (omega arith)
init_loop-InView (suc n) i g done j h =
    let (g1, r) = game_rand g in
    let (g2, r') = game_rand (record g1 { star_x = update g1.star_x i (r % 128) }) in
    init_loop-InView n (i + 1) (record g2 { star_y = update g2.star_y i (row_of r') })
      (λ k hk.
        placed-InView g (r % 128) (row_of r') i k (omega arith) (row_in r')
          (λ ne. done k (omega arith)))
      j (omega arith)

init_loop-ship_idx : (n i : ℕ) (g : GameState) → (init_loop n i g).ship_idx ≡ g.ship_idx
unfolding init_loop game_rand
init_loop-ship_idx zero i g = refl
init_loop-ship_idx (suc n) i g = init_loop-ship_idx n (i + 1) _

game_start-IsGame : (tick_count : ℕ) → IsGame (game_start tick_count)
unfolding game_start stars_init
game_start-IsGame tick_count = record {
  ship = rw (init_loop-ship_idx star_count 0 _) (omega arith);
  stars = λ i h. init_loop-InView star_count 0 _ (λ j h. absurd (omega arith)) i (omega arith);
}

moved-InView :
    (g : GameState) (x i j : ℕ)
    → x < 128
    → (view_y_min ≤ g.star_y i) × (g.star_y i < view_y_max)
    → (j ≢ i → InView g j)
    → InView (record g { star_x = update g.star_x i x }) j
moved-InView g x i j hx hy old = elim (ℕ_discrete j i) [
  | yes e ↦ rw (e, update_self g.star_x i x) (hx, hy.0, hy.1)
  | no ne ↦ rw (update_ne g.star_x i j x (λ e. ne (sym e))) (old ne)
]

-- A star is moved, and is in view wherever it goes.
star_at-InView :
    (g : GameState) (i sx j : ℕ)
    → (view_y_min ≤ g.star_y i) × (g.star_y i < view_y_max)
    → (j ≢ i → InView g j)
    → InView (star_at g i sx) j
unfolding star_at game_rand
star_at-InView g i sx j hy old =
    let (g', r) = game_rand g in
    elim (Bool-cases (int_is_negative sx)) [
      | inl left ↦ rw left (placed-InView g 127 (row_of r) i j (omega arith) (row_in r) old)
      | inr m ↦ elim (Bool-cases (ltb 127 sx)) [
        | inl right ↦ rw (m, right) (placed-InView g 0 (row_of r) i j (omega arith) (row_in r) old)
        | inr inside ↦ rw (m, inside) (moved-InView g (sx % 256) i j (ground arith) hy old)
      ]
    ]

star_at-ship_idx : (g : GameState) (i sx : ℕ) → (star_at g i sx).ship_idx ≡ g.ship_idx
unfolding star_at game_rand
star_at-ship_idx g i sx = elim (Bool-cases (int_is_negative sx)) [
  | inl left ↦ rw left refl
  | inr m ↦ elim (Bool-cases (ltb 127 sx)) [
    | inl right ↦ rw (m, right) refl
    | inr inside ↦ rw (m, inside) refl
  ]
]

star_at-IsGame : (g : GameState) (i sx : ℕ) → i < star_count → IsGame g → IsGame (star_at g i sx)
star_at-IsGame g i sx hi v = record {
  ship = rw (star_at-ship_idx g i sx) v.ship;
  stars = λ j h. let (_, a, b) = v.stars i hi in star_at-InView g i sx j (a, b) (λ ne. v.stars j h);
}

update_loop-IsGame :
    (n i drift : ℕ) (g : GameState) (fb : Array ℕ)
    → i + n ≤ star_count
    → IsGame g
    → IsGame (update_loop n i drift g fb).0
unfolding update_loop
update_loop-IsGame zero i drift g fb h v = v
update_loop-IsGame (suc n) i drift g fb h v =
    let sx = int_sub (sign_extended (g.star_x i)) drift in
    update_loop-IsGame n (i + 1) drift (star_at g i sx) _ (omega arith)
      (star_at-IsGame g i sx (omega arith) v)

next_ship-IsGame : (g : GameState) → IsGame g → IsGame (next_ship g)
next_ship-IsGame g v = record { ship = omega arith; stars = v.stars }

turned-IsGame : (by : ℕ) (g : GameState) → IsGame g → IsGame (turned by g)
turned-IsGame by g v = record { ship = v.ship; stars = v.stars }

pitched-IsGame : (by : ℕ) (g : GameState) → IsGame g → IsGame (pitched by g)
pitched-IsGame by g v = record { ship = v.ship; stars = v.stars }

events-IsGame : (g : GameState) (evs : List InputEvent) → IsGame g → IsGame (game_events g evs)
unfolding game_events game_event
events-IsGame g [] v = v
events-IsGame g (input_none ∷ evs) v = events-IsGame g evs v
events-IsGame g (input_left ∷ evs) v = events-IsGame (turned 252 g) evs (turned-IsGame 252 g v)
events-IsGame g (input_right ∷ evs) v = events-IsGame (turned 4 g) evs (turned-IsGame 4 g v)
events-IsGame g (input_press ∷ evs) v = events-IsGame (next_ship g) evs (next_ship-IsGame g v)
events-IsGame g (input_release ∷ evs) v = events-IsGame g evs v

if-IsGame : (b : Bool) (g h : GameState) → IsGame g → IsGame h → IsGame (if b then g else h)
if-IsGame true g h v w = v
if-IsGame false g h v w = w

key-IsGame : (g : GameState) (ch : ℕ) → IsGame g → IsGame (game_key g ch)
unfolding game_key
key-IsGame g ch v = if-IsGame (ch == 97) _ _ (turned-IsGame 252 g v) (
    if-IsGame (ch == 100) _ _ (turned-IsGame 4 g v) (
      if-IsGame (ch == 119) _ _ (pitched-IsGame 253 g v) (
        if-IsGame (ch == 115) _ _ (pitched-IsGame 3 g v)
          (if-IsGame (ch == 110) _ _ (next_ship-IsGame g v) v))))

button-IsGame : (g : GameState) (state : ℕ) → IsGame g → IsGame (game_button g state)
unfolding game_button
button-IsGame g state v =
    if-IsGame (state / 2 ^ 16 % 2 == 1) _ _ (pitched-IsGame 254 g v)
      (if-IsGame (g.frame_count % 4 == 0) _ _ (pitched-IsGame 1 g v) v)

render-IsGame : (g : GameState) (fb : Array ℕ) → IsGame g → IsGame (game_render g fb).0
unfolding game_render stars_update
render-IsGame g fb v =
    let w = update_loop-IsGame star_count 0 (yaw_shift g.yaw) g (fb_clear fb) (omega arith) v in
    record { ship = w.ship; stars = w.stars }

-- The states of a game, from its start at a tick count on.
pub data Plays (tick_count : ℕ) : GameState → Type 0 where
  begins : Plays tick_count (game_start tick_count)
  frame :
      {g g' : GameState} (fb fb' : Array ℕ) (events : List InputEvent) (state : ℕ) (keys : List ℕ)
      → Plays tick_count g
      → game_frame g fb events state keys ≡ some (g', fb')
      → Plays tick_count g'

keys-IsGame :
    (g : GameState) (keys : List ℕ) (fb fb' : Array ℕ) (g' : GameState)
    → IsGame g
    → rendered (game_keys g keys) fb ≡ some (g', fb')
    → IsGame g'
unfolding game_keys rendered
keys-IsGame g [] fb fb' g' v e =
    subst (λ r. IsGame r.0) (some-injective _ _ e) (render-IsGame g fb v)
keys-IsGame g (ch ∷ chs) fb fb' g' v e = elim (Bool-cases (ch == 3)) [
  | inl quits ↦ cc (rw quits at e)
  | inr stays ↦ keys-IsGame (game_key g ch) chs fb fb' g' (key-IsGame g ch v) (rw stays at e)
]

-- At every frame of a game, whatever the seed and the controls: the index of the ship is one of the
-- list of ships, and all stars are on the screen and above the panel.
pub Plays-IsGame : (tick_count : ℕ) {g : GameState} → Plays tick_count g → IsGame g
unfolding game_frame
Plays-IsGame tick_count begins = game_start-IsGame tick_count
Plays-IsGame tick_count (frame {g} fb fb' events state keys before e) =
    keys-IsGame (game_button (game_events g events) state) keys fb fb' _
      (button-IsGame (game_events g events) state
        (events-IsGame g events (Plays-IsGame tick_count before)))
      e
