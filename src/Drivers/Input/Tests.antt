-- ===== src/Drivers/Input/Tests.antt =====
-- Runs of the joystick.
use osito_k.Base.{◌≤◌, ◌≡◌, ◌≢◌, refl, false, [], ◌∷◌, All, length, leb, if◌then◌else◌, arith}
use osito_k.Drivers.Ring.{filled, take}
use osito_k.Drivers.Input.{
  Input, input_left, input_queue_size, input_debounce, input_update, input_init, raw_of, direction,
  update_direction, update_button, debounce, event_push,
}
use osito_k.Drivers.Input.Events.{IsQueue, moves, clicks, input_update_lem}
use osito_k.Drivers.Input.Debounce.{Readings, polled, input_update_debounced}

-- One event waits, and the button has been held for two readings behind the first one.
abbrev held : Input
held = record {
  event_queue = λ i. input_left;
  eq_head = 0;
  eq_tail = 15;
  last_x_raw = 100;
  last_dir = 1;
  btn_state = 0;
  btn_debounce = 2;
  btn_raw_last = 1;
}

held-IsQueue : IsQueue held (input_left ∷ [])
held-IsQueue = record { inside = omega arith; room = omega arith; end = refl; shown = refl }

abbrev after : Input
after = input_update held 512 false

input_update_lem_example :
    IsQueue after (
      filled input_queue_size
        (filled input_queue_size (input_left ∷ []) (moves 1 (direction 512)))
        (clicks 0 3 1))
    × (after.btn_state ≡ (if leb input_debounce 3 then 1 else 0))
    × (after.btn_debounce ≡ 3)
    × (after.btn_raw_last ≡ 1)
    × (after.last_dir ≡ direction 512)
input_update_lem_example = input_update_lem held (input_left ∷ []) 512 false held-IsQueue

-- Three readings of a button that is pressed.
abbrev pressed : Readings
pressed = (512, false) ∷ (512, false) ∷ (512, false) ∷ []

released_before : (polled held pressed).btn_state ≡ 0
unfolding polled input_update update_button debounce update_direction direction input_init
released_before = refl

pressed_now : (input_update (polled held pressed) 512 false).btn_state ≡ 1
unfolding input_update update_button debounce update_direction direction polled input_init
    event_push
pressed_now = refl

changes : (input_update (polled held pressed) 512 false).btn_state ≢ (polled held pressed).btn_state
changes e = omega (arith, e, released_before, pressed_now)

input_update_debounced_example :
    ((input_update (polled held pressed) 512 false).btn_state ≡ 1)
    × (3 ≤ length ((512, false) ∷ pressed))
    × All (λ r. raw_of r.1 ≡ 1) (take 3 ((512, false) ∷ pressed))
input_update_debounced_example = input_update_debounced held pressed 512 false changes
