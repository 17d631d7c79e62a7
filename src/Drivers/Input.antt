-- ===== src/Drivers/Input.antt =====
-- The joystick and its button: src/drivers/input.cpp and input.h. The readings of the converter and
-- of the pin are arguments.
pub mod Events
pub mod Debounce
mod Tests
use osito_k.Base.{
  ℕ, zero, suc, ◌+◌, ◌*◌, ◌%◌, ◌^◌, Bool, true, false, not, ◌&&◌, Array, update, ltb, leb, ◌==◌,
  if◌then◌else◌,
}

-- `input_event_t`
pub data InputEvent : Type 0 where
  input_none : InputEvent
  input_left : InputEvent
  input_right : InputEvent
  input_press : InputEvent
  input_release : InputEvent

abbrev pub input_dead_low : ℕ
input_dead_low = 400

abbrev pub input_dead_high : ℕ
input_dead_high = 600

abbrev pub input_debounce : ℕ
input_debounce = 3

abbrev pub input_queue_size : ℕ
input_queue_size = 16

pub record Input : Type 0 where
  pub event_queue : Array InputEvent
  pub eq_head : ℕ
  pub eq_tail : ℕ
  pub last_x_raw : ℕ
  pub last_dir : ℕ
  pub btn_state : ℕ
  pub btn_debounce : ℕ
  pub btn_raw_last : ℕ

-- `& (INPUT_QUEUE_SIZE - 1)` is the remainder by 16.
unfoldable pub event_push : Input → InputEvent → Input
event_push s ev =
    let next = (s.eq_head + 1) % input_queue_size in
    if next == s.eq_tail
    then s
    else record s { event_queue = update s.event_queue s.eq_head ev; eq_head = next }

unfoldable pub input_poll : Input → Input × InputEvent
input_poll s =
    if s.eq_head == s.eq_tail
    then (s, input_none)
    else (record s { eq_tail = (s.eq_tail + 1) % input_queue_size }, s.event_queue s.eq_tail)

unfoldable pub input_init : Input → Input
input_init s = record s {
  eq_head = 0;
  eq_tail = 0;
  last_x_raw = 512;
  last_dir = 0;
  btn_state = 0;
  btn_debounce = 0;
  btn_raw_last = 0;
}

-- 0 is the centre, 1 left, 2 right.
unfoldable pub direction : ℕ → ℕ
direction x = if ltb x input_dead_low then 1 else if ltb input_dead_high x then 2 else 0

unfoldable pub update_direction : Input → ℕ → Input
update_direction s dir =
    if dir == s.last_dir
    then s
    else record (if dir == 1
        then event_push s input_left
        else if dir == 2
        then event_push s input_right
        else s) { last_dir = dir }

unfoldable pub debounce : Input → ℕ → Input
debounce s raw_btn =
    if raw_btn == s.btn_raw_last
    then (if ltb s.btn_debounce input_debounce
        then record s { btn_debounce = s.btn_debounce + 1 }
        else s)
    else record s { btn_debounce = 0; btn_raw_last = raw_btn }

unfoldable pub update_button : Input → ℕ → Input
update_button s raw_btn =
    if leb input_debounce s.btn_debounce && not (raw_btn == s.btn_state)
    then event_push (record s { btn_state = raw_btn })
        (if raw_btn == 0 then input_release else input_press)
    else s

-- `gpio_read(INPUT_BTN_PIN) ? 0 : 1`
abbrev pub raw_of : Bool → ℕ
raw_of pin = if pin then 0 else 1

-- `adc` is the reading of the converter, `pin` that of the pin, which is low while the button is
-- pressed.
unfoldable pub input_update : Input → ℕ → Bool → Input
input_update s adc pin =
    let raw_btn = raw_of pin in
    let moved = update_direction (record s { last_x_raw = adc }) (direction adc) in
    update_button (debounce moved raw_btn) raw_btn

-- The two parts share no bit, since the reading has 16.
unfoldable pub input_get_state : Input → ℕ
input_get_state s = s.last_x_raw + s.btn_state * 2 ^ 16
