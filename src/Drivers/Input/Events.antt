-- ===== src/Drivers/Input/Events.antt =====
-- The events that a reading of the joystick gives, and how the queue takes them.
use osito_k.Base.{
  ℕ, ◌+◌, ◌%◌, ◌≡◌, ◌⊎◌, inl, inr, refl, sym, ◌∙◌, ap₂, subst, Bool, not, ◌&&◌, List, [], ◌∷◌, ◌++◌,
  ltb, leb, ◌==◌, if◌then◌else◌, Bool-cases, arith,
}
use osito_k.Drivers.Ring.{
  IsRing, IsRing-full, IsRing-push, IsRing-empty, IsRing-pop, filled, filled-full, filled-room,
  filled-nothing,
}
use osito_k.Drivers.Input.{
  InputEvent, raw_of, input_none, input_left, input_right, input_press, input_release, Input,
  input_queue_size, input_debounce, event_push, input_poll, direction, update_direction, debounce,
  update_button, input_update,
}

-- The events that wait to be polled.
abbrev pub IsQueue : Input → List InputEvent → Type 0
IsQueue s q = IsRing input_queue_size s.event_queue s.eq_head s.eq_tail q

-- The state of the joystick and the button, without the queue.
abbrev pub SameState : Input → Input → Type 0
SameState s s' =
    (s'.last_x_raw ≡ s.last_x_raw)
    × (s'.last_dir ≡ s.last_dir)
    × (s'.btn_state ≡ s.btn_state)
    × (s'.btn_debounce ≡ s.btn_debounce)
    × (s'.btn_raw_last ≡ s.btn_raw_last)

event_push-state : (s : Input) (ev : InputEvent) → SameState s (event_push s ev)
unfolding event_push
event_push-state s ev = elim (Bool-cases ((s.eq_head + 1) % input_queue_size == s.eq_tail)) [
  | inl y ↦ rw y (refl, refl, refl, refl, refl)
  | inr n ↦ rw n (refl, refl, refl, refl, refl)
]

event_push-filled :
    (s : Input) (q : List InputEvent) (ev : InputEvent)
    → IsQueue s q
    → IsQueue (event_push s ev) (filled input_queue_size q (ev ∷ []))
unfolding event_push
event_push-filled s q ev v = elim (Bool-cases ((s.eq_head + 1) % input_queue_size == s.eq_tail)) [
  | inl y ↦
      let full =
        IsRing-full input_queue_size s.event_queue s.eq_head s.eq_tail q v (ground arith) in
      rw y (subst (IsQueue s) (sym (filled-full input_queue_size q (ev ∷ []) full)) v)
  | inr n ↦
      let (room, w) =
        IsRing-push input_queue_size s.event_queue s.eq_head s.eq_tail q ev v (λ e. ground arith) in
      let same : filled input_queue_size q (ev ∷ []) ≡ q ++ ev ∷ [] =
        filled-room input_queue_size q ev [] room
        ∙ filled-nothing input_queue_size (q ++ ev ∷ []) in
      rw (n, same) w
]

-- The event of a new direction: the way back to the centre gives none.
abbrev pub moves : ℕ → ℕ → List InputEvent
moves last dir =
    if dir == last
    then []
    else if dir == 1
    then input_left ∷ []
    else if dir == 2
    then input_right ∷ []
    else []

-- The event of the button: its state was `last`, and the reading is `raw` for the time that makes the
-- counter `count`.
abbrev pub clicks : ℕ → ℕ → ℕ → List InputEvent
clicks last count raw =
    if leb input_debounce count && not (raw == last)
    then (if raw == 0 then input_release else input_press) ∷ []
    else []

update_direction_lem :
    (s : Input) (q : List InputEvent) (dir : ℕ)
    → IsQueue s q
    → IsQueue (update_direction s dir) (filled input_queue_size q (moves s.last_dir dir))
      × ((update_direction s dir).last_dir ≡ dir)
      × ((update_direction s dir).btn_state ≡ s.btn_state)
      × ((update_direction s dir).btn_debounce ≡ s.btn_debounce)
      × ((update_direction s dir).btn_raw_last ≡ s.btn_raw_last)
unfolding update_direction
update_direction_lem s q dir v =
    let still = subst (IsQueue s) (sym (filled-nothing input_queue_size q)) v in
    elim (Bool-cases (dir == s.last_dir)) [
      | inl y ↦ let e : s.last_dir ≡ dir = ground arith in rw y (still, e, refl, refl, refl)
      | inr n ↦ elim (Bool-cases (dir == 1)) [
        | inl y1 ↦
            let (_, _, a, b, c) = event_push-state s input_left in
            rw (n, y1) (event_push-filled s q input_left v, refl, a, b, c)
        | inr n1 ↦ elim (Bool-cases (dir == 2)) [
          | inl y2 ↦
              let (_, _, a, b, c) = event_push-state s input_right in
              rw (n, n1, y2) (event_push-filled s q input_right v, refl, a, b, c)
          | inr n2 ↦ rw (n, n1, n2) (still, refl, refl, refl, refl)
        ]
      ]
    ]

update_button_lem :
    (s : Input) (q : List InputEvent) (raw : ℕ)
    → IsQueue s q
    → IsQueue
        (update_button s raw)
        (filled input_queue_size q (clicks s.btn_state s.btn_debounce raw))
      × ((update_button s raw).btn_state
          ≡ (if leb input_debounce s.btn_debounce then raw else s.btn_state))
      × ((update_button s raw).btn_debounce ≡ s.btn_debounce)
      × ((update_button s raw).btn_raw_last ≡ s.btn_raw_last)
      × ((update_button s raw).last_dir ≡ s.last_dir)
unfolding update_button
update_button_lem s q raw v =
    let still = subst (IsQueue s) (sym (filled-nothing input_queue_size q)) v in
    elim (Bool-cases (leb input_debounce s.btn_debounce)) [
      | inr n ↦ rw n (still, refl, refl, refl, refl)
      | inl y ↦ elim (Bool-cases (raw == s.btn_state)) [
        | inl y1 ↦
            let e : s.btn_state ≡ raw = ground arith in rw (y, y1) (still, e, refl, refl, refl)
        | inr n1 ↦
            let set : Input = record s { btn_state = raw } in
            let ev = if raw == 0 then input_release else input_press in
            let w : IsQueue set q = v in
            let (_, d, a, b, c) = event_push-state set ev in
            rw (y, n1) (event_push-filled set q ev w, a, b, c, d)
      ]
    ]

-- The counter after a reading `raw`: three equal readings behind the first one make it full.
abbrev pub counted : ℕ → ℕ → ℕ → ℕ
counted last count raw =
    if raw == last then (if ltb count input_debounce then count + 1 else count) else 0

pub debounce_lem :
    (s : Input) (raw : ℕ)
    → ((debounce s raw).event_queue ≡ s.event_queue)
      × ((debounce s raw).eq_head ≡ s.eq_head)
      × ((debounce s raw).eq_tail ≡ s.eq_tail)
      × ((debounce s raw).last_dir ≡ s.last_dir)
      × ((debounce s raw).btn_state ≡ s.btn_state)
      × ((debounce s raw).btn_debounce ≡ counted s.btn_raw_last s.btn_debounce raw)
      × ((debounce s raw).btn_raw_last ≡ raw)
unfolding debounce
debounce_lem s raw = elim (Bool-cases (raw == s.btn_raw_last)) [
  | inr n ↦ rw n (refl, refl, refl, refl, refl, refl, refl)
  | inl y ↦
      let e : s.btn_raw_last ≡ raw = ground arith in
      elim (Bool-cases (ltb s.btn_debounce input_debounce)) [
        | inl y1 ↦ rw (y, y1) (refl, refl, refl, refl, refl, refl, e)
        | inr n1 ↦ rw (y, n1) (refl, refl, refl, refl, refl, refl, e)
      ]
]

-- `input_update` with the readings `adc` and `pin`, on a queue that holds `q`. A change of direction,
-- except back to the centre, gives its event, and then the button's new state gives one if the counter
-- is full and the reading differs from the state. The queue takes them at its end in that order, so
-- long as there is room with 15 in all. The direction is kept, the counter counts on or starts again,
-- and the button's state is the reading if the counter is full, and the old one otherwise.
pub input_update_lem :
    (s : Input) (q : List InputEvent) (adc : ℕ) (pin : Bool)
    → IsQueue s q
    → let s' = input_update s adc pin in
      let raw = raw_of pin in
      let count = counted s.btn_raw_last s.btn_debounce raw in
      IsQueue s' (
        filled input_queue_size
          (filled input_queue_size q (moves s.last_dir (direction adc)))
          (clicks s.btn_state count raw))
      × (s'.btn_state ≡ (if leb input_debounce count then raw else s.btn_state))
      × (s'.btn_debounce ≡ count)
      × (s'.btn_raw_last ≡ raw)
      × (s'.last_dir ≡ direction adc)
unfolding input_update
input_update_lem s q adc pin v =
    let raw = raw_of pin in
    let seen : Input = record s { last_x_raw = adc } in
    let w : IsQueue seen q = v in
    let moved = update_direction seen (direction adc) in
    let (m, d, b, c, l) = update_direction_lem seen q (direction adc) w in
    let (e1, e2, e3, e4, e5, e6, e7) = debounce_lem moved raw in
    let count = counted s.btn_raw_last s.btn_debounce raw in
    let after : List InputEvent = filled input_queue_size q (moves s.last_dir (direction adc)) in
    let in_order : IsQueue (debounce moved raw) after = rw (e1, e2, e3) m in
    let (r, st, c', l', d') = update_button_lem (debounce moved raw) after raw in_order in
    let counter : (debounce moved raw).btn_debounce ≡ count = e6 ∙ rw (l, c) refl in
    let state : (debounce moved raw).btn_state ≡ s.btn_state = e5 ∙ b in
    (
      subst
          (λ n.
            IsQueue (update_button (debounce moved raw) raw)
              (filled input_queue_size after (clicks n count raw)))
          state
          (subst
            (λ n.
              IsQueue (update_button (debounce moved raw) raw)
                (filled input_queue_size after (clicks (debounce moved raw).btn_state n raw)))
            counter r),
      st ∙ ap₂ (λ n m. if leb input_debounce n then raw else m) counter state,
      c' ∙ counter,
      l' ∙ e7,
      d' ∙ e4 ∙ d,
    )

-- `input_poll` on a queue that holds `q`: if `q` is empty, it returns `INPUT_NONE` and changes nothing;
-- otherwise it returns the oldest event and leaves the others.
pub input_poll_lem :
    (s : Input) (q : List InputEvent)
    → IsQueue s q
    → ((q ≡ []) × (input_poll s ≡ (s, input_none)))
      ⊎ ((ev : InputEvent) × (rest : List InputEvent) × ((q ≡ ev ∷ rest)
            × ((input_poll s).1 ≡ ev)
            × IsQueue (input_poll s).0 rest))
unfolding input_poll
input_poll_lem s q v = elim (Bool-cases (s.eq_head == s.eq_tail)) [
  | inl y ↦ inl (
      rw y
        (IsRing-empty input_queue_size s.event_queue s.eq_head s.eq_tail q v (ground arith), refl))
  | inr n ↦
      let (rest, e, w) =
        IsRing-pop input_queue_size s.event_queue s.eq_head s.eq_tail q v (λ e. ground arith) in
      inr (s.event_queue s.eq_tail, rest, rw n (e, refl, w))
]
