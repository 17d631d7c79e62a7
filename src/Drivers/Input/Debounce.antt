-- ===== src/Drivers/Input/Debounce.antt =====
-- The debouncing, over any readings after `input_init`.
use osito_k.Base.{
  ℕ, zero, suc, ◌+◌, ◌<◌, ◌≤◌, ◌≡◌, ◌≢◌, inl, inr, refl, subst, Bool, List, [], ◌∷◌, length, ltb,
  leb, ◌==◌, Bool-cases, All, arith,
}
use osito_k.Drivers.Ring.{take, filled}
use osito_k.Drivers.Input.{
  InputEvent, Input, input_queue_size, input_debounce, input_init, input_update, raw_of, direction,
}
use osito_k.Drivers.Input.Events.{IsQueue, counted, moves, clicks, input_update_lem}

-- A reading of the converter and one of the pin; the last one stands first.
abbrev pub Readings : Type 0
Readings = List (ℕ × Bool)

unfoldable pub polled : Input → Readings → Input
polled s [] = input_init s
polled s (r ∷ rs) = input_update (polled s rs) r.0 r.1

-- As many readings as the counter says, from the last one back, were `raw`.
record IsHeld (rs : Readings) (count raw : ℕ) : Type 0 where
  enough : count ≤ length rs
  bounded : count ≤ input_debounce
  same : All (λ r. raw_of r.1 ≡ raw) (take count rs)

All-take :
    {A : Type 0} (P : A → Type 0) (xs : List A) (m n : ℕ)
    → m ≤ n
    → All P (take n xs)
    → All P (take m xs)
All-take P xs zero n le h = tt
All-take P [] (suc m) n le h = tt
All-take P (x ∷ xs) (suc m) zero le h = absurd (omega arith)
All-take P (x ∷ xs) (suc m) (suc n) le h = (h.0, All-take P xs m n (omega arith) h.1)

counted-IsHeld :
    (rs : Readings) (count last : ℕ) (r : ℕ × Bool)
    → IsHeld rs count last
    → IsHeld (r ∷ rs) (counted last count (raw_of r.1)) (raw_of r.1)
counted-IsHeld rs count last r v = elim (Bool-cases (raw_of r.1 == last)) [
  | inr n ↦ rw n (record { enough = omega arith; bounded = omega arith; same = tt })
  | inl y ↦
      let e : last ≡ raw_of r.1 = ground arith in
      let same = subst (λ k. All (λ r. raw_of r.1 ≡ k) (take count rs)) e v.same in
      let enough = v.enough in
      let bounded = v.bounded in
      elim (Bool-cases (ltb count input_debounce)) [
        | inl y1 ↦
            let q : count + 1 ≡ suc count = omega arith in
            let lt : count < input_debounce = ground arith in
            rw (y, y1, q)
              (record { enough = omega arith; bounded = omega arith; same = (refl, same) })
        | inr n1 ↦
            let full : count ≡ 3 = ground arith in
            let shorter = All-take (λ x. raw_of x.1 ≡ raw_of r.1) rs 2 count (omega arith) same in
            rw (y, n1, full)
              (record { enough = omega arith; bounded = omega arith; same = (refl, shorter) })
      ]
]

polled_lem :
    (s : Input) (rs : Readings)
    → ((q : List InputEvent) × IsQueue (polled s rs) q)
      × IsHeld rs (polled s rs).btn_debounce (polled s rs).btn_raw_last
unfolding polled input_init
polled_lem s [] = (
  ([], record { inside = omega arith; room = omega arith; end = refl; shown = refl }),
  record { enough = omega arith; bounded = omega arith; same = tt },
)
polled_lem s (r ∷ rs) =
    let ((q, v), held) = polled_lem s rs in
    let t = polled s rs in
    let (w, _, c, l, _) = input_update_lem t q r.0 r.1 v in
    (
      (
        filled input_queue_size (filled input_queue_size q (moves t.last_dir (direction r.0)))
            (clicks t.btn_state (counted t.btn_raw_last t.btn_debounce (raw_of r.1)) (raw_of r.1)),
        w,
      ),
      rw (c, l) (counted-IsHeld rs t.btn_debounce t.btn_raw_last r held),
    )

-- After `input_init` and any readings, an `input_update` that changes the state of the button makes it
-- the reading, and this reading and the two before were the same.
pub input_update_debounced :
    (s : Input) (rs : Readings) (adc : ℕ) (pin : Bool)
    → (input_update (polled s rs) adc pin).btn_state ≢ (polled s rs).btn_state
    → ((input_update (polled s rs) adc pin).btn_state ≡ raw_of pin)
      × (3 ≤ length ((adc, pin) ∷ rs))
      × All (λ r. raw_of r.1 ≡ raw_of pin) (take 3 ((adc, pin) ∷ rs))
input_update_debounced s rs adc pin ne =
    let t = polled s rs in
    let ((q, v), held) = polled_lem s rs in
    let (_, st, _, _, _) = input_update_lem t q adc pin v in
    let count = counted t.btn_raw_last t.btn_debounce (raw_of pin) in
    let now : IsHeld ((adc, pin) ∷ rs) count (raw_of pin) =
      counted-IsHeld rs t.btn_debounce t.btn_raw_last (adc, pin) held in
    elim (Bool-cases (leb input_debounce count)) [
      | inr n ↦ absurd (ne (rw n at st))
      | inl y ↦
          let b = now.bounded in
          let full : count ≡ 3 = ground arith in
          (rw y at st, omega (arith, full, now.enough), rw full at now.same)
    ]
