-- ===== src/Kernel/SwTimer/Registry.antt =====
-- The registry as a list of different timers.
use osito_k.Base.{
  ℕ, zero, suc, ◌+◌, ◌-◌, ◌%◌, ◌≤◌, ◌<◌, ◌≡◌, ◌≢◌, ◌⊎◌, inl, inr, refl, sym, ap, ap₂, ◌∙◌, true,
  false, Option, none, some, List, [], ◌∷◌, ◌++◌, Array, update, update_self, update_ne, window,
  window_eq, window-snoc, length-window, length, length-append, All, Has, Distinct, Distinct-snoc,
  Distinct-erase, erase-append, erase_none, erase_shorter, Has-append, erase, ltb, ◌==◌, Bool-cases,
  First, first_index-First, arith,
}
use osito_k.Kernel.Sem.{shift_down}
use osito_k.Kernel.Sem.Queue.{shift_down_below, shift_down_in}
use osito_k.Kernel.Task.{u32}
use osito_k.Kernel.SwTimer.{
  SwTimer, Timers, swtimer_max, find_timer, register_found, swtimer_register, unregister_found,
  swtimer_unregister, swtimer_start, swtimer_stop,
}

-- The timers of the list `l` are registered, in its order.
pub record IsRegistry {W : Type 0} (s : Timers W) (l : List ℕ) : Type 0 where
  pub shown : window s.timer_list 0 s.timer_count ≡ l
  pub distinct : Distinct l
  pub bounded : length l ≤ swtimer_max

window-append : (w : Array ℕ) (i m n : ℕ) → window w i (m + n) ≡ window w i m ++ window w (i + m) n
window-append w i zero n =
    let q : i + 0 ≡ i = omega arith in let r : 0 + n ≡ n = omega arith in rw (q, r) refl
window-append w i (suc m) n =
    let q : suc m + n ≡ suc (m + n) = omega arith in
    let r : i + suc m ≡ i + 1 + m = omega arith in
    rw (q, r) (ap (λ l. w i ∷ l) (window-append w (i + 1) m n))

window-All :
    (P : ℕ → Type 0) (w : Array ℕ) (i n : ℕ)
    → ((d : ℕ) → i ≤ d → d < i + n → P (w d))
    → All P (window w i n)
window-All P w i zero h = tt
window-All P w i (suc n) h = (
  h i (omega arith) (omega arith),
  window-All P w (i + 1) n (λ d lo hi. h d (omega arith) (omega arith)),
)

-- The part of the list in front of the timer found, and the part behind it.
module _ (w : Array ℕ) (n t i : ℕ) (first : First (λ j. w j == t) 0 n (some i)) where
  split_window : window w 0 n ≡ window w 0 i ++ t ∷ window w (i + 1) (n - 1 - i)
  split_window =
      let (_, lt, e, _) = first in
      let q : n ≡ i + suc (n - 1 - i) = omega arith in
      let at_i : w i ≡ t = ground arith in
      let z : 0 + i ≡ i = omega arith in
      ap (window w 0) q ∙ rw (z, at_i) at (window-append w 0 i (suc (n - 1 - i)))

  none_in_front : All (λ x. x ≢ t) (window w 0 i)
  none_in_front =
      let (_, _, _, before) = first in
      window-All (λ x. x ≢ t) w 0 i
        (λ d lo hi e. let f = before d lo (omega arith) in absurd (ground arith))

  -- The loop of `swtimer_unregister` takes out the timer found.
  window-removed : window (shift_down (n - 1 - i) (i + 1) w) 0 (n - 1) ≡ erase t (window w 0 n)
  window-removed =
      let (_, lt, e, _) = first in
      let q : n - 1 ≡ i + (n - 1 - i) = omega arith in
      let z : 0 + i ≡ i = omega arith in
      let front : window (shift_down (n - 1 - i) (i + 1) w) 0 i ≡ window w 0 i =
        window_eq (shift_down (n - 1 - i) (i + 1) w) w 0 0 i
          (λ d h. shift_down_below (n - 1 - i) (i + 1) (0 + d) w (omega arith)) in
      let back : window (shift_down (n - 1 - i) (i + 1) w) i (n - 1 - i)
          ≡ window w (i + 1) (n - 1 - i) =
        window_eq (shift_down (n - 1 - i) (i + 1) w) w i (i + 1) (n - 1 - i) (λ d h.
          let r : i + d + 1 ≡ i + 1 + d = omega arith in
          rw r at (
            shift_down_in (n - 1 - i) (i + 1) (i + d) w (omega arith) (omega arith)
              (omega arith))) in
      ap (window (shift_down (n - 1 - i) (i + 1) w) 0) q
      ∙ rw z at (window-append (shift_down (n - 1 - i) (i + 1) w) 0 i (n - 1 - i))
      ∙ ap₂ ◌++◌ front back
      ∙ sym (
          ap (erase t) split_window
          ∙ erase-append t (window w 0 i) (window w (i + 1) (n - 1 - i)) none_in_front)

-- What registering does: a timer that is registered stays where it is, a new one comes to the end,
-- unless the registry is full.
abbrev pub Enlisted : ℕ → List ℕ → List ℕ → Type 0
Enlisted t l l' =
    (Has t l × (l' ≡ l))
    ⊎ (All (λ x. x ≢ t) l × (length l < swtimer_max) × (l' ≡ l ++ t ∷ []))
    ⊎ (All (λ x. x ≢ t) l × (length l ≡ swtimer_max) × (l' ≡ l))

register-timers :
    {W : Type 0} (s : Timers W) (t : ℕ) (r : Option ℕ) → (register_found s t r).timers ≡ s.timers
unfolding register_found
register-timers s t (some i) = refl
register-timers s t none = elim (Bool-cases (ltb s.timer_count swtimer_max)) [
  | inl y ↦ rw y refl
  | inr n ↦ rw n refl
]

pub unregister-timers :
    {W : Type 0} (s : Timers W) (r : Option ℕ) → (unregister_found s r).timers ≡ s.timers
unfolding unregister_found
unregister-timers s (some i) = refl
unregister-timers s none = refl

pub unregister-tick :
    {W : Type 0} (s : Timers W) (r : Option ℕ) → (unregister_found s r).tick_count ≡ s.tick_count
unfolding unregister_found
unregister-tick s (some i) = refl
unregister-tick s none = refl

pub unregister-world :
    {W : Type 0} (s : Timers W) (r : Option ℕ) → (unregister_found s r).world ≡ s.world
unfolding unregister_found
unregister-world s (some i) = refl
unregister-world s none = refl

module _ {W : Type 0} (s : Timers W) {l : List ℕ} (t : ℕ) (v : IsRegistry s l) where
  count_is : s.timer_count ≡ length l
  count_is = sym (length-window s.timer_list 0 s.timer_count) ∙ ap length v.shown

  found : First (λ i. s.timer_list i == t) 0 s.timer_count (find_timer s t)
  unfolding find_timer
  found = first_index-First s.timer_count (λ i. s.timer_list i == t) 0 s.timer_count (omega arith)

  -- What the search says of the list.
  abbrev Sought : Option ℕ → Type 0
  Sought none = All (λ x. x ≢ t) l
  Sought (some i) = Has t l

  sought : (r : Option ℕ) → First (λ i. s.timer_list i == t) 0 s.timer_count r → Sought r
  sought none none_is = rw v.shown at (
      window-All (λ x. x ≢ t) s.timer_list 0 s.timer_count
        (λ d lo hi e. let f = none_is d lo (omega arith) in absurd (ground arith)))
  sought (some i) first = rw (← v.shown) (
      rw (split_window s.timer_list s.timer_count t i first) (
        Has-append t (window s.timer_list 0 i)
          (window s.timer_list (i + 1) (s.timer_count - 1 - i))))

  unregister_lem :
      (r : Option ℕ)
      → First (λ i. s.timer_list i == t) 0 s.timer_count r
      → window (unregister_found s r).timer_list 0 (unregister_found s r).timer_count ≡ erase t l
  unfolding unregister_found
  unregister_lem none f = v.shown ∙ sym (erase_none t l (sought none f))
  unregister_lem (some i) f = window-removed s.timer_list s.timer_count t i f ∙ ap (erase t) v.shown

  pub swtimer_unregister-IsRegistry : IsRegistry (swtimer_unregister s t) (erase t l)
  unfolding swtimer_unregister
  swtimer_unregister-IsRegistry = record {
    shown = unregister_lem (find_timer s t) found;
    distinct = (Distinct-erase t l v.distinct).0;
    bounded = let b = v.bounded in omega (arith, erase_shorter t l);
  }

  register_lem :
      (r : Option ℕ)
      → First (λ i. s.timer_list i == t) 0 s.timer_count r
      → (l' : List ℕ) × IsRegistry (register_found s t r) l' × Enlisted t l l'
  unfolding register_found
  register_lem (some i) f = (l, v, inl (sought (some i) f, refl))
  register_lem none f = elim (Bool-cases (ltb s.timer_count swtimer_max)) [
    | inl y ↦
        let room : s.timer_count < swtimer_max = ground arith in
        let c = count_is in
        rw y (
          l ++ t ∷ [],
          record {
            shown =
                (let q : s.timer_count + 1 ≡ suc s.timer_count = omega arith in
                  ap (window (update s.timer_list s.timer_count t) 0) q)
                ∙ window-snoc s.timer_list 0 s.timer_count s.timer_count t (omega arith)
                ∙ ap (λ k. k ++ t ∷ []) v.shown;
            distinct = Distinct-snoc l t v.distinct (sought none f);
            bounded = omega (arith, length-append l (t ∷ []), c);
          },
          inr (inl (sought none f, omega (arith, c), refl)),
        )
    | inr n ↦
        let full : swtimer_max ≤ s.timer_count = ground arith in
        let c = count_is in
        let b = v.bounded in rw n (l, v, inr (inr (sought none f, omega arith, refl)))
  ]

-- `swtimer_start` on a registry in order sets the timer's period, mode and expiry, `ticks` after the
-- present tick, modulo 2 ^ 32, and makes it active; no other timer changes. A timer that is registered
-- stays at its place in the registry; another comes to its end, unless eight are registered; then the
-- registry stays as it was.
pub swtimer_start_lem :
    {W : Type 0} (s : Timers W) {l : List ℕ} (t ticks mode : ℕ)
    → IsRegistry s l
    → let s' = swtimer_start s t ticks mode in
      ((l' : List ℕ) × IsRegistry s' l' × Enlisted t l l')
      × (s'.timers t ≡ record (s.timers t) {
        interval = ticks;
        mode = mode;
        expire_tick = (s.tick_count + ticks) % u32;
        active = true;
      })
      × ((u : ℕ) → t ≢ u → s'.timers u ≡ s.timers u)
unfolding swtimer_start swtimer_register
swtimer_start_lem {W} s {l} t ticks mode v =
    let set : SwTimer = record (s.timers t) {
      interval = ticks;
      mode = mode;
      expire_tick = (s.tick_count + ticks) % u32;
      active = true;
    } in
    let started : Timers W = record s { timers = update s.timers t set } in
    let w : IsRegistry started l = record {
      shown = v.shown;
      distinct = v.distinct;
      bounded = v.bounded;
    } in
    let same = register-timers started t (find_timer started t) in
    (
      register_lem started t w (find_timer started t) (found started t w),
      ap (λ f. f t) same ∙ update_self s.timers t set,
      λ u ne. ap (λ f. f u) same ∙ update_ne s.timers t u set ne,
    )

-- `swtimer_stop` on a registry in order takes the timer out, and the others keep their order; it makes
-- the timer inactive, and no other timer changes.
pub swtimer_stop_lem :
    {W : Type 0} (s : Timers W) {l : List ℕ} (t : ℕ)
    → IsRegistry s l
    → let s' = swtimer_stop s t in
      IsRegistry s' (erase t l)
      × (s'.timers t ≡ record (s.timers t) { active = false })
      × ((u : ℕ) → t ≢ u → s'.timers u ≡ s.timers u)
unfolding swtimer_stop
swtimer_stop_lem {W} s {l} t v =
    let set : SwTimer = record (s.timers t) { active = false } in
    let stopped : Timers W = record s { timers = update s.timers t set } in
    let w : IsRegistry stopped l = record {
      shown = v.shown;
      distinct = v.distinct;
      bounded = v.bounded;
    } in
    let same : (swtimer_unregister stopped t).timers ≡ stopped.timers =
      unfold swtimer_unregister in unregister-timers stopped (find_timer stopped t) in
    (
      swtimer_unregister-IsRegistry stopped t w,
      ap (λ f. f t) same ∙ update_self s.timers t set,
      λ u ne. ap (λ f. f u) same ∙ update_ne s.timers t u set ne,
    )
