-- ===== src/Kernel/Sched/Pick.antt =====
-- The two loops of `schedule`: what the maximum bounds, and which task the second loop finds.
use osito_k.Base.{
  ℕ, zero, suc, ◌+◌, ◌%◌, ◌≤◌, ◌<◌, ◌≡◌, refl, sym, ◌∙◌, ◌⊎◌, inl, inr, true, false, ◌&&◌, none,
  some, Array, ltb, if◌then◌else◌, arith, Bool-cases,
}
use osito_k.Kernel.Task.{Tcb, is_ready, max_tasks}
use osito_k.Kernel.Sched.{max_ready, find_next, is_eligible}

module _ (pool : Array Tcb) where
  -- One round of the first loop.
  abbrev step : ℕ → ℕ → ℕ
  step i m = if is_ready (pool i).state && ltb m (pool i).priority then (pool i).priority else m

  le-max_ready : (n i m : ℕ) → m ≤ max_ready pool n i m
  unfolding max_ready
  le-max_ready zero i m = omega arith
  le-max_ready (suc n) i m = ground (arith, le-max_ready n (i + 1) (step i m))

  -- No ready task of the range is above the maximum.
  pub priority-le-max_ready :
      (n i m j : ℕ)
      → i ≤ j
      → j < i + n
      → is_ready (pool j).state ≡ true
      → (pool j).priority ≤ max_ready pool n i m
  unfolding max_ready
  priority-le-max_ready zero i m j h h' r = absurd (omega arith)
  priority-le-max_ready (suc n) i m j h h' r =
      ground
        (arith, le-max_ready n (i + 1) (step i m), priority-le-max_ready n (i + 1) (step i m) j)

  -- The maximum is where the loop began, or the priority of a ready task of the range.
  pub max_ready_cases :
      (n i m : ℕ)
      → (max_ready pool n i m ≡ m)
        ⊎ ((j : ℕ) × (j < i + n)
            × (is_ready (pool j).state ≡ true)
            × ((pool j).priority ≡ max_ready pool n i m))
  unfolding max_ready
  max_ready_cases zero i m = inl refl
  max_ready_cases (suc n) i m = elim (max_ready_cases n (i + 1) (step i m)) [
    | inl e ↦ elim (Bool-cases (is_ready (pool i).state && ltb m (pool i).priority)) [
      | inl t ↦ inr (i, omega arith, ground arith, ground arith)
      | inr f ↦ inl (ground arith)
    ]
    | inr (j, lt, r, q) ↦ inr (j, omega arith, r, q)
  ]

-- The task `d + 1` places behind `next`.
abbrev pub behind : ℕ → ℕ → ℕ
behind next d = (next + suc d) % max_tasks

behind-suc : (next d : ℕ) → behind ((next + 1) % max_tasks) d ≡ behind next (suc d)
behind-suc next d = omega arith

behind_zero : (next : ℕ) → behind next 0 ≡ (next + 1) % max_tasks
behind_zero next = omega arith

-- The second loop finds the first eligible task behind `next`.
module _ (pool : Array Tcb) (p : ℕ) where
  abbrev pub Found : ℕ → ℕ → ℕ → Type 0
  Found n next i =
      (d : ℕ) × (d < n)
      × (i ≡ behind next d)
      × (is_eligible pool p i ≡ true)
      × ((e : ℕ) → e < d → is_eligible pool p (behind next e) ≡ false)

  -- Nothing eligible lies before the first place or among the later ones.
  before :
      (next d : ℕ)
      → is_eligible pool p ((next + 1) % max_tasks) ≡ false
      → ((e : ℕ) → e < d → is_eligible pool p (behind ((next + 1) % max_tasks) e) ≡ false)
      → (e : ℕ) → e < suc d
      → is_eligible pool p (behind next e) ≡ false
  before next d f all zero lt = rw (behind_zero next) f
  before next d f all (suc e) lt = rw (← behind-suc next e) (all e (omega arith))

  find_next_hit :
      (n next : ℕ)
      → is_eligible pool p ((next + 1) % max_tasks) ≡ true
      → find_next (suc n) pool p next ≡ some ((next + 1) % max_tasks)
  unfolding find_next
  find_next_hit n next t = rw t

  find_next_miss :
      (n next : ℕ)
      → is_eligible pool p ((next + 1) % max_tasks) ≡ false
      → find_next (suc n) pool p next ≡ find_next n pool p ((next + 1) % max_tasks)
  unfolding find_next
  find_next_miss n next f = rw f

  pub find_next-Found : (n next i : ℕ) → find_next n pool p next ≡ some i → Found n next i
  find_next-Found zero next i h = unfold find_next in cc
  find_next-Found (suc n) next i h =
      elim (Bool-cases (is_eligible pool p ((next + 1) % max_tasks))) [
        | inl t ↦
            let e : i ≡ (next + 1) % max_tasks = cc (find_next_hit n next t) in
            (0, omega arith, omega arith, rw e t, λ k lt. absurd (omega arith))
        | inr f ↦
            let (d, lt, e, t, all) =
              find_next-Found n ((next + 1) % max_tasks) i (sym (find_next_miss n next f) ∙ h) in
            (suc d, omega arith, e ∙ behind-suc next d, t, before next d f all)
      ]

  pub find_next-none :
      (n next e : ℕ)
      → find_next n pool p next ≡ none
      → e < n
      → is_eligible pool p (behind next e) ≡ false
  find_next-none zero next e h lt = absurd (omega arith)
  find_next-none (suc n) next e h lt =
      elim (Bool-cases (is_eligible pool p ((next + 1) % max_tasks))) [
        | inl t ↦ absurd (cc (h, find_next_hit n next t))
        | inr f ↦
            before next n f
              (λ k lt'.
                find_next-none n ((next + 1) % max_tasks) k (sym (find_next_miss n next f) ∙ h) lt')
              e lt
      ]
