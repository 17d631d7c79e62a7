-- ===== src/Kernel/Sched/Choice.antt =====
-- The task that `schedule` settles on, in a table where idle is ready and has priority 0.
use osito_k.Base.{
  ℕ, ◌+◌, ◌-◌, ◌%◌, ◌≤◌, ◌<◌, ◌≡◌, inl, inr, true, false, none, Array, arith, subst, Option-cases,
}
use native.Mathlib.Decide.{dec_lt, ℕ_discrete}
use osito_k.Kernel.Task.{Tcb, is_ready, max_tasks}
use osito_k.Kernel.Sched.{max_ready, find_next, is_eligible, or_idle}
use osito_k.Kernel.Sched.Pick.{
  priority-le-max_ready, max_ready_cases, behind, Found, find_next-Found, find_next-none,
}

-- How many places behind `last + 1` task `j` stands, going round.
abbrev pub place : ℕ → ℕ → ℕ
place last j = (j + 7 - last) % max_tasks

behind-place : (last j : ℕ) → last < 8 → j < 8 → behind last (place last j) ≡ j
behind-place last j hl hj = omega arith

place-behind : (last d : ℕ) → last < 8 → d < 8 → place last (behind last d) ≡ d
place-behind last d hl hd = omega arith

module _ (pool : Array Tcb) (last : ℕ) where
  abbrev pub top : ℕ
  top = max_ready pool max_tasks 0 0

  abbrev pub pick : ℕ
  pick = or_idle (find_next max_tasks pool top last)

  pub record Choice (c : ℕ) : Type 0 where
    pub inside : c < max_tasks
    pub ready_ : is_ready (pool c).state ≡ true
    pub highest : (pool c).priority ≡ top
    -- A task that is eligible too stands further behind `last`.
    pub first :
        (j : ℕ) → j < max_tasks → is_eligible pool top j ≡ true → place last c ≤ place last j

  Found-Choice : (c : ℕ) → last < 8 → Found pool top 8 last c → Choice c
  Found-Choice c hl (d, lt, e, t, all) = record {
    inside = omega arith;
    ready_ = ground arith;
    highest = ground arith;
    first = λ j hj el. elim (dec_lt (place last j) d) [
      | yes p ↦ absurd (
          cc (
            subst (λ i. is_eligible pool top i ≡ false) (behind-place last j hl hj)
                (all (place last j) p),
            el,
          ))
      | no p ↦ let q : place last c ≡ d = rw e (place-behind last d hl lt) in omega arith
    ];
  }

  -- Where no other task is eligible, idle is ready at the top priority.
  none-Choice :
      last < 8
      → (pool 0).priority ≡ 0
      → is_ready (pool 0).state ≡ true
      → find_next max_tasks pool top last ≡ none
      → Choice 0
  none-Choice hl pri rdy h = record {
    inside = omega arith;
    ready_ = rdy;
    highest = elim (max_ready_cases pool max_tasks 0 0) [
      | inl e ↦ omega arith
      | inr (j, lt, r, q) ↦ elim (ℕ_discrete j 0) [
        | yes z ↦ rw z at q
        | no nz ↦ absurd (none_eligible j (omega arith) (ground arith))
      ]
    ];
    first = λ j hj el. absurd (none_eligible j hj el);
  }
    where
      none_eligible : (j : ℕ) → j < max_tasks → ¬ (is_eligible pool top j ≡ true)
      none_eligible j hj el = cc (
        subst (λ i. is_eligible pool top i ≡ false) (behind-place last j hl hj)
            (find_next-none pool top 8 last (place last j) h (omega arith)),
        el,
      )

  pub pick-Choice :
      last < max_tasks → (pool 0).priority ≡ 0 → is_ready (pool 0).state ≡ true → Choice pick
  pick-Choice hl pri rdy = elim (Option-cases (find_next max_tasks pool top last)) [
    | inl h ↦ rw h (none-Choice hl pri rdy h)
    | inr (i, h) ↦ rw h (Found-Choice i hl (find_next-Found pool top 8 last i h))
  ]

  -- No ready task has a higher priority than the one picked.
  pub priority-le-pick :
      {c : ℕ} (j : ℕ)
      → Choice c
      → j < max_tasks
      → is_ready (pool j).state ≡ true
      → (pool j).priority ≤ (pool c).priority
  priority-le-pick j ch hj r =
      omega (
        arith,
        ch.highest,
        priority-le-max_ready pool max_tasks 0 0 j (omega arith) (omega arith) r,
      )
