-- ===== src/Kernel/Sem/Wait.antt =====
-- `sem_wait` and `sem_trywait`.
use osito_k.Base.{
  window, window-snoc, ℕ, ◌+◌, ◌%◌, ◌<◌, ◌≡◌, ◌≢◌, refl, inl, inr, Bool, true, false, List, [], ◌∷◌,
  ◌++◌, All-map, All-snoc, Distinct, Distinct-snoc, length-append, length_of_Distinct, suc, arith,
  Bool-cases, if◌then◌else◌,
}
use osito_k.Kernel.Task.{Kernel, max_tasks}
use osito_k.Kernel.Invariant.{IsKernel, IsLive}
use osito_k.Kernel.Sched.Priority.{schedule-Scheduled, Scheduled-blocked}
use osito_k.Kernel.Sched.Keeps.{schedule-IsLive}
use osito_k.Kernel.Create.{task_yield}
use osito_k.Kernel.Sem.{Sem, is_positive, take, enqueue, block, wait_enter, sem_wait, sem_trywait}
use osito_k.Kernel.Sem.Invariant.{Waiting, IsSem, IsSem-frame, num_waiters_lem, Waiting-schedule}

-- What `sem_wait` did. If the count was positive: it is one less, and the caller goes on. If not:
-- the caller is the last in the queue, the count is the same, and another task runs.
abbrev pub Waited : Kernel → Sem → List ℕ → Kernel → Sem → Bool → Type 0
Waited k s q k' s' true = (k' ≡ k) × (s'.count + 1 ≡ s.count) × IsSem k' s' q
Waited k s q k' s' false =
    IsLive k'
    × (k'.current_task ≢ k.current_task)
    × (s'.count ≡ s.count)
    × IsSem k' s' (q ++ k.current_task ∷ [])

-- Taking leaves the queue empty, as it was.
take-IsSem :
    {k : Kernel} {s : Sem} {q : List ℕ}
    → IsSem k s q
    → is_positive s.count ≡ true
    → IsSem k (take s) q × ((take s).count + 1 ≡ s.count)
take-IsSem {s} v p = (
  record {
    shown = v.shown;
    waiting = v.waiting;
    distinct = v.distinct;
    idle_count = λ _. v.idle_count p;
    in_word = omega arith;
  },
  ground (arith, v.in_word),
)

module _ {k : Kernel} {s : Sem} {q : List ℕ} (live : IsLive k) (not_idle : k.current_task ≢ 0)
    (v : IsSem k s q) where
  -- The caller's number is its place in the table.
  own_id : (k.task_pool k.current_task).id ≡ k.current_task
  own_id = ground (arith, live.kernel.ids k.current_task, live.runs, live.kernel.current_in)

  block-IsKernel : IsKernel (block k s).0
  unfolding block
  block-IsKernel =
      let w = live.kernel in
      record {
        current_in = w.current_in;
        last_in = w.last_in;
        idle_runnable = ground (arith, w.idle_runnable);
        idle_priority = ground (arith, w.idle_priority);
        one_running = λ i hi. ground (arith, w.one_running i);
        ids = λ i hi. ground (arith, w.ids i, w.ids k.current_task, live.runs);
        awake = λ i hi. ground (arith, w.awake i, w.awake k.current_task, live.runs);
      }

  -- Who waits already still waits, and is not the caller.
  Waiting-block : (t : ℕ) → Waiting k t → Waiting (block k s).0 t
  unfolding block
  Waiting-block t w =
      let ne : t ≢ k.current_task = λ e. cc (w.is_blocked, live.runs, e) in
      record {
        inside = w.inside;
        is_blocked = ground (arith, w.is_blocked);
        no_alarm = ground (arith, w.no_alarm);
      }

  Waiting-self : Waiting (block k s).0 k.current_task
  unfolding block
  Waiting-self = record {
    inside = live.kernel.current_in;
    is_blocked = ground arith;
    no_alarm = ground (arith, live.kernel.awake k.current_task, live.runs, live.kernel.current_in);
  }

  joined : Distinct (q ++ k.current_task ∷ [])
  joined = Distinct-snoc q k.current_task v.distinct (
      All-map (Waiting k) (λ t. t ≢ k.current_task) q (λ t w e. cc (w.is_blocked, live.runs, e))
        v.waiting)

  -- The array has a free place for the caller.
  pub num_waiters_room : s.num_waiters < max_tasks
  num_waiters_room = omega (
    arith,
    num_waiters_lem v,
    length-append q (k.current_task ∷ []),
    length_of_Distinct max_tasks (q ++ k.current_task ∷ []) joined (
        All-snoc (λ t. t < max_tasks) q k.current_task
          (All-map (Waiting k) (λ t. t < max_tasks) q (λ t w. w.inside) v.waiting)
          live.kernel.current_in),
  )

  enqueue_shown :
      window (enqueue s k.current_task).waiters 0 (enqueue s k.current_task).num_waiters
      ≡ q ++ k.current_task ∷ []
  enqueue_shown =
      let e : (s.num_waiters + 1) % 256 ≡ suc s.num_waiters =
        let r = num_waiters_room in omega arith in
      rw (
        e,
        window-snoc s.waiters 0 s.num_waiters s.num_waiters k.current_task (omega arith),
        v.shown,
      )

  block-IsSem :
      is_positive s.count ≡ false → IsSem (block k s).0 (block k s).1 (q ++ k.current_task ∷ [])
  unfolding block
  block-IsSem np = record {
    shown = rw own_id enqueue_shown;
    waiting =
        All-snoc (Waiting (block k s).0) q k.current_task
          (All-map (Waiting k) (Waiting (block k s).0) q Waiting-block v.waiting) Waiting-self;
    distinct = joined;
    idle_count = λ p. absurd (cc (p, np));
    in_word = v.in_word;
  }

  yield-IsSem :
      is_positive s.count ≡ false
      → IsSem (task_yield (block k s).0) (block k s).1 (q ++ k.current_task ∷ [])
  unfolding task_yield
  yield-IsSem np = IsSem-frame (Waiting-schedule block-IsKernel) (block-IsSem np)

  block_others : (task_yield (block k s).0).current_task ≢ k.current_task
  unfolding task_yield
  block_others =
      (Scheduled-blocked k.current_task (schedule-Scheduled block-IsKernel) live.kernel.current_in
        Waiting-self.is_blocked).0

  yield-IsLive : IsLive (task_yield (block k s).0)
  unfolding task_yield
  yield-IsLive = schedule-IsLive block-IsKernel

  count-block : (block k s).1.count ≡ s.count
  unfolding block
  count-block = refl

  -- `sem_wait`, called by a running task other than idle on a semaphore in order. If the count is
  -- positive, the count drops by one, the queue keeps its order, and the kernel is untouched; if
  -- not, the caller is last in the queue, the count is as it was, and another task runs on a table
  -- in order.
  pub sem_wait-Waited : Waited k s q (sem_wait k s).0 (sem_wait k s).1 (is_positive s.count)
  unfolding sem_wait wait_enter
  sem_wait-Waited = elim (Bool-cases (is_positive s.count)) [
    | inl p ↦ let (t, c) = take-IsSem v p in rw p (refl, c, t)
    | inr np ↦ rw np (yield-IsLive, block_others, count-block, yield-IsSem np)
  ]

-- On a semaphore in order `sem_trywait` succeeds exactly if the count is positive; it takes one off
-- the count if it succeeds and nothing otherwise, and the queue stays as it was.
pub sem_trywait_lem :
    {k : Kernel} {s : Sem} {q : List ℕ}
    → IsSem k s q
    → let (s', done) = sem_trywait s in
      (done ≡ is_positive s.count) × IsSem k s' q × (s'.count + (if done then 1 else 0) ≡ s.count)
unfolding sem_trywait
sem_trywait_lem {s} v = elim (Bool-cases (is_positive s.count)) [
  | inl p ↦ let (t, c) = take-IsSem v p in rw p (refl, t, c)
  | inr np ↦ rw np (refl, v, omega arith)
]
