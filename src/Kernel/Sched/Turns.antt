-- ===== src/Kernel/Sched/Turns.antt =====
-- How long a task can wait while it could run and nobody has a higher priority.
use osito_k.Base.{ℕ, zero, suc, ◌+◌, ◌≤◌, ◌<◌, ◌≡◌, ◌≢◌, arith}
use osito_k.Kernel.Task.{Kernel, max_tasks}
use osito_k.Kernel.Invariant.{IsKernel, Runnable}
use osito_k.Kernel.Sched.{schedule}
use osito_k.Kernel.Sched.Choice.{place}
use osito_k.Kernel.Sched.Priority.{Scheduled, schedule-Scheduled}

-- Task `j`, not idle, could run, and no task that could run has a higher priority.
pub record IsTop (j : ℕ) (k : Kernel) : Type 0 where
  pub inside : j < max_tasks
  pub not_idle : j ≢ 0
  pub could_run : Runnable k j
  pub above_none :
      (i : ℕ) → i < max_tasks → Runnable k i → (k.task_pool i).priority ≤ (k.task_pool j).priority

-- `n` calls of `schedule` that all pass `j` over, though it is at the top each time. Between two
-- calls the tasks and the interrupts may do to the table what they like, so long as the kernel's
-- invariant holds; only `schedule` writes `last_scheduled`.
pub data PassedOver (j : ℕ) (k : Kernel) : ℕ → Kernel → Type 0 where
  start : PassedOver j k zero k
  pass :
      {n : ℕ} {m m' : Kernel}
      → PassedOver j k n m
      → IsKernel m
      → IsTop j m
      → (schedule m).current_task ≢ j
      → m'.last_scheduled ≡ (schedule m).last_scheduled
      → PassedOver j k (suc n) m'

place_step :
    (last c j : ℕ)
    → last < max_tasks
    → c < max_tasks
    → j < max_tasks
    → c ≢ j
    → place last c ≤ place last j
    → place c j < place last j
place_step last c j hl hc hj ne le = omega arith

-- A call that passes `j` over brings the round one place nearer to it at least.
nearer :
    {j : ℕ} {k k' : Kernel}
    → IsKernel k
    → IsTop j k
    → Scheduled k k'
    → k'.current_task ≢ j
    → place k'.last_scheduled j < place k.last_scheduled j
nearer {j} {k} {k'} v t s ne =
    let h = s.highest j t.inside t.could_run in
    let a = t.above_none k'.current_task s.inside s.could_run in
    rw s.remembered (
      place_step k.last_scheduled k'.current_task j v.last_in s.inside t.inside ne
        (s.turn j t.inside t.not_idle t.could_run (omega arith)))

PassedOver-place :
    {j : ℕ} {k : Kernel} {n : ℕ} {m : Kernel}
    → PassedOver j k n m
    → n + place m.last_scheduled j ≤ place k.last_scheduled j
PassedOver-place start = omega arith
PassedOver-place {j} (pass {m = x} p v t ne e) =
    rw e (omega (arith, nearer v t (schedule-Scheduled v) ne, PassedOver-place p))

-- A task that is at the top (not idle, able to run, none that could run above it) at each of `n`
-- consecutive calls of `schedule`, all of which choose another, has seen at most seven of them,
-- whatever the tasks and interrupts do to the table in between, so long as it stays in order and
-- `last_scheduled` is left alone.
pub PassedOver-le : {j n : ℕ} {k m : Kernel} → PassedOver j k n m → n ≤ 7
PassedOver-le p = omega (arith, PassedOver-place p)
