-- ===== src/Kernel/Sched/Priority.antt =====
-- What `schedule` promises: the highest priority runs, equals take turns, and nothing else changes.
use osito_k.Base.{ℕ, ◌≤◌, ◌<◌, ◌≡◌, ◌≢◌, refl, ◌∙◌, subst, true, arith, if◌then◌else◌, ◌==◌}
use osito_k.Kernel.Task.{Kernel, ready, running, blocked, is_ready, is_running, max_tasks}
use osito_k.Kernel.Invariant.{IsKernel, Runnable}
use osito_k.Kernel.Sched.{schedule, demote, choose, dispatch}
use osito_k.Kernel.Sched.Choice.{place, top, Choice, pick-Choice, priority-le-pick}

-- After `demote` the runnable tasks are the ready ones.
demote_ready :
    {k : Kernel} (j : ℕ)
    → IsKernel k
    → j < max_tasks
    → Runnable k j
    → is_ready ((demote k).task_pool j).state ≡ true
unfolding demote
demote_ready {k} j v hj r = ground (arith, v.one_running j hj)

demote_same : (k : Kernel) (j : ℕ) → ((demote k).task_pool j).priority ≡ (k.task_pool j).priority
unfolding demote
demote_same k j = ground arith

last-demote : (k : Kernel) → (demote k).last_scheduled ≡ k.last_scheduled
unfolding demote
last-demote k = ground arith

choose-Choice :
    {k : Kernel} → IsKernel k → Choice (demote k).task_pool k.last_scheduled (choose (demote k))
unfolding choose
choose-Choice {k} v = rw (last-demote k) (
    pick-Choice (demote k).task_pool k.last_scheduled v.last_in (demote_same k 0 ∙ v.idle_priority)
      (demote_ready 0 v (omega arith) v.idle_runnable))

ready_demote : (k : Kernel) (j : ℕ) → is_ready ((demote k).task_pool j).state ≡ true → Runnable k j
unfolding demote
ready_demote k j r = ground arith

schedule-current : (k : Kernel) → (schedule k).current_task ≡ choose (demote k)
unfolding schedule dispatch
schedule-current k = refl

-- The task that `schedule` makes current is one that could run; none that could run has a higher
-- priority; of those with its priority, idle aside, it is the first behind the task scheduled last;
-- and the only changes to the table are its state and that of the task that was running.
pub record Scheduled (k k' : Kernel) : Type 0 where
  pub inside : k'.current_task < max_tasks
  pub could_run : Runnable k k'.current_task
  pub highest :
      (j : ℕ)
      → j < max_tasks
      → Runnable k j
      → (k.task_pool j).priority ≤ (k.task_pool k'.current_task).priority
  pub turn :
      (j : ℕ)
      → j < max_tasks
      → j ≢ 0
      → Runnable k j
      → (k.task_pool j).priority ≡ (k.task_pool k'.current_task).priority
      → place k.last_scheduled k'.current_task ≤ place k.last_scheduled j
  pub table :
      (j : ℕ)
      → j < max_tasks
      → k'.task_pool j ≡ record (k.task_pool j) {
        state =
            if j == k'.current_task
            then running
            else if is_running (k.task_pool j).state
            then ready
            else (k.task_pool j).state;
      }
  pub remembered : k'.last_scheduled ≡ k'.current_task
  pub same_tick : k'.tick_count ≡ k.tick_count

module _ {k : Kernel} (v : IsKernel k) {c : ℕ}
    (ch : Choice (demote k).task_pool k.last_scheduled c) where
  highest_lem :
      (j : ℕ) → j < max_tasks → Runnable k j → (k.task_pool j).priority ≤ (k.task_pool c).priority
  highest_lem j hj r = omega (
    arith,
    demote_same k j,
    demote_same k c,
    priority-le-pick (demote k).task_pool k.last_scheduled j ch hj (demote_ready j v hj r),
  )

  turn_lem :
      (j : ℕ)
      → j < max_tasks
      → j ≢ 0
      → Runnable k j
      → (k.task_pool j).priority ≡ (k.task_pool c).priority
      → place k.last_scheduled c ≤ place k.last_scheduled j
  turn_lem j hj nz r e =
      let p : ((demote k).task_pool j).priority ≡ top (demote k).task_pool k.last_scheduled =
        omega (arith, demote_same k j, demote_same k c, ch.highest) in
      let r' : is_ready ((demote k).task_pool j).state ≡ true = demote_ready j v hj r in
      ch.first j hj (ground arith)

  dispatch-Scheduled : Scheduled k (dispatch (demote k) c)
  unfolding dispatch demote
  dispatch-Scheduled = record {
    inside = ch.inside;
    could_run = ready_demote k c ch.ready_;
    highest = highest_lem;
    turn = turn_lem;
    table = λ j hj. ground (arith, v.one_running j hj);
    remembered = refl;
    same_tick = ground arith;
  }

-- On a task table in order, `schedule` makes a task current that could run; no task that could run
-- has a higher priority; of those with its priority, idle aside, it is the first behind
-- `last_scheduled`, going round; it is marked as running and remembered in `last_scheduled`, and
-- the only changes to the table are its state and that of the task that was running.
pub schedule-Scheduled : {k : Kernel} → IsKernel k → Scheduled k (schedule k)
unfolding schedule
schedule-Scheduled v = dispatch-Scheduled v (choose-Choice v)

-- A blocked task is not chosen, and its block is not touched.
pub Scheduled-blocked :
    {k k' : Kernel} (j : ℕ)
    → Scheduled k k'
    → j < max_tasks
    → (k.task_pool j).state ≡ blocked
    → (k'.current_task ≢ j) × (k'.task_pool j ≡ k.task_pool j)
Scheduled-blocked {k} {k'} j s hj b =
    let ne : k'.current_task ≢ j = λ e. cc (subst (λ i. Runnable k i) e s.could_run, b) in
    (ne, ground (arith, s.table j))
