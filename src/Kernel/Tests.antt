-- ===== src/Kernel/Tests.antt =====
-- Runs of the kernel, and its theorems at concrete inputs.
use osito_k.Base.{ℕ, ◌+◌, ◌%◌, ◌≤◌, ◌≡◌, ◌≢◌, refl, false, [], ◌∷◌, arith}
use osito_k.Kernel.Task.{Kernel, ready, blocked, u32}
use osito_k.Kernel.Invariant.{IsKernel, IsLive}
use osito_k.Kernel.Sched.{schedule}
use osito_k.Kernel.Sched.Priority.{Scheduled, schedule-Scheduled}
use osito_k.Kernel.Sched.Keeps.{schedule-IsLive}
use osito_k.Kernel.Sched.Turns.{IsTop, PassedOver, start, pass, PassedOver-le}
use osito_k.Kernel.Create.{zero_tcb, sched_init, task_create, fall_asleep, task_delay_ticks}
use osito_k.Kernel.Create.Frame.{IsPlaced}
use osito_k.Kernel.Create.Slot.{
  sched_init-IsKernel, task_create-Created, Created, task_create-StartsIn, StartsIn,
}
use osito_k.Kernel.Create.Sleep.{task_delay_ticks_lem}
use osito_k.Kernel.Tick.{tick_tasks}
use osito_k.Kernel.Tick.Wake.{tick_tasks_sleeping}
use osito_k.Kernel.Sem.{Sem, sem_wait, sem_post}
use osito_k.Kernel.Sem.Invariant.{IsSem}
use osito_k.Kernel.Sem.Wait.{Waited, sem_wait-Waited}
use osito_k.Kernel.Sem.Post.{Posted, sem_post-Posted}

abbrev stacks : ℕ
stacks = 0x3ffe9000

abbrev before_init : Kernel
before_init = record {
  task_pool = λ _. zero_tcb;
  current_task = 0;
  tick_count = 41;
  last_scheduled = 0;
  stack = λ _. 0xa5;
}

-- `sched_init`, and the creation of tasks 1 and 2, both of priority 3.
abbrev inited : Kernel
inited = sched_init stacks 0x40100100 0x3ffe8000 before_init

abbrev one_task : Kernel
one_task = (task_create stacks 0x40100200 inited 0x3ffe8010 0x40201000 7 3).0

abbrev two_tasks : Kernel
two_tasks = (task_create stacks 0x40100200 one_task 0x3ffe8020 0x40202000 8 3).0

-- The first task runs.
abbrev first_runs : Kernel
first_runs = schedule two_tasks

inited-IsKernel : IsKernel inited
inited-IsKernel = sched_init-IsKernel stacks 0x40100100 0x3ffe8000 before_init

one_task-IsKernel : IsKernel one_task
one_task-IsKernel =
    (task_create-Created stacks 0x40100200 inited 0x3ffe8010 0x40201000 7 3 inited-IsKernel).0

two_tasks-IsKernel : IsKernel two_tasks
two_tasks-IsKernel =
    (task_create-Created stacks 0x40100200 one_task 0x3ffe8020 0x40202000 8 3 one_task-IsKernel).0

first_runs-IsLive : IsLive first_runs
first_runs-IsLive = schedule-IsLive two_tasks-IsKernel

first_runs-current : first_runs.current_task ≡ 1
unfolding schedule task_create sched_init
first_runs-current = refl

-- Two tasks of one priority take turns.
turns :
    ((schedule first_runs).current_task ≡ 2) × ((schedule (schedule first_runs)).current_task ≡ 1)
unfolding schedule task_create sched_init
turns = (refl, refl)

not_idle : first_runs.current_task ≢ 0
not_idle = omega (arith, first_runs-current)

-- A semaphore with one unit, and one with none.
abbrev unit : Sem
unit = record { count = 1; waiters = λ _. 0; num_waiters = 0 }

abbrev empty : Sem
empty = record { count = 0; waiters = λ _. 0; num_waiters = 0 }

empty-IsSem : (k : Kernel) → IsSem k empty []
empty-IsSem k = record {
  shown = refl;
  waiting = tt;
  distinct = tt;
  idle_count = λ _. refl;
  in_word = omega arith;
}

unit-IsSem : (k : Kernel) → IsSem k unit []
unit-IsSem k = record {
  shown = refl;
  waiting = tt;
  distinct = tt;
  idle_count = λ _. refl;
  in_word = omega arith;
}

wait_takes : (sem_wait first_runs unit).1.count ≡ 0
unfolding sem_wait
wait_takes = refl

-- Task 1 waits, task 2 posts, and task 1 is ready again.
after_wait : Kernel × Sem
after_wait = sem_wait first_runs empty

task_2_runs : (after_wait.0.current_task ≡ 2) × (after_wait.1.num_waiters ≡ 1)
unfolding after_wait sem_wait schedule task_create sched_init
task_2_runs = (refl, refl)

post_wakes :
    (((sem_post after_wait.0 after_wait.1).0.task_pool 1).state ≡ ready)
    × ((sem_post after_wait.0 after_wait.1).1.num_waiters ≡ 0)
unfolding after_wait sem_post sem_wait schedule task_create sched_init
post_wakes = (refl, refl)

schedule-Scheduled_example : Scheduled two_tasks (schedule two_tasks)
schedule-Scheduled_example = schedule-Scheduled two_tasks-IsKernel

schedule-IsLive_example : IsLive (schedule two_tasks)
schedule-IsLive_example = schedule-IsLive two_tasks-IsKernel

task_2-IsTop : IsTop 2 two_tasks
unfolding task_create sched_init
task_2-IsTop = record {
  inside = omega arith;
  not_idle = omega arith;
  could_run = refl;
  above_none = λ i hi r. ground arith;
}

-- Task 2 is passed over once, in favour of task 1.
once : PassedOver 2 two_tasks 1 first_runs
once = pass start two_tasks-IsKernel task_2-IsTop (λ e. omega (arith, first_runs-current)) refl

PassedOver-le_example : 1 ≤ 7
PassedOver-le_example = PassedOver-le once

task_create-Created_example :
    let out = task_create stacks 0x40100200 inited 0x3ffe8010 0x40201000 7 3 in
    IsKernel out.0 × Created inited out.0 3 out.1
task_create-Created_example =
    task_create-Created stacks 0x40100200 inited 0x3ffe8010 0x40201000 7 3 inited-IsKernel

stacks-IsPlaced : IsPlaced stacks
stacks-IsPlaced = omega arith

task_create-StartsIn_example : StartsIn stacks 0x40100200 0x40201000 7 1 inited one_task
unfolding task_create sched_init
task_create-StartsIn_example =
    task_create-StartsIn stacks 0x40100200 stacks-IsPlaced inited 0x3ffe8010 0x40201000 7 3 1 refl

task_delay_ticks_lem_example :
    let k' = task_delay_ticks first_runs 5 in
    IsLive k'
    × (k'.current_task ≢ first_runs.current_task)
    × ((k'.task_pool first_runs.current_task).state ≡ blocked)
    × ((k'.task_pool first_runs.current_task).wake_tick ≡ (first_runs.tick_count + 5) % u32)
    × (k'.tick_count ≡ first_runs.tick_count)
task_delay_ticks_lem_example = task_delay_ticks_lem 5 first_runs-IsLive not_idle

sem_wait-Waited_example :
    Waited first_runs empty [] (sem_wait first_runs empty).0 (sem_wait first_runs empty).1 false
sem_wait-Waited_example = sem_wait-Waited first_runs-IsLive not_idle (empty-IsSem first_runs)

waited : Waited first_runs empty [] after_wait.0 after_wait.1 false
unfolding after_wait
waited = sem_wait-Waited first_runs-IsLive not_idle (empty-IsSem first_runs)

waited-IsSem : IsSem after_wait.0 after_wait.1 (1 ∷ [])
waited-IsSem = rw first_runs-current at waited.3

sem_post-Posted_example :
    Posted after_wait.0 after_wait.1
      (1 ∷ [])
      (sem_post after_wait.0 after_wait.1).0
      (sem_post after_wait.0 after_wait.1).1
sem_post-Posted_example = sem_post-Posted (1 ∷ []) waited.0.kernel waited-IsSem

-- Task 1 sleeps for 5 ticks from the count 41 on; the fourth tick leaves it asleep.
abbrev asleep : Kernel
asleep = record (fall_asleep first_runs 5) { tick_count = 44 }

tick_tasks_sleeping_example : ((tick_tasks asleep).task_pool 1).state ≡ blocked
unfolding fall_asleep schedule task_create sched_init
tick_tasks_sleeping_example =
    tick_tasks_sleeping asleep 1 41 5 3 (omega arith) refl refl (omega arith) refl (omega arith)
      (omega arith)
