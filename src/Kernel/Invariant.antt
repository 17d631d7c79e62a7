-- ===== src/Kernel/Invariant.antt =====
-- What holds of the task table between any two operations of the kernel, from `sched_init` on.
use osito_k.Base.{ℕ, ◌≡◌, ◌≢◌, ◌<◌, true, ◌||◌}
use osito_k.Kernel.Task.{Kernel, free, running, is_ready, is_running, is_blocked, max_tasks}

-- Task `j` is running, or could be.
abbrev pub Runnable : Kernel → ℕ → Type 0
Runnable k j = (is_ready (k.task_pool j).state || is_running (k.task_pool j).state) ≡ true

pub record IsKernel (k : Kernel) : Type 0 where
  pub current_in : k.current_task < max_tasks
  pub last_in : k.last_scheduled < max_tasks
  -- Idle never blocks and never ends.
  pub idle_runnable : Runnable k 0
  pub idle_priority : (k.task_pool 0).priority ≡ 0
  -- At most one task runs, the current one.
  pub one_running :
      (i : ℕ) → i < max_tasks → is_running (k.task_pool i).state ≡ true → i ≡ k.current_task
  pub ids : (i : ℕ) → i < max_tasks → (k.task_pool i).state ≢ free → (k.task_pool i).id ≡ i
  -- Only a blocked task has a time to wake at.
  pub awake :
      (i : ℕ)
      → i < max_tasks
      → (k.task_pool i).wake_tick ≢ 0
      → is_blocked (k.task_pool i).state ≡ true

-- A task is executing, and may call the kernel: the state in which every call is made.
pub record IsLive (k : Kernel) : Type 0 where
  pub kernel : IsKernel k
  pub runs : (k.task_pool k.current_task).state ≡ running
