-- ===== src/Kernel/Task.antt =====
-- The task control block and the scheduler's global state: src/kernel/task.h and the statics of
-- src/kernel/sched.cpp, with the constants of include/kernel/config.h that they use.
use osito_k.Base.{ℕ, ◌^◌, Bool, true, false, Array, update}

abbrev pub max_tasks : ℕ
max_tasks = 8

abbrev pub task_stack_size : ℕ
task_stack_size = 1536

-- `uint32_t` arithmetic wraps at this.
abbrev pub u32 : ℕ
u32 = 2 ^ 32

pub data TaskState : Type 0 where
  free ready running blocked dead : TaskState

abbrev pub is_free : TaskState → Bool
is_free free = true
is_free _ = false

abbrev pub is_ready : TaskState → Bool
is_ready ready = true
is_ready _ = false

abbrev pub is_running : TaskState → Bool
is_running running = true
is_running _ = false

abbrev pub is_blocked : TaskState → Bool
is_blocked blocked = true
is_blocked _ = false

-- `task_tcb_t`; `name` is the address of the text.
pub record Tcb : Type 0 where
  pub sp : ℕ
  pub state : TaskState
  pub id : ℕ
  pub priority : ℕ
  pub ticks_run : ℕ
  pub wake_tick : ℕ
  pub stack_base : ℕ
  pub stack_size : ℕ
  pub name : ℕ

-- `current_task` is the index of the block that the pointer points at. `stack` is the word at each
-- address of the task stacks.
pub record Kernel : Type 0 where
  pub task_pool : Array Tcb
  pub current_task : ℕ
  pub tick_count : ℕ
  pub last_scheduled : ℕ
  pub stack : ℕ → ℕ

-- `task_pool[i].state = s`
abbrev pub set_state : Kernel → ℕ → TaskState → Kernel
set_state k i s = record k {
  task_pool = update k.task_pool i (record (k.task_pool i) { state = s });
}

-- `current_task->state = s`
abbrev pub set_current_state : Kernel → TaskState → Kernel
set_current_state k s = set_state k k.current_task s
