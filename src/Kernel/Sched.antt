-- ===== src/Kernel/Sched.antt =====
-- `schedule` of src/kernel/sched.cpp: the highest priority first, round-robin among equals.
mod Pick
pub mod Choice
pub mod Priority
pub mod Keeps
pub mod Turns
use osito_k.Base.{
  ℕ, zero, suc, ◌+◌, ◌%◌, Bool, not, ◌&&◌, Option, none, some, Array, ltb, ◌==◌, if◌then◌else◌,
}
use osito_k.Kernel.Task.{
  Tcb, Kernel, ready, running, is_ready, is_running, max_tasks, set_current_state,
}

abbrev pub idle_task_id : ℕ
idle_task_id = 0

-- The current task goes back among the ready ones, if it was still running.
unfoldable pub demote : Kernel → Kernel
demote k = if is_running (k.task_pool k.current_task).state then set_current_state k ready else k

-- The first loop: the highest priority among the ready tasks `i … i + n - 1`, from `max_pri` on.
pub max_ready : Array Tcb → ℕ → ℕ → ℕ → ℕ
max_ready pool zero i max_pri = max_pri
max_ready pool (suc n) i max_pri = max_ready pool n (i + 1) (
    if is_ready (pool i).state && ltb max_pri (pool i).priority then (pool i).priority else max_pri)

-- The test of the second loop.
abbrev pub is_eligible : Array Tcb → ℕ → ℕ → Bool
is_eligible pool max_pri i =
    is_ready (pool i).state && ((pool i).priority == max_pri) && not (i == idle_task_id)

-- The second loop, with `n` rounds left: the first eligible task behind `next`, going round.
pub find_next : ℕ → Array Tcb → ℕ → ℕ → Option ℕ
find_next zero pool max_pri next = none
find_next (suc n) pool max_pri next =
    let i = (next + 1) % max_tasks in
    let rest = find_next n pool max_pri i in if is_eligible pool max_pri i then some i else rest

-- `found`, or idle.
abbrev pub or_idle : Option ℕ → ℕ
or_idle none = idle_task_id
or_idle (some i) = i

unfoldable pub dispatch : Kernel → ℕ → Kernel
dispatch k found =
    set_current_state (record k { last_scheduled = found; current_task = found }) running

unfoldable pub choose : Kernel → ℕ
unfolding max_ready find_next
choose k =
    or_idle (find_next max_tasks k.task_pool (max_ready k.task_pool max_tasks 0 0) k.last_scheduled)

unfoldable pub schedule : Kernel → Kernel
unfolding demote choose dispatch
schedule k = let k' = demote k in dispatch k' (choose k')
