-- ===== src/Kernel/Tick.antt =====
-- The timer part of `os_exception_handler` (src/kernel/timer_tick.c): the tick is counted, and
-- sleeping tasks whose time has come are woken.
pub mod Wake
use osito_k.Base.{
  ℕ, zero, suc, ◌+◌, ◌-◌, ◌%◌, ◌^◌, Bool, not, ◌&&◌, Array, update, ltb, ◌==◌, if◌then◌else◌,
}
use osito_k.Kernel.Task.{Tcb, Kernel, ready, is_blocked, max_tasks, u32}

-- `(int32_t)(now - at) >= 0`
abbrev pub is_past : ℕ → ℕ → Bool
is_past now at = ltb ((now + u32 - at) % u32) (2 ^ 31)

pub is_due : ℕ → Tcb → Bool
is_due now t = is_blocked t.state && not (t.wake_tick == 0) && is_past now t.wake_tick

pub woken : Tcb → Tcb
woken t = record t { wake_tick = 0; state = ready }

-- The loop over the tasks `i … i + n - 1`.
pub wake_tasks : ℕ → ℕ → ℕ → Array Tcb → Array Tcb
unfolding is_due woken
wake_tasks now zero i pool = pool
wake_tasks now (suc n) i pool =
    wake_tasks now n (i + 1) (if is_due now (pool i) then update pool i (woken (pool i)) else pool)

-- `tick_count++; current_task->ticks_run++;`
pub count_tick : Kernel → Kernel
count_tick k = record k {
  tick_count = (k.tick_count + 1) % u32;
  task_pool = update k.task_pool k.current_task (record (k.task_pool k.current_task) {
    ticks_run = ((k.task_pool k.current_task).ticks_run + 1) % u32;
  });
}

unfoldable pub tick_tasks : Kernel → Kernel
unfolding wake_tasks count_tick
tick_tasks k =
    let k' = count_tick k in
    record k' { task_pool = wake_tasks k'.tick_count max_tasks 0 k'.task_pool }
