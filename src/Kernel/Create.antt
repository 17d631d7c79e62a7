-- ===== src/Kernel/Create.antt =====
-- `sched_init`, `task_create`, `task_delay_ticks` and the end of a task: the rest of
-- src/kernel/sched.cpp. The linker places the stacks and the code, so their addresses are
-- parameters; what is printed is left out.
pub mod Frame
pub mod Slot
pub mod Sleep
use osito_k.Base.{
  ℕ, zero, suc, ◌+◌, ◌-◌, ◌*◌, ◌/◌, ◌%◌, ◌&&◌, Option, none, some, Array, update, ltb, leb,
  if◌then◌else◌,
}
use osito_k.Kernel.Task.{
  Tcb, Kernel, free, ready, running, blocked, dead, is_free, max_tasks, task_stack_size, u32,
  set_current_state,
}
use osito_k.Kernel.Sched.{schedule, idle_task_id}

abbrev pub ctx_size : ℕ
ctx_size = 80

abbrev pub ctx_a1 : ℕ
ctx_a1 = 0x04

abbrev pub ctx_a2 : ℕ
ctx_a2 = 0x08

abbrev pub ctx_a3 : ℕ
ctx_a3 = 0x0c

abbrev pub ctx_ps : ℕ
ctx_ps = 0x40

abbrev pub ctx_epc1 : ℕ
ctx_epc1 = 0x48

-- A cleared control block, as `ets_memset` leaves it.
abbrev pub zero_tcb : Tcb
zero_tcb = record {
  sp = 0;
  state = free;
  id = 0;
  priority = 0;
  ticks_run = 0;
  wake_tick = 0;
  stack_base = 0;
  stack_size = 0;
  name = 0;
}

-- `ets_memset(frame, 0, CTX_SIZE)`
abbrev pub clear_frame : (ℕ → ℕ) → ℕ → ℕ → ℕ
clear_frame mem sp a = if leb sp a && ltb a (sp + ctx_size) then 0 else mem a

-- Where the first frame of a stack lies: its top, rounded down to 16 bytes, less the frame.
unfoldable pub frame_of : ℕ → ℕ
frame_of stack_base = (stack_base + task_stack_size) % u32 / 16 * 16 - ctx_size

-- The frame from which a task starts: its function and argument stand in a2 and a3.
unfoldable pub first_frame : ℕ → (ℕ → ℕ) → ℕ → ℕ → ℕ → ℕ → ℕ
first_frame trampoline mem sp func arg =
    let m = update (clear_frame mem sp) (sp + ctx_epc1) trampoline in
    let m = update (update m (sp + ctx_a2) func) (sp + ctx_a3) arg in
    update (update m (sp + ctx_a1) (sp + ctx_size)) (sp + ctx_ps) 0x30

-- The first free slot among the `n` slots from `i` on.
unfoldable pub free_slot : Array Tcb → ℕ → ℕ → Option ℕ
free_slot pool zero i = none
free_slot pool (suc n) i =
    let rest = free_slot pool n (i + 1) in if is_free (pool i).state then some i else rest

module _ (stack_pool : ℕ) where
  -- `&stack_pool[slot][0]`
  abbrev pub stack_base_of : ℕ → ℕ
  stack_base_of slot = (stack_pool + slot * task_stack_size) % u32

  -- What a fresh task's block holds. `wake_tick` keeps what stood there.
  abbrev pub fresh_tcb : Tcb → ℕ → ℕ → ℕ → Tcb
  fresh_tcb old slot priority name = record {
    sp = frame_of (stack_base_of slot);
    state = ready;
    id = slot % 256;
    priority = priority;
    ticks_run = 0;
    wake_tick = old.wake_tick;
    stack_base = stack_base_of slot;
    stack_size = task_stack_size;
    name = name;
  }

  module _ (idle_task_func idle_name : ℕ) where
    unfoldable pub sched_init : Kernel → Kernel
    unfolding frame_of
    sched_init k =
        let idle = fresh_tcb zero_tcb idle_task_id 0 idle_name in
        let frame = clear_frame k.stack idle.sp in
        record {
          task_pool = update (λ _. zero_tcb) idle_task_id idle;
          current_task = idle_task_id;
          tick_count = k.tick_count;
          last_scheduled = idle_task_id;
          stack =
              update
                (update (update frame (idle.sp + ctx_epc1) idle_task_func) (idle.sp + ctx_a1)
                  (idle.sp + ctx_size))
                (idle.sp + ctx_ps) 0x30;
        }

  module _ (trampoline : ℕ) where
    unfoldable pub fill_slot : Kernel → ℕ → ℕ → ℕ → ℕ → ℕ → Kernel
    unfolding frame_of first_frame
    fill_slot k slot name func arg priority =
        let t = fresh_tcb (k.task_pool slot) slot priority name in
        record k {
          task_pool = update k.task_pool slot t;
          stack = first_frame trampoline k.stack t.sp func arg;
        }

    -- With the slot that the search found, or without one.
    unfoldable pub create_in : Kernel → ℕ → ℕ → ℕ → ℕ → Option ℕ → Kernel × Option ℕ
    unfolding fill_slot
    create_in k name func arg priority none = (k, none)
    create_in k name func arg priority (some slot) =
        (fill_slot k slot name func arg priority, some slot)

    -- The new task's id, or `none` for -1.
    unfoldable pub task_create : Kernel → ℕ → ℕ → ℕ → ℕ → Kernel × Option ℕ
    unfolding free_slot create_in
    task_create k name func arg priority =
        create_in k name func arg priority (free_slot k.task_pool (max_tasks - 1) 1)

-- `_task_exit_handler`, up to its endless loop.
pub task_exit : Kernel → Kernel
task_exit k = set_current_state k dead

-- `sched_start`, up to the jump into the first task.
pub sched_start : Kernel → Kernel
sched_start k = set_current_state (record k { current_task = idle_task_id }) running

-- The software interrupt that `task_yield` raises runs `schedule` at once.
unfoldable pub task_yield : Kernel → Kernel
unfolding schedule
task_yield k = schedule k

-- The first half of `task_delay_ticks`: the task is put to sleep.
unfoldable pub fall_asleep : Kernel → ℕ → Kernel
fall_asleep k ticks = record k {
  task_pool = update k.task_pool k.current_task (record (k.task_pool k.current_task) {
    wake_tick = (k.tick_count + ticks) % u32;
    state = blocked;
  });
}

pub task_delay_ticks : Kernel → ℕ → Kernel
unfolding fall_asleep task_yield
task_delay_ticks k ticks = task_yield (fall_asleep k ticks)
