-- ===== src/Kernel/Tick/Wake.antt =====
-- Who is woken by a tick, and when.
use native.Mathlib.Decide.{ℕ_discrete, dec_lt}
use osito_k.Base.{
  ℕ, zero, suc, ◌+◌, ◌%◌, ◌^◌, ◌≤◌, ◌<◌, ◌≡◌, ◌≢◌, refl, ap, ◌∙◌, true, Array, update, leb,
  if◌then◌else◌, arith,
}
use osito_k.Kernel.Task.{Tcb, Kernel, ready, blocked, is_blocked, max_tasks, u32}
use osito_k.Kernel.Invariant.{IsKernel}
use osito_k.Kernel.Tick.{is_past, is_due, woken, wake_tasks, count_tick, tick_tasks}

-- One round, and the rounds, at task `j`.
abbrev pub wake_one : ℕ → Tcb → Tcb
wake_one now t = if is_due now t then woken t else t

abbrev after_round : ℕ → ℕ → Array Tcb → Array Tcb
after_round now i pool = if is_due now (pool i) then update pool i (woken (pool i)) else pool

after_round_self : (now i : ℕ) (pool : Array Tcb) → after_round now i pool i ≡ wake_one now (pool i)
after_round_self now i pool = ground arith

after_round_ne : (now i j : ℕ) (pool : Array Tcb) → j ≢ i → after_round now i pool j ≡ pool j
after_round_ne now i j pool ne = ground arith

wake_tasks_below : (now n i j : ℕ) (pool : Array Tcb) → j < i → wake_tasks now n i pool j ≡ pool j
unfolding wake_tasks
wake_tasks_below now zero i j pool lt = refl
wake_tasks_below now (suc n) i j pool lt =
    wake_tasks_below now n (i + 1) j (after_round now i pool) (omega arith)
    ∙ after_round_ne now i j pool (omega arith)

wake_tasks_in :
    (now n i j : ℕ) (pool : Array Tcb)
    → i ≤ j
    → j < i + n
    → wake_tasks now n i pool j ≡ wake_one now (pool j)
unfolding wake_tasks
wake_tasks_in now zero i j pool le lt = absurd (omega arith)
wake_tasks_in now (suc n) i j pool le lt = elim (ℕ_discrete j i) [
  | yes e ↦ rw e (
      wake_tasks_below now n (i + 1) i (after_round now i pool) (omega arith)
      ∙ after_round_self now i pool)
  | no ne ↦
      wake_tasks_in now n (i + 1) j (after_round now i pool) (omega arith) (omega arith)
      ∙ ap (wake_one now) (after_round_ne now i j pool ne)
]

-- What a tick does to each task: it is woken if it is due, and the interrupted task is charged.
pub tick_tasks_at :
    (k : Kernel) (j : ℕ)
    → j < max_tasks
    → (tick_tasks k).task_pool j ≡ wake_one ((k.tick_count + 1) % u32) ((count_tick k).task_pool j)
unfolding tick_tasks count_tick
tick_tasks_at k j h =
    wake_tasks_in ((k.tick_count + 1) % u32) 8 0 j (count_tick k).task_pool (omega arith)
      (omega arith)

pub tick_tasks-current : (k : Kernel) → (tick_tasks k).current_task ≡ k.current_task
unfolding tick_tasks count_tick
tick_tasks-current k = refl

pub tick_tasks-tick_count : (k : Kernel) → (tick_tasks k).tick_count ≡ (k.tick_count + 1) % u32
unfolding tick_tasks count_tick
tick_tasks-tick_count k = refl

-- The timer part of the interrupt handler keeps the table in order.
pub tick_tasks-IsKernel : {k : Kernel} → IsKernel k → IsKernel (tick_tasks k)
unfolding is_due woken count_tick
tick_tasks-IsKernel {k} v = record {
  current_in = unfold tick_tasks in v.current_in;
  last_in = unfold tick_tasks in v.last_in;
  idle_runnable = ground (arith, tick_tasks_at k 0);
  idle_priority = ground (arith, tick_tasks_at k 0);
  one_running = λ i hi. ground (arith, tick_tasks_at k i, v.one_running i, tick_tasks-current k);
  ids = λ i hi. ground (arith, tick_tasks_at k i, v.ids i);
  awake = λ i hi. ground (arith, tick_tasks_at k i, v.awake i);
}

-- A tick wakes no task that waits without a time to wake at.
pub tick_tasks_waiting :
    (k : Kernel) (j : ℕ)
    → j < max_tasks
    → (k.task_pool j).wake_tick ≡ 0
    → ((tick_tasks k).task_pool j).state ≡ (k.task_pool j).state
      × ((tick_tasks k).task_pool j).wake_tick ≡ 0
unfolding is_due count_tick
tick_tasks_waiting k j h e = ground (arith, tick_tasks_at k j)

past_lem :
    (now ticks d : ℕ)
    → ticks < 2 ^ 31
    → d + 1 < 2 ^ 31
    → is_past (((now + d) % u32 + 1) % u32) ((now + ticks) % u32) ≡ leb ticks (d + 1)
past_lem now ticks d ht hd = elim (dec_lt (d + 1) ticks) [
  | yes p ↦ ground (arith, p)
  | no p ↦ ground (arith, p)
]

-- A blocked task that was put to sleep for `ticks` when the count was `now` is made ready by the
-- tick that brings the count to `now + ticks`, or by a later one, and by none before, also when the
-- count wraps round; both distances must be below 2 ^ 31, and `now + ticks` no multiple of 2 ^ 32.
pub tick_tasks_sleeping :
    (k : Kernel) (j now ticks d : ℕ)
    → j < max_tasks
    → is_blocked (k.task_pool j).state ≡ true
    → (k.task_pool j).wake_tick ≡ (now + ticks) % u32
    → (now + ticks) % u32 ≢ 0
    → k.tick_count ≡ (now + d) % u32
    → ticks < 2 ^ 31
    → d + 1 < 2 ^ 31
    → ((tick_tasks k).task_pool j).state ≡ (if leb ticks (d + 1) then ready else blocked)
unfolding is_due woken count_tick
tick_tasks_sleeping k j now ticks d h b w nz c ht hd =
    ground (arith, tick_tasks_at k j, past_lem now ticks d)
