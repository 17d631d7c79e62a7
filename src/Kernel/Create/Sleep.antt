-- ===== src/Kernel/Create/Sleep.antt =====
-- `task_delay_ticks`, `task_yield`, the end of a task and `sched_start` keep the invariant.
use osito_k.Base.{ℕ, ◌+◌, ◌%◌, ◌≡◌, ◌≢◌, arith, refl, ap, ◌∙◌}
use osito_k.Kernel.Task.{Kernel, Tcb, blocked, u32}
use osito_k.Kernel.Invariant.{IsKernel, IsLive}
use osito_k.Kernel.Sched.Priority.{schedule-Scheduled, Scheduled-blocked}
use osito_k.Kernel.Sched.Keeps.{schedule-IsLive}
use osito_k.Kernel.Create.{task_exit, sched_start, task_yield, fall_asleep, task_delay_ticks}

-- Any task but idle may fall asleep, with the invariant kept.
pub fall_asleep-IsKernel :
    {k : Kernel} (ticks : ℕ) → IsLive k → k.current_task ≢ 0 → IsKernel (fall_asleep k ticks)
unfolding fall_asleep
fall_asleep-IsKernel {k} ticks live ne =
    let v = live.kernel in
    record {
      current_in = v.current_in;
      last_in = v.last_in;
      idle_runnable = ground (arith, v.idle_runnable);
      idle_priority = ground (arith, v.idle_priority);
      one_running = λ i hi. ground (arith, v.one_running i);
      ids = λ i hi. ground (arith, v.ids i, v.ids k.current_task, live.runs);
      awake = λ i hi. ground (arith, v.awake i);
    }

-- A task that ends is never idle; the invariant holds of what it leaves.
pub task_exit-IsKernel : {k : Kernel} → IsLive k → k.current_task ≢ 0 → IsKernel (task_exit k)
unfolding task_exit
task_exit-IsKernel {k} live ne =
    let v = live.kernel in
    record {
      current_in = v.current_in;
      last_in = v.last_in;
      idle_runnable = ground (arith, v.idle_runnable);
      idle_priority = ground (arith, v.idle_priority);
      one_running = λ i hi. ground (arith, v.one_running i);
      ids = λ i hi. ground (arith, v.ids i, v.ids k.current_task, live.runs);
      awake = λ i hi. ground (arith, v.awake i, v.awake k.current_task, live.runs);
    }

-- `sched_start` runs idle first.
pub sched_start-IsLive : {k : Kernel} → IsKernel k → k.current_task ≡ 0 → IsLive (sched_start k)
unfolding sched_start
sched_start-IsLive {k} v z = record {
  kernel = record {
    current_in = omega arith;
    last_in = v.last_in;
    idle_runnable = ground arith;
    idle_priority = ground (arith, v.idle_priority);
    one_running = λ i hi. ground (arith, v.one_running i);
    ids = λ i hi. ground (arith, v.ids i, v.ids 0, v.idle_runnable);
    awake = λ i hi. ground (arith, v.awake i, v.awake 0, v.idle_runnable);
  };
  runs = ground arith;
}

fall_asleep_self :
    (k : Kernel) (ticks : ℕ)
    → let t = (fall_asleep k ticks).task_pool k.current_task in
      (t.state ≡ blocked) × (t.wake_tick ≡ (k.tick_count + ticks) % u32)
unfolding fall_asleep
fall_asleep_self k ticks = ground arith

-- Called by a task other than idle, `task_delay_ticks` leaves it blocked with the time `tick_count
-- + ticks` to wake at, modulo 2 ^ 32; another task is running, the table is in order, and the tick
-- count is as it was.
pub task_delay_ticks_lem :
    {k : Kernel} (ticks : ℕ)
    → IsLive k
    → k.current_task ≢ 0
    → let k' = task_delay_ticks k ticks in
      IsLive k'
      × (k'.current_task ≢ k.current_task)
      × ((k'.task_pool k.current_task).state ≡ blocked)
      × ((k'.task_pool k.current_task).wake_tick ≡ (k.tick_count + ticks) % u32)
      × (k'.tick_count ≡ k.tick_count)
unfolding task_delay_ticks task_yield
task_delay_ticks_lem {k} ticks live ne =
    let v = fall_asleep-IsKernel ticks live ne in
    let s = schedule-Scheduled v in
    let (b, w) = fall_asleep_self k ticks in
    let (other, same) = Scheduled-blocked k.current_task s live.kernel.current_in b in
    (
      schedule-IsLive v,
      other,
      ap (λ (t : Tcb). t.state) same ∙ b,
      ap (λ (t : Tcb). t.wake_tick) same ∙ w,
      s.same_tick ∙ unfold fall_asleep in refl,
    )
