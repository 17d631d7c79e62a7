-- ===== src/Kernel/Sched/Keeps.antt =====
-- `schedule` keeps the kernel's invariant.
use osito_k.Base.{arith}
use osito_k.Kernel.Task.{Kernel}
use osito_k.Kernel.Invariant.{IsKernel, IsLive}
use osito_k.Kernel.Sched.{schedule}
use osito_k.Kernel.Sched.Priority.{Scheduled, schedule-Scheduled}

Scheduled-IsKernel : {k k' : Kernel} → IsKernel k → Scheduled k k' → IsKernel k'
Scheduled-IsKernel {k} {k'} v s = record {
  current_in = s.inside;
  last_in = ground arith;
  idle_runnable = ground (arith, s.table 0);
  idle_priority = ground (arith, s.table 0);
  one_running = λ i hi. ground (arith, s.table i, v.one_running i);
  ids = λ i hi. ground (arith, s.table i, v.ids i, s.could_run);
  awake = λ i hi. ground (arith, s.table i, v.awake i, s.could_run);
}

-- `schedule` keeps the table in order, and afterwards the current task is the one that is marked as
-- running.
pub schedule-IsLive : {k : Kernel} → IsKernel k → IsLive (schedule k)
schedule-IsLive {k} v =
    let s = schedule-Scheduled v in
    record {
      kernel = Scheduled-IsKernel v s;
      runs = ground (arith, s.table (schedule k).current_task);
    }
