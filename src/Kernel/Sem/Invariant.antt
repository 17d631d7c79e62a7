-- ===== src/Kernel/Sem/Invariant.antt =====
-- What holds of a semaphore between two operations, and what of the kernel keeps it.
use osito_k.Base.{
  window, length-window, ℕ, ◌≤◌, ◌<◌, ◌≡◌, true, List, [], All, All-map, Distinct, length, ◌∙◌,
  length_of_Distinct, arith,
}
use osito_k.Kernel.Task.{Kernel, blocked, max_tasks, u32}
use osito_k.Kernel.Invariant.{IsKernel}
use osito_k.Kernel.Sched.{schedule}
use osito_k.Kernel.Sched.Priority.{schedule-Scheduled, Scheduled-blocked}
use osito_k.Kernel.Tick.{tick_tasks}
use osito_k.Kernel.Tick.Wake.{tick_tasks_waiting}
use osito_k.Kernel.Sem.{Sem, is_positive}

-- Task `t` is blocked, and not by a delay.
pub record Waiting (k : Kernel) (t : ℕ) : Type 0 where
  pub inside : t < max_tasks
  pub is_blocked : (k.task_pool t).state ≡ blocked
  pub no_alarm : (k.task_pool t).wake_tick ≡ 0

-- The tasks `q`, the one that came first in front, wait for `s`.
pub record IsSem (k : Kernel) (s : Sem) (q : List ℕ) : Type 0 where
  pub shown : window s.waiters 0 s.num_waiters ≡ q
  pub waiting : All (Waiting k) q
  pub distinct : Distinct q
  pub idle_count : is_positive s.count ≡ true → q ≡ []
  pub in_word : s.count < u32

pub num_waiters_lem : {k : Kernel} {s : Sem} {q : List ℕ} → IsSem k s q → s.num_waiters ≡ length q
num_waiters_lem {s} v = rw (← v.shown) (rw length-window)

-- The array of eight has room for every task that can wait.
pub num_waiters-le : {k : Kernel} {s : Sem} {q : List ℕ} → IsSem k s q → s.num_waiters ≤ max_tasks
num_waiters-le {k} {s} {q} v = omega (
  arith,
  num_waiters_lem v,
  length_of_Distinct max_tasks q v.distinct
      (All-map (Waiting k) (λ t. t < max_tasks) q (λ t w. w.inside) v.waiting),
)

module _ {k k' : Kernel} {s : Sem} {q : List ℕ} where
  -- A change of the kernel that leaves the waiting tasks alone keeps the semaphore.
  pub IsSem-frame : ((t : ℕ) → Waiting k t → Waiting k' t) → IsSem k s q → IsSem k' s q
  IsSem-frame same v = record {
    shown = v.shown;
    waiting = All-map (Waiting k) (Waiting k') q same v.waiting;
    distinct = v.distinct;
    idle_count = v.idle_count;
    in_word = v.in_word;
  }

pub Waiting-schedule : {k : Kernel} → IsKernel k → (t : ℕ) → Waiting k t → Waiting (schedule k) t
Waiting-schedule v t w =
    let (_, same) = Scheduled-blocked t (schedule-Scheduled v) w.inside w.is_blocked in
    record { inside = w.inside; is_blocked = rw same w.is_blocked; no_alarm = rw same w.no_alarm }

pub Waiting-tick : {k : Kernel} (t : ℕ) → Waiting k t → Waiting (tick_tasks k) t
Waiting-tick {k} t w =
    let (b, n) = tick_tasks_waiting k t w.inside w.no_alarm in
    record { inside = w.inside; is_blocked = b ∙ w.is_blocked; no_alarm = n }
