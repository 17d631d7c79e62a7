-- ===== src/Kernel/Mutex.antt =====
-- Mutual exclusion by `mutex_t` (src/kernel/sem.cpp): any number of tasks that lock, try and unlock,
-- interleaved. `inside` counts the tasks between a lock and the unlock.
mod Tests
use osito_k.Base.{ℕ, ◌+◌, ◌-◌, ◌≤◌, ◌<◌, ◌≡◌, ◌↔◌, refl, true, ltb, if◌then◌else◌, arith, Bool}
use osito_k.Kernel.Task.{Kernel}
use osito_k.Kernel.Create.{task_yield}
use osito_k.Kernel.Sem.{
  Sem, sem_init, wait_enter, sem_trywait, sem_post, Mutex, mutex_init, mutex_trylock, mutex_unlock,
}

pub record Users : Type 0 where
  pub kernel : Kernel
  pub mutex : Mutex
  pub inside : ℕ

-- `mutex_lock` is `sem_wait`; a task that blocks is inside when an unlock wakes it.
pub after_lock : Users → Users
after_lock u =
    let (k, s, yields) = wait_enter u.kernel u.mutex.sem in
    record {
      kernel = if yields then task_yield k else k;
      mutex = record { sem = s };
      inside = if yields then u.inside else u.inside + 1;
    }

pub after_trylock : Users → Users
after_trylock u =
    let (m, got) = mutex_trylock u.mutex in
    record u { mutex = m; inside = if got then u.inside + 1 else u.inside }

pub after_unlock : Users → Users
after_unlock u =
    let (k, m) = mutex_unlock u.kernel u.mutex in
    record {
      kernel = k;
      mutex = m;
      inside = if ltb 0 u.mutex.sem.num_waiters then u.inside - 1 + 1 else u.inside - 1;
    }

pub data Step (u : Users) : Users → Type 0 where
  lock : Step u (after_lock u)
  trylock : Step u (after_trylock u)
  unlock : 0 < u.inside → Step u (after_unlock u)
  elsewhere : (k : Kernel) → Step u (record u { kernel = k })

pub data Reach (u : Users) : Users → Type 0 where
  here : Reach u u
  next : {v w : Users} → Reach u v → Step v w → Reach u w

pub fresh : Kernel → Mutex → Users
fresh k m = record { kernel = k; mutex = mutex_init m; inside = 0 }

-- The one unit is in the semaphore or with a task.
abbrev OneUnit : Users → Type 0
OneUnit u = u.mutex.sem.count + u.inside ≡ 1

Step-OneUnit : {u v : Users} → Step u v → OneUnit u → OneUnit v
unfolding after_lock after_trylock after_unlock wait_enter mutex_trylock mutex_unlock
Step-OneUnit {u} lock e = ground arith
Step-OneUnit {u} trylock e = ground arith
Step-OneUnit {u} (unlock h) e = ground arith
Step-OneUnit (elsewhere k) e = e

Reach-OneUnit : {u v : Users} → OneUnit u → Reach u v → OneUnit v
Reach-OneUnit e here = e
Reach-OneUnit e (next r st) = Step-OneUnit st (Reach-OneUnit e r)

-- From `mutex_init` on, however the tasks interleave their calls, at most one is between its lock
-- and its unlock, and `mutex_trylock` would succeed exactly when there is none, so long as no
-- unlock comes when none is.
pub mutex-exclusive :
    (k : Kernel) (m : Mutex) {u : Users}
    → Reach (fresh k m) u
    → (u.inside ≤ 1) × (((mutex_trylock u.mutex).1 ≡ true) ↔ (u.inside ≡ 0))
unfolding fresh mutex_init mutex_trylock
mutex-exclusive k m {u} r =
    let e = Reach-OneUnit refl r in (omega arith, (λ t. ground arith, λ z. ground arith))
