-- ===== src/Kernel/Mutex/Tests.antt =====
-- A mutex that one task holds while another tries to lock it.
use osito_k.Base.{◌≤◌, ◌≡◌, ◌↔◌, true, refl}
use osito_k.Kernel.Task.{Kernel}
use osito_k.Kernel.Create.{zero_tcb}
use osito_k.Kernel.Sem.{Mutex, mutex_init, mutex_trylock, wait_enter}
use osito_k.Kernel.Mutex.{
  Users, Reach, here, next, lock, trylock, fresh, after_lock, after_trylock, mutex-exclusive,
}

abbrev kernel : Kernel
kernel = record {
  task_pool = λ _. zero_tcb;
  current_task = 1;
  tick_count = 0;
  last_scheduled = 0;
  stack = λ _. 0;
}

abbrev raw : Mutex
raw = record { sem = record { count = 7; waiters = λ _. 3; num_waiters = 2 } }

abbrev locked : Users
locked = after_trylock (after_lock (fresh kernel raw))

one_inside : locked.inside ≡ 1
unfolding fresh after_lock after_trylock mutex_init mutex_trylock wait_enter
one_inside = refl

locked-Reach : Reach (fresh kernel raw) locked
locked-Reach = next (next here lock) trylock

mutex-exclusive_example :
    (locked.inside ≤ 1) × (((mutex_trylock locked.mutex).1 ≡ true) ↔ (locked.inside ≡ 0))
mutex-exclusive_example = mutex-exclusive kernel raw locked-Reach
