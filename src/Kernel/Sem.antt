-- ===== src/Kernel/Sem.antt =====
-- Counting semaphores and mutexes: src/kernel/sem.cpp and sem.h. `count` is the bit pattern of an
-- `int32_t`. Interrupts are off in each critical section, so an operation up to its `task_yield` is
-- one step.
pub mod Invariant
pub mod Queue
pub mod Wait
pub mod Post
use osito_k.Base.{
  ℕ, zero, suc, ◌+◌, ◌-◌, ◌%◌, ◌^◌, Bool, true, false, ◌&&◌, Array, update, ltb, if◌then◌else◌,
}
use osito_k.Kernel.Task.{Kernel, ready, blocked, u32, set_state, set_current_state}
use osito_k.Kernel.Create.{task_yield}

-- `sem_t`
pub record Sem : Type 0 where
  pub count : ℕ
  pub waiters : Array ℕ
  pub num_waiters : ℕ

-- `count > 0`
abbrev pub is_positive : ℕ → Bool
is_positive w = ltb 0 w && ltb w (2 ^ 31)

unfoldable pub sem_init : Sem → ℕ → Sem
sem_init s initial_count = record s { count = initial_count; num_waiters = 0 }

-- `s->count--`
abbrev pub take : Sem → Sem
take s = record s { count = (s.count + u32 - 1) % u32 }

-- `s->waiters[s->num_waiters++] = id`
abbrev pub enqueue : Sem → ℕ → Sem
enqueue s id = record s {
  waiters = update s.waiters s.num_waiters id;
  num_waiters = (s.num_waiters + 1) % 256;
}

-- The caller joins the queue and blocks.
unfoldable pub block : Kernel → Sem → Kernel × Sem
block k s = (set_current_state k blocked, enqueue s (k.task_pool k.current_task).id)

-- The first half of `sem_wait`: take, or block. `true` if the caller must yield.
unfoldable pub wait_enter : Kernel → Sem → Kernel × Sem × Bool
unfolding block
wait_enter k s =
    if is_positive s.count then (k, take s, false) else (let (k', s') = block k s in (k', s', true))

unfoldable pub sem_wait : Kernel → Sem → Kernel × Sem
unfolding wait_enter task_yield
sem_wait k s = let (k', s', yields) = wait_enter k s in (if yields then task_yield k' else k', s')

-- `true` for the result 0, `false` for -1.
unfoldable pub sem_trywait : Sem → Sem × Bool
sem_trywait s = if is_positive s.count then (take s, true) else (s, false)

-- `for (i; i < num_waiters; i++) waiters[i - 1] = waiters[i]`, with `n` rounds left.
pub shift_down : ℕ → ℕ → Array ℕ → Array ℕ
shift_down zero i w = w
shift_down (suc n) i w = shift_down n (i + 1) (update w (i - 1) (w i))

-- `s->count++`
abbrev pub give : Sem → Sem
give s = record s { count = (s.count + 1) % u32 }

-- The first waiter leaves the queue.
pub dequeue : Sem → Sem
unfolding shift_down
dequeue s = record s {
  waiters = shift_down (s.num_waiters - 1) 1 s.waiters;
  num_waiters = (s.num_waiters + 256 - 1) % 256;
}

unfoldable pub sem_post : Kernel → Sem → Kernel × Sem
unfolding dequeue
sem_post k s =
    if ltb 0 s.num_waiters then (set_state k (s.waiters 0) ready, dequeue s) else (k, give s)

unfoldable pub sem_getcount : Sem → ℕ
sem_getcount s = s.count

-- `mutex_t` holds one semaphore.
pub record Mutex : Type 0 where
  pub sem : Sem

unfoldable pub mutex_init : Mutex → Mutex
unfolding sem_init
mutex_init m = record { sem = sem_init m.sem 1 }

unfoldable pub mutex_lock : Kernel → Mutex → Kernel × Mutex
unfolding sem_wait
mutex_lock k m = let (k', s) = sem_wait k m.sem in (k', record { sem = s })

unfoldable pub mutex_trylock : Mutex → Mutex × Bool
unfolding sem_trywait
mutex_trylock m = let (s, done) = sem_trywait m.sem in (record { sem = s }, done)

unfoldable pub mutex_unlock : Kernel → Mutex → Kernel × Mutex
unfolding sem_post
mutex_unlock k m = let (k', s) = sem_post k m.sem in (k', record { sem = s })
