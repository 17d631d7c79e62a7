-- ===== src/Kernel/Mq/Steps.antt =====
-- Any number of senders and receivers on one queue, interleaved wherever an interrupt can come: each
-- critical section of `mq_send`, `mq_recv`, `mq_trysend` and `mq_tryrecv` is a step. How many tasks
-- stand at each point between two sections is counted.
use osito_k.Base.{
  ℕ, ◌+◌, ◌-◌, ◌*◌, ◌≤◌, ◌<◌, ◌≡◌, ◌⊎◌, List, [], ◌∷◌, ◌++◌, Array, window, ltb, if◌then◌else◌,
}
use osito_k.Kernel.Task.{Kernel}
use osito_k.Kernel.Create.{task_yield}
use osito_k.Kernel.Sem.{wait_enter, sem_trywait}
use osito_k.Kernel.Mq.{Mq, mq_init, put, get, post_not_empty, post_not_full}
use osito_k.Kernel.Mq.Ring.{Message}

-- `sending` and `receiving` tasks are past their wait and before their copy, `sent_` and `got_`
-- ones behind the copy and before their post. `sent` and `received` are the messages copied in and
-- copied out so far, in order.
pub record System : Type 0 where
  pub kernel : Kernel
  pub q : Mq
  pub mem : Array ℕ
  pub sending : ℕ
  pub sent_unposted : ℕ
  pub receiving : ℕ
  pub received_unposted : ℕ
  pub sent : List Message
  pub received : List Message

-- The message at `msg` lies outside the buffer.
abbrev pub Apart : Mq → ℕ → Type 0
Apart q msg = (msg + q.msg_size ≤ q.buf) ⊎ (q.buf + q.capacity * q.msg_size ≤ msg)

-- `sem_wait(&q->not_full)`: a sender that blocks is counted when it is woken.
unfoldable pub after_send_wait : System → System
after_send_wait s =
    let (k, sem, yields) = wait_enter s.kernel s.q.not_full in
    record s {
      kernel = if yields then task_yield k else k;
      q = record (s.q) { not_full = sem };
      sending = if yields then s.sending else s.sending + 1;
    }

unfoldable pub after_send_try : System → System
after_send_try s =
    let (sem, got) = sem_trywait s.q.not_full in
    record s {
      q = record (s.q) { not_full = sem };
      sending = if got then s.sending + 1 else s.sending;
    }

unfoldable pub after_put : System → ℕ → System
after_put s msg =
    let (q, mem) = put s.q s.mem msg in
    record s {
      q = q;
      mem = mem;
      sending = s.sending - 1;
      sent_unposted = s.sent_unposted + 1;
      sent = s.sent ++ window s.mem msg s.q.msg_size ∷ [];
    }

-- A post that finds a waiter wakes it: one more receiver is past its wait.
unfoldable pub after_send_post : System → System
after_send_post s =
    let (k, q) = post_not_empty s.kernel s.q in
    record s {
      kernel = k;
      q = q;
      sent_unposted = s.sent_unposted - 1;
      receiving = if ltb 0 s.q.not_empty.num_waiters then s.receiving + 1 else s.receiving;
    }

unfoldable pub after_recv_wait : System → System
after_recv_wait s =
    let (k, sem, yields) = wait_enter s.kernel s.q.not_empty in
    record s {
      kernel = if yields then task_yield k else k;
      q = record (s.q) { not_empty = sem };
      receiving = if yields then s.receiving else s.receiving + 1;
    }

unfoldable pub after_recv_try : System → System
after_recv_try s =
    let (sem, got) = sem_trywait s.q.not_empty in
    record s {
      q = record (s.q) { not_empty = sem };
      receiving = if got then s.receiving + 1 else s.receiving;
    }

-- The message received is what stands at `msg` afterwards.
unfoldable pub after_get : System → ℕ → System
after_get s msg =
    let (q, mem) = get s.q s.mem msg in
    record s {
      q = q;
      mem = mem;
      receiving = s.receiving - 1;
      received_unposted = s.received_unposted + 1;
      received = s.received ++ window mem msg s.q.msg_size ∷ [];
    }

unfoldable pub after_recv_post : System → System
after_recv_post s =
    let (k, q) = post_not_full s.kernel s.q in
    record s {
      kernel = k;
      q = q;
      received_unposted = s.received_unposted - 1;
      sending = if ltb 0 s.q.not_full.num_waiters then s.sending + 1 else s.sending;
    }

-- `elsewhere`: other tasks and interrupts change the kernel and memory outside the buffer.
pub data Step (s : System) : System → Type 0 where
  send_wait : Step s (after_send_wait s)
  send_try : Step s (after_send_try s)
  send_put : (msg : ℕ) → 0 < s.sending → Apart s.q msg → Step s (after_put s msg)
  send_post : 0 < s.sent_unposted → Step s (after_send_post s)
  recv_wait : Step s (after_recv_wait s)
  recv_try : Step s (after_recv_try s)
  recv_get : (msg : ℕ) → 0 < s.receiving → Apart s.q msg → Step s (after_get s msg)
  recv_post : 0 < s.received_unposted → Step s (after_recv_post s)
  elsewhere :
      (k : Kernel) (mem : Array ℕ)
      → ((a : ℕ) → s.q.buf ≤ a → a < s.q.buf + s.q.capacity * s.q.msg_size → mem a ≡ s.mem a)
      → Step s (record s { kernel = k; mem = mem })

pub data Reach (s : System) : System → Type 0 where
  here : Reach s s
  next : {t u : System} → Reach s t → Step t u → Reach s u

-- A queue just initialised, and nobody in it.
unfoldable pub fresh : Kernel → Mq → Array ℕ → ℕ → ℕ → ℕ → System
fresh k q mem buf msg_size capacity = record {
  kernel = k;
  q = mq_init q buf msg_size capacity;
  mem = mem;
  sending = 0;
  sent_unposted = 0;
  receiving = 0;
  received_unposted = 0;
  sent = [];
  received = [];
}
