-- ===== src/Kernel/Mq/Tests.antt =====
-- A queue of two messages of two bytes, and its theorems at it.
use osito_k.Base.{ℕ, ◌+◌, ◌≤◌, ◌≡◌, refl, [], ◌∷◌, ◌++◌, Array, inl, arith}
use osito_k.Kernel.Task.{Kernel}
use osito_k.Kernel.Create.{zero_tcb}
use osito_k.Kernel.Sem.{Sem, sem_trywait}
use osito_k.Kernel.Mq.{Mq, mq_count, put, mq_init, get, post_not_empty}
use osito_k.Kernel.Mq.Ring.{ring}
use osito_k.Kernel.Mq.Steps.{
  System, Reach, here, next, send_try, send_put, send_post, recv_try, recv_get, fresh,
  after_send_try, after_put, after_send_post, after_recv_try, after_get,
}
use osito_k.Kernel.Mq.Fifo.{Reach-fifo, mq_count_lem}

abbrev kernel : Kernel
kernel = record {
  task_pool = λ _. zero_tcb;
  current_task = 0;
  tick_count = 0;
  last_scheduled = 0;
  stack = λ _. 0;
}

abbrev no_sem : Sem
no_sem = record { count = 0; waiters = λ _. 0; num_waiters = 0 }

abbrev raw : Mq
raw = record {
  buf = 0;
  msg_size = 0;
  capacity = 0;
  head = 0;
  tail = 0;
  not_full = no_sem;
  not_empty = no_sem;
}

-- Memory shows its addresses.
abbrev shown : Array ℕ
shown a = a

abbrev begin : System
begin = fresh kernel raw shown 16 2 2

abbrev one_sent : System
one_sent = after_send_post (after_put (after_send_try begin) 4)

one_sent-Reach : Reach begin one_sent
unfolding fresh after_send_try after_put put sem_trywait mq_init
one_sent-Reach =
    next (next (next here send_try) (send_put 4 (omega arith) (inl (omega arith))))
      (send_post (omega arith))

abbrev one_received : System
one_received = after_get (after_recv_try one_sent) 8

one_received-Reach : Reach begin one_received
unfolding fresh after_send_try after_put put after_send_post after_recv_try sem_trywait
    post_not_empty mq_init
one_received-Reach =
    next (next one_sent-Reach recv_try) (recv_get 8 (omega arith) (inl (omega arith)))

received_is : one_received.received ≡ (4 ∷ 5 ∷ []) ∷ []
unfolding fresh after_send_try after_put put after_send_post after_recv_try after_get post_not_empty
    mq_init get
received_is = refl

Reach-fifo_example :
    (n : ℕ) × (n ≤ one_received.q.capacity)
    × (one_received.sent
        ≡ one_received.received
          ++ ring one_received.q.buf one_received.q.msg_size one_received.q.capacity
              one_received.mem one_received.q.tail n)
Reach-fifo_example =
    Reach-fifo kernel raw shown 16 2 2 (omega arith) (omega arith) one_received-Reach

mq_count_lem_example :
    (n : ℕ) × (one_sent.sent
      ≡ one_sent.received
        ++ ring one_sent.q.buf one_sent.q.msg_size one_sent.q.capacity one_sent.mem one_sent.q.tail
            n)
    × (mq_count one_sent.q + one_sent.sent_unposted + one_sent.receiving ≡ n)
mq_count_lem_example =
    mq_count_lem kernel raw shown 16 2 2 (omega arith) (omega arith) one_sent-Reach

count_is : mq_count one_sent.q ≡ 1
unfolding mq_count fresh after_send_try after_put put after_send_post post_not_empty mq_init
count_is = refl
