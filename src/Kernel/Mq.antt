-- ===== src/Kernel/Mq.antt =====
-- Message queues: src/kernel/mq.cpp and mq.h. Memory is the byte at each address; the buffer and
-- the messages lie in it.
pub mod Copy
pub mod Ring
pub mod Steps
pub mod System
pub mod Fifo
pub mod Calls
mod Tests
use osito_k.Base.{
  ℕ, zero, suc, ◌+◌, ◌-◌, ◌*◌, ◌%◌, ◌^◌, Bool, true, false, Array, update, ltb, if◌then◌else◌,
}
use osito_k.Kernel.Task.{Kernel}
use osito_k.Kernel.Create.{task_yield}
use osito_k.Kernel.Sem.{Sem, sem_init, wait_enter, sem_trywait, sem_post, sem_getcount}

-- `mq_t`; `buf` is the buffer's address.
pub record Mq : Type 0 where
  pub buf : ℕ
  pub msg_size : ℕ
  pub capacity : ℕ
  pub head : ℕ
  pub tail : ℕ
  pub not_full : Sem
  pub not_empty : Sem

-- `while (n--) *d++ = *s++;`
unfoldable pub mq_copy : Array ℕ → ℕ → ℕ → ℕ → Array ℕ
mq_copy mem dst src zero = mem
mq_copy mem dst src (suc n) = mq_copy (update mem dst (mem src)) (dst + 1) (src + 1) n

unfoldable pub mq_init : Mq → ℕ → ℕ → ℕ → Mq
unfolding sem_init
mq_init q buf msg_size capacity = record {
  buf = buf;
  msg_size = msg_size;
  capacity = capacity;
  head = 0;
  tail = 0;
  not_full = sem_init q.not_full capacity;
  not_empty = sem_init q.not_empty 0;
}

-- The critical section of the senders: the message goes to `buf[head * msg_size]`.
unfoldable pub put : Mq → Array ℕ → ℕ → Mq × Array ℕ
unfolding mq_copy
put q mem msg = (
  record q { head = (q.head + 1) % q.capacity },
  mq_copy mem (q.buf + q.head * q.msg_size) msg q.msg_size,
)

-- The critical section of the receivers.
unfoldable pub get : Mq → Array ℕ → ℕ → Mq × Array ℕ
unfolding mq_copy
get q mem msg = (
  record q { tail = (q.tail + 1) % q.capacity },
  mq_copy mem msg (q.buf + q.tail * q.msg_size) q.msg_size,
)

-- `sem_post(&q->not_empty)` and `sem_post(&q->not_full)`
unfoldable pub post_not_empty : Kernel → Mq → Kernel × Mq
unfolding sem_post
post_not_empty k q = let (k', s) = sem_post k q.not_empty in (k', record q { not_empty = s })

unfoldable pub post_not_full : Kernel → Mq → Kernel × Mq
unfolding sem_post
post_not_full k q = let (k', s) = sem_post k q.not_full in (k', record q { not_full = s })

-- What follows the wait.
unfoldable pub send_rest : Kernel → Mq → Array ℕ → ℕ → Kernel × Mq × Array ℕ
unfolding put post_not_empty
send_rest k q mem msg =
    let (q', mem') = put q mem msg in let (k', q'') = post_not_empty k q' in (k', q'', mem')

unfoldable pub recv_rest : Kernel → Mq → Array ℕ → ℕ → Kernel × Mq × Array ℕ
unfolding get post_not_full
recv_rest k q mem msg =
    let (q', mem') = get q mem msg in let (k', q'') = post_not_full k q' in (k', q'', mem')

-- `mq_send` up to its end, or up to where it yields: `true` if the caller blocked, and will do
-- `send_rest` when it is woken.
unfoldable pub mq_send : Kernel → Mq → Array ℕ → ℕ → Kernel × Mq × Array ℕ × Bool
unfolding send_rest
mq_send k q mem msg =
    let (k', s, yields) = wait_enter k q.not_full in
    let q' = record q { not_full = s } in
    if yields
    then (task_yield k', q', mem, true)
    else (let (k'', q'', mem') = send_rest k' q' mem msg in (k'', q'', mem', false))

unfoldable pub mq_recv : Kernel → Mq → Array ℕ → ℕ → Kernel × Mq × Array ℕ × Bool
unfolding recv_rest
mq_recv k q mem msg =
    let (k', s, yields) = wait_enter k q.not_empty in
    let q' = record q { not_empty = s } in
    if yields
    then (task_yield k', q', mem, true)
    else (let (k'', q'', mem') = recv_rest k' q' mem msg in (k'', q'', mem', false))

-- `true` for the result 0, `false` for -1.
unfoldable pub mq_trysend : Kernel → Mq → Array ℕ → ℕ → Kernel × Mq × Array ℕ × Bool
unfolding sem_trywait send_rest
mq_trysend k q mem msg =
    let (s, got) = sem_trywait q.not_full in
    if got
    then (let (k', q', mem') = send_rest k (record q { not_full = s }) mem msg in
        (k', q', mem', true))
    else (k, q, mem, false)

unfoldable pub mq_tryrecv : Kernel → Mq → Array ℕ → ℕ → Kernel × Mq × Array ℕ × Bool
unfolding sem_trywait recv_rest
mq_tryrecv k q mem msg =
    let (s, got) = sem_trywait q.not_empty in
    if got
    then (let (k', q', mem') = recv_rest k (record q { not_empty = s }) mem msg in
        (k', q', mem', true))
    else (k, q, mem, false)

-- `(items >= 0) ? (uint16_t)items : 0`
unfoldable pub mq_count : Mq → ℕ
unfolding sem_getcount
mq_count q =
    let items = sem_getcount q.not_empty in if ltb items (2 ^ 31) then items % 2 ^ 16 else 0
