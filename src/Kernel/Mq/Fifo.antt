-- ===== src/Kernel/Mq/Fifo.antt =====
-- Whatever the interleaving, the queue is a bounded FIFO.
use osito_k.Base.{ℕ, suc, ◌+◌, ◌-◌, ◌^◌, ◌≤◌, ◌<◌, ◌≡◌, refl, ◌++◌, Array, arith}
use osito_k.Kernel.Task.{Kernel}
use osito_k.Kernel.Mq.{Mq, mq_init, mq_count}
use osito_k.Kernel.Mq.Ring.{ring}
use osito_k.Kernel.Mq.Steps.{
  System, Step, Reach, send_wait, send_try, send_put, send_post, recv_wait, recv_try, recv_get,
  recv_post, elsewhere, here, next, fresh,
}
use osito_k.Kernel.Mq.System.{
  IsSystem, send_wait-keeps, send_try-keeps, put-keeps, send_post-keeps, recv_wait-keeps,
  recv_try-keeps, get_item, get-keeps, recv_post-keeps, elsewhere-keeps,
}

-- How many messages a step leaves in the buffer.
Holds : System → Type 0
Holds s = (n : ℕ) × IsSystem s n

Step-Holds : {s t : System} → Step s t → Holds s → Holds t
unfolding Holds
Step-Holds send_wait (n, v) = (n, send_wait-keeps v)
Step-Holds send_try (n, v) = (n, send_try-keeps v)
Step-Holds (send_put msg h apart) (n, v) = (suc n, put-keeps v msg h apart)
Step-Holds (send_post h) (n, v) = (n, send_post-keeps v h)
Step-Holds recv_wait (n, v) = (n, recv_wait-keeps v)
Step-Holds recv_try (n, v) = (n, recv_try-keeps v)
Step-Holds (recv_get msg h apart) (n, v) =
    let p = get_item v h in (n - 1, get-keeps v msg apart (n - 1) (omega arith) h)
Step-Holds (recv_post h) (n, v) = (n, recv_post-keeps v h)
Step-Holds (elsewhere k mem same) (n, v) = (n, elsewhere-keeps v k mem same)

fresh-IsSystem :
    (k : Kernel) (q : Mq) (mem : Array ℕ) (buf msg_size capacity : ℕ)
    → 0 < capacity
    → capacity < 2 ^ 16
    → IsSystem (fresh k q mem buf msg_size capacity) 0
unfolding fresh mq_init
fresh-IsSystem k q mem buf m cap pos small = record {
  capacity = small;
  tail_in = pos;
  head_is = omega arith;
  slots = omega arith;
  items = refl;
  history = refl;
}

Reach-Holds : {s t : System} → Holds s → Reach s t → Holds t
Reach-Holds h here = h
Reach-Holds h (next r st) = Step-Holds st (Reach-Holds h r)

-- From a fresh queue of a capacity from 1 to 65535 on, however senders and receivers interleave:
-- what was sent is what has been received, in that order, and then the `n` messages that stand in
-- the buffer from `tail` on, and `n` is at most the capacity. So no message is lost, doubled,
-- reordered or overwritten.
pub Reach-fifo :
    (k : Kernel) (q : Mq) (mem : Array ℕ) (buf msg_size capacity : ℕ) {s : System}
    → 0 < capacity
    → capacity < 2 ^ 16
    → Reach (fresh k q mem buf msg_size capacity) s
    → (n : ℕ) × (n ≤ s.q.capacity)
      × (s.sent ≡ s.received ++ ring s.q.buf s.q.msg_size s.q.capacity s.mem s.q.tail n)
unfolding Holds
Reach-fifo k q mem buf m cap pos small r =
    let (n, v) = Reach-Holds (0, fresh-IsSystem k q mem buf m cap pos small) r in
    (n, omega (arith, v.slots), v.history)

mq_count-IsSystem :
    {s : System} {n : ℕ} → IsSystem s n → mq_count s.q + s.sent_unposted + s.receiving ≡ n
unfolding mq_count
mq_count-IsSystem {s} v = let c = v.capacity in let t = v.slots in let i = v.items in ground arith

-- From a fresh queue of a capacity from 1 to 65535 on, however senders and receivers interleave:
-- with `n` messages sent and not yet received, which stand in the buffer from `tail` on, `mq_count`
-- is `n` less the messages that are copied in but not yet posted, and less those promised to
-- receivers that are past their wait.
pub mq_count_lem :
    (k : Kernel) (q : Mq) (mem : Array ℕ) (buf msg_size capacity : ℕ) {s : System}
    → 0 < capacity
    → capacity < 2 ^ 16
    → Reach (fresh k q mem buf msg_size capacity) s
    → (n : ℕ) × (s.sent ≡ s.received ++ ring s.q.buf s.q.msg_size s.q.capacity s.mem s.q.tail n)
      × (mq_count s.q + s.sent_unposted + s.receiving ≡ n)
unfolding Holds
mq_count_lem k q mem buf m cap pos small r =
    let (n, v) = Reach-Holds (0, fresh-IsSystem k q mem buf m cap pos small) r in
    (n, v.history, mq_count-IsSystem v)
