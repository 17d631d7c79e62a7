-- ===== src/Kernel/Mq/System.antt =====
-- A queue in order, and that every critical section keeps it so.
use osito_k.Base.{
  ℕ, suc, ◌+◌, ◌*◌, ◌%◌, ◌^◌, ◌≤◌, ◌<◌, ◌≡◌, sym, ap, ◌∙◌, [], ◌∷◌, ◌++◌, Array, window, ltb, arith,
  ◌⊎◌, if◌then◌else◌,
}
use mathlib.Core.List.{append_assoc}
use native.Mathlib.Nat.{mod-add-mod}
use osito_k.Kernel.Task.{Kernel}
use osito_k.Kernel.Sem.{Sem, wait_enter, sem_trywait, sem_post}
use osito_k.Kernel.Mq.Copy.{mq_copy_outside, window-mq_copy}
use osito_k.Kernel.Mq.{mq_copy, put, get, post_not_empty, post_not_full}
use osito_k.Kernel.Mq.Ring.{ring, ring_same, ring-put, in_slot, slot_le}
use osito_k.Kernel.Mq.Steps.{
  System, after_send_wait, after_send_try, after_put, after_send_post, after_recv_wait,
  after_recv_try, after_get, after_recv_post, Apart,
}

-- `n` messages are in the buffer.
pub record IsSystem (s : System) (n : ℕ) : Type 0 where
  pub capacity : s.q.capacity < 2 ^ 16
  pub tail_in : s.q.tail < s.q.capacity
  pub head_is : s.q.head ≡ (s.q.tail + n) % s.q.capacity
  -- Every slot is free, filled, or promised to a sender or by a receiver.
  pub slots : s.q.not_full.count + s.sending + n + s.received_unposted ≡ s.q.capacity
  pub items : s.q.not_empty.count + s.sent_unposted + s.receiving ≡ n
  pub history : s.sent ≡ s.received ++ ring s.q.buf s.q.msg_size s.q.capacity s.mem s.q.tail n

wait_enter-count :
    (k : Kernel) (s : Sem)
    → s.count < 2 ^ 31
    → let (k', s', yields) = wait_enter k s in s'.count + (if yields then 0 else 1) ≡ s.count
unfolding wait_enter
wait_enter-count k s h = ground arith

sem_trywait-count :
    (s : Sem)
    → s.count < 2 ^ 31
    → let (s', got) = sem_trywait s in s'.count + (if got then 1 else 0) ≡ s.count
unfolding sem_trywait
sem_trywait-count s h = ground arith

sem_post-count :
    (k : Kernel) (s : Sem)
    → s.count < 2 ^ 31
    → (sem_post k s).1.count ≡ (if ltb 0 s.num_waiters then s.count else s.count + 1)
unfolding sem_post
sem_post-count k s h = ground arith

module _ {s : System} {n : ℕ} (v : IsSystem s n) where
  pub send_wait-keeps : IsSystem (after_send_wait s) n
  unfolding after_send_wait
  send_wait-keeps = record {
    capacity = v.capacity;
    tail_in = v.tail_in;
    head_is = v.head_is;
    slots = ground (arith, wait_enter-count s.kernel s.q.not_full);
    items = v.items;
    history = v.history;
  }

  pub send_try-keeps : IsSystem (after_send_try s) n
  unfolding after_send_try
  send_try-keeps = record {
    capacity = v.capacity;
    tail_in = v.tail_in;
    head_is = v.head_is;
    slots = ground (arith, sem_trywait-count s.q.not_full);
    items = v.items;
    history = v.history;
  }

  pub recv_wait-keeps : IsSystem (after_recv_wait s) n
  unfolding after_recv_wait
  recv_wait-keeps = record {
    capacity = v.capacity;
    tail_in = v.tail_in;
    head_is = v.head_is;
    slots = v.slots;
    items = ground (arith, wait_enter-count s.kernel s.q.not_empty);
    history = v.history;
  }

  pub recv_try-keeps : IsSystem (after_recv_try s) n
  unfolding after_recv_try
  recv_try-keeps = record {
    capacity = v.capacity;
    tail_in = v.tail_in;
    head_is = v.head_is;
    slots = v.slots;
    items = ground (arith, sem_trywait-count s.q.not_empty);
    history = v.history;
  }

  pub send_post-keeps : 0 < s.sent_unposted → IsSystem (after_send_post s) n
  unfolding after_send_post post_not_empty
  send_post-keeps h = record {
    capacity = v.capacity;
    tail_in = v.tail_in;
    head_is = v.head_is;
    slots = v.slots;
    items = ground (arith, sem_post-count s.kernel s.q.not_empty);
    history = v.history;
  }

  pub recv_post-keeps : 0 < s.received_unposted → IsSystem (after_recv_post s) n
  unfolding after_recv_post post_not_full
  recv_post-keeps h = record {
    capacity = v.capacity;
    tail_in = v.tail_in;
    head_is = v.head_is;
    slots = ground (arith, sem_post-count s.kernel s.q.not_full);
    items = v.items;
    history = v.history;
  }

  pub elsewhere-keeps :
      (k : Kernel) (mem : Array ℕ)
      → ((a : ℕ) → s.q.buf ≤ a → a < s.q.buf + s.q.capacity * s.q.msg_size → mem a ≡ s.mem a)
      → IsSystem (record s { kernel = k; mem = mem }) n
  elsewhere-keeps k mem same = record {
    capacity = v.capacity;
    tail_in = v.tail_in;
    head_is = v.head_is;
    slots = v.slots;
    items = v.items;
    history =
        v.history
        ∙ ap (λ r. s.received ++ r)
            (sym (ring_same s.q.buf s.q.msg_size s.q.capacity s.mem mem s.q.tail n v.tail_in same));
  }

  -- A sender past its wait has a free slot.
  put_room : 0 < s.sending → n < s.q.capacity
  put_room h = omega (arith, v.slots)

  next_head : ((s.q.tail + n) % s.q.capacity + 1) % s.q.capacity ≡ (s.q.tail + suc n) % s.q.capacity
  next_head = rw mod-add-mod (ap (λ k. k % s.q.capacity) (omega arith))

  pub put-keeps : (msg : ℕ) → 0 < s.sending → Apart s.q msg → IsSystem (after_put s msg) (suc n)
  unfolding after_put put
  put-keeps msg h apart = record {
    capacity = v.capacity;
    tail_in = v.tail_in;
    head_is = ap (λ h. (h + 1) % s.q.capacity) v.head_is ∙ next_head;
    slots = omega (arith, v.slots);
    items = omega (arith, v.items);
    history =
        ap (λ l. l ++ window s.mem msg s.q.msg_size ∷ []) v.history
        ∙ append_assoc s.received _ _
        ∙ ap (λ r. s.received ++ r)
            (sym (
              ring-put s.q.buf s.q.msg_size s.q.capacity s.mem msg s.q.tail n s.q.head v.tail_in
                (put_room h) v.head_is apart));
  }

  -- A receiver past its wait has a message to take.
  pub get_item : 0 < s.receiving → 0 < n
  get_item h = omega (arith, v.items)

  module _ (msg : ℕ) (apart : Apart s.q msg) where
    abbrev got : Array ℕ
    got = mq_copy s.mem msg (s.q.buf + s.q.tail * s.q.msg_size) s.q.msg_size

    get_apart :
        (msg + s.q.msg_size ≤ s.q.buf + s.q.tail * s.q.msg_size)
        ⊎ (s.q.buf + s.q.tail * s.q.msg_size + s.q.msg_size ≤ msg)
    get_apart = let fits = slot_le s.q.tail s.q.capacity s.q.msg_size v.tail_in in omega arith

    got_message :
        window got msg s.q.msg_size ≡ in_slot s.q.buf s.q.msg_size s.q.capacity s.mem s.q.tail
    got_message =
        window-mq_copy s.mem msg (s.q.buf + s.q.tail * s.q.msg_size) s.q.msg_size
          (omega (arith, get_apart))

    got_same : (a : ℕ) → s.q.buf ≤ a → a < s.q.buf + s.q.capacity * s.q.msg_size → got a ≡ s.mem a
    got_same a lo hi =
        mq_copy_outside s.mem msg (s.q.buf + s.q.tail * s.q.msg_size) s.q.msg_size a (omega arith)

    pub get-keeps : (n' : ℕ) → n ≡ suc n' → 0 < s.receiving → IsSystem (after_get s msg) n'
    unfolding after_get get
    get-keeps n' e h = record {
      capacity = v.capacity;
      tail_in = let t = v.tail_in in omega arith;
      head_is = v.head_is ∙ rw (e, mod-add-mod) (ap (λ k. k % s.q.capacity) (omega arith));
      slots = omega (arith, v.slots);
      items = omega (arith, v.items);
      history =
          rw (got_message, append_assoc)
            (rw e at v.history
              ∙ ap (λ r. s.received ++ in_slot s.q.buf s.q.msg_size s.q.capacity s.mem s.q.tail ∷ r)
                  (sym (
                    ring_same s.q.buf s.q.msg_size s.q.capacity s.mem got
                      ((s.q.tail + 1) % s.q.capacity) n' (let t = v.tail_in in omega arith)
                      got_same)));
    }
