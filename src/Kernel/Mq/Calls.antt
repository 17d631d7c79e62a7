-- ===== src/Kernel/Mq/Calls.antt =====
-- The four calls are runs of the steps of `Steps`, so what holds of every interleaving holds of them.
use osito_k.Base.{ℕ, ◌≡◌, refl, inl, inr, false, not, Array, Bool-cases, arith}
use osito_k.Kernel.Task.{Kernel}
use osito_k.Kernel.Sem.{is_positive, wait_enter}
use osito_k.Kernel.Mq.{Mq, mq_send, mq_recv, mq_trysend, mq_tryrecv}
use osito_k.Kernel.Mq.Steps.{
  System, after_send_wait, after_send_try, after_put, after_send_post, after_recv_wait,
  after_recv_try, after_get, after_recv_post, Apart, Reach, send_wait, send_try, send_put,
  send_post, recv_wait, recv_try, recv_get, recv_post, here, next,
}

-- The system reached has the kernel, queue and memory that the call returns.
abbrev pub Leads : System → Kernel → Mq → Array ℕ → Type 0
Leads s k q mem = (t : System) × Reach s t × (t.kernel ≡ k) × (t.q ≡ q) × (t.mem ≡ mem)

module _ (s : System) (msg : ℕ) (apart : Apart s.q msg) where
  -- With a message outside the buffer, `mq_trysend` succeeds exactly if the count of free slots is
  -- positive; if it fails it changes nothing; and what it leaves is what a run of the steps leaves,
  -- of which `Reach-fifo` speaks.
  pub mq_trysend-Leads :
      let (k, q, mem, done) = mq_trysend s.kernel s.q s.mem msg in
      (done ≡ is_positive s.q.not_full.count)
      × (done ≡ false → (k ≡ s.kernel) × (q ≡ s.q) × (mem ≡ s.mem))
      × Leads s k q mem
  unfolding mq_trysend after_send_try after_put after_send_post
  mq_trysend-Leads = elim (Bool-cases (is_positive s.q.not_full.count)) [
    | inl p ↦ rw p (
      refl,
      λ f. absurd (cc f),
      (
        after_send_post (after_put (after_send_try s) msg),
        next (next (next here send_try) (send_put msg (rw p (omega arith)) apart))
            (send_post (omega arith)),
        refl,
        rw p,
        refl,
      ),
    )
    | inr p ↦ rw p (refl, λ _. (refl, refl, refl), (s, here, refl, refl, refl))
  ]

  -- With a message outside the buffer, `mq_tryrecv` succeeds exactly if the count of messages is
  -- positive; if it fails it changes nothing; and what it leaves is what a run of the steps leaves.
  pub mq_tryrecv-Leads :
      let (k, q, mem, done) = mq_tryrecv s.kernel s.q s.mem msg in
      (done ≡ is_positive s.q.not_empty.count)
      × (done ≡ false → (k ≡ s.kernel) × (q ≡ s.q) × (mem ≡ s.mem))
      × Leads s k q mem
  unfolding mq_tryrecv after_recv_try after_get after_recv_post
  mq_tryrecv-Leads = elim (Bool-cases (is_positive s.q.not_empty.count)) [
    | inl p ↦ rw p (
      refl,
      λ f. absurd (cc f),
      (
        after_recv_post (after_get (after_recv_try s) msg),
        next (next (next here recv_try) (recv_get msg (rw p (omega arith)) apart))
            (recv_post (omega arith)),
        refl,
        rw p,
        refl,
      ),
    )
    | inr p ↦ rw p (refl, λ _. (refl, refl, refl), (s, here, refl, refl, refl))
  ]

  -- With a message outside the buffer, `mq_send` blocks exactly if the count of free slots is not
  -- positive, and what it leaves at its end, or where it yields, is what a run of the steps leaves.
  pub mq_send-Leads :
      let (k, q, mem, blocks) = mq_send s.kernel s.q s.mem msg in
      (blocks ≡ not (is_positive s.q.not_full.count)) × Leads s k q mem
  unfolding mq_send wait_enter after_send_wait after_put after_send_post
  mq_send-Leads = elim (Bool-cases (is_positive s.q.not_full.count)) [
    | inl p ↦ rw p (
      refl,
      (
        after_send_post (after_put (after_send_wait s) msg),
        next (next (next here send_wait) (send_put msg (rw p (omega arith)) apart))
            (send_post (omega arith)),
        rw p,
        rw p,
        refl,
      ),
    )
    | inr p ↦ rw p (refl, (after_send_wait s, next here send_wait, rw p, rw p, refl))
  ]

  -- With a message outside the buffer, `mq_recv` blocks exactly if the count of messages is not
  -- positive, and what it leaves at its end, or where it yields, is what a run of the steps leaves.
  pub mq_recv-Leads :
      let (k, q, mem, blocks) = mq_recv s.kernel s.q s.mem msg in
      (blocks ≡ not (is_positive s.q.not_empty.count)) × Leads s k q mem
  unfolding mq_recv wait_enter after_recv_wait after_get after_recv_post
  mq_recv-Leads = elim (Bool-cases (is_positive s.q.not_empty.count)) [
    | inl p ↦ rw p (
      refl,
      (
        after_recv_post (after_get (after_recv_wait s) msg),
        next (next (next here recv_wait) (recv_get msg (rw p (omega arith)) apart))
            (recv_post (omega arith)),
        rw p,
        rw p,
        refl,
      ),
    )
    | inr p ↦ rw p (refl, (after_recv_wait s, next here recv_wait, rw p, rw p, refl))
  ]
