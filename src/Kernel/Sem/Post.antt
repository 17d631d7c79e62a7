-- ===== src/Kernel/Sem/Post.antt =====
-- `sem_post`.
use osito_k.Base.{
  window, ℕ, ◌+◌, ◌-◌, ◌%◌, ◌≡◌, ◌≢◌, refl, true, false, List, [], ◌∷◌, All-map, All-and, length,
  ltb, arith,
}
use osito_k.Kernel.Task.{Kernel, ready, u32, set_state}
use osito_k.Kernel.Invariant.{IsKernel}
use osito_k.Kernel.Sem.{Sem, dequeue, sem_post}
use osito_k.Kernel.Sem.Queue.{window-shift_down}
use osito_k.Kernel.Sem.Invariant.{Waiting, IsSem, num_waiters_lem, num_waiters-le}

-- What `sem_post` did. With nobody waiting: the count is one more. Otherwise: the first in the queue
-- is ready and has left it, the others wait on in the same order, the count is the same, and no
-- other task's block changed.
abbrev pub Posted : Kernel → Sem → List ℕ → Kernel → Sem → Type 0
Posted k s [] k' s' = (k' ≡ k) × (s'.count ≡ (s.count + 1) % u32) × IsSem k' s' []
Posted k s (x ∷ q) k' s' =
    IsKernel k'
    × ((k'.task_pool x).state ≡ ready)
    × ((j : ℕ) → j ≢ x → k'.task_pool j ≡ k.task_pool j)
    × (k'.current_task ≡ k.current_task)
    × (s'.count ≡ s.count)
    × IsSem k' s' q

give-Posted :
    {k : Kernel} {s : Sem} → IsSem k s [] → Posted k s [] (sem_post k s).0 (sem_post k s).1
unfolding sem_post
give-Posted {k} {s} v =
    let e = num_waiters_lem v in
    let z : ltb 0 s.num_waiters ≡ false = ground arith in
    rw z (
      refl,
      refl,
      record {
        shown = v.shown;
        waiting = tt;
        distinct = tt;
        idle_count = λ _. refl;
        in_word = omega arith;
      },
    )

module _ {k : Kernel} {s : Sem} {x : ℕ} {q : List ℕ} (kernel : IsKernel k)
    (v : IsSem k s (x ∷ q)) where
  first : s.waiters 0 ≡ x
  first = let e = rw (num_waiters_lem v) at v.shown in cc

  rest : window s.waiters 1 (length q) ≡ q
  rest = let e = rw (num_waiters_lem v) at v.shown in cc

  dequeue_shown : window (dequeue s).waiters 0 (dequeue s).num_waiters ≡ q
  unfolding dequeue
  dequeue_shown =
      let e = num_waiters_lem v in
      let n = num_waiters-le v in
      let a : s.num_waiters - 1 ≡ length q = omega arith in
      let b : (s.num_waiters + 256 - 1) % 256 ≡ length q = omega arith in
      rw (a, b, window-shift_down s.waiters (length q), rest)

  Waiting-post : (t : ℕ) → Waiting k t × (t ≢ x) → Waiting (set_state k x ready) t
  Waiting-post t (w, ne) = record {
    inside = w.inside;
    is_blocked = ground (arith, w.is_blocked);
    no_alarm = ground (arith, w.no_alarm);
  }

  post-IsKernel : IsKernel (set_state k x ready)
  post-IsKernel =
      let w = v.waiting.0 in
      record {
        current_in = kernel.current_in;
        last_in = kernel.last_in;
        idle_runnable = ground (arith, kernel.idle_runnable);
        idle_priority = ground (arith, kernel.idle_priority);
        one_running = λ i hi. ground (arith, kernel.one_running i);
        ids = λ i hi. ground (arith, kernel.ids i, kernel.ids x, w.is_blocked);
        awake = λ i hi. ground (arith, kernel.awake i, w.no_alarm);
      }

  dequeue-IsSem : IsSem (set_state k x ready) (dequeue s) q
  dequeue-IsSem = record {
    shown = dequeue_shown;
    waiting =
        All-map (λ t. Waiting k t × (t ≢ x)) (Waiting (set_state k x ready)) q Waiting-post
          (All-and (Waiting k) (λ t. t ≢ x) q v.waiting.1 v.distinct.0);
    distinct = v.distinct.1;
    idle_count = unfold dequeue in λ p. absurd (cc (v.idle_count p));
    in_word = unfold dequeue in v.in_word;
  }

  wake-Posted : Posted k s (x ∷ q) (sem_post k s).0 (sem_post k s).1
  unfolding sem_post
  wake-Posted =
      let e = num_waiters_lem v in
      let z : ltb 0 s.num_waiters ≡ true = ground arith in
      rw (z, first)
        (
          post-IsKernel,
          ground arith,
          λ j ne. ground arith,
          refl,
          unfold dequeue in refl,
          dequeue-IsSem,
        )

-- `sem_post` on a semaphore in order. With nobody waiting, the count is one more, modulo 2 ^ 32,
-- and the kernel is untouched. Otherwise the task that has waited longest is ready and out of the
-- queue, the others wait on in the same order, the count is as it was, and no other task's block
-- changed.
pub sem_post-Posted :
    {k : Kernel} {s : Sem} (q : List ℕ)
    → IsKernel k
    → IsSem k s q
    → Posted k s q (sem_post k s).0 (sem_post k s).1
sem_post-Posted [] kernel v = give-Posted v
sem_post-Posted (x ∷ q) kernel v = wake-Posted kernel v
