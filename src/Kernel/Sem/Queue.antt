-- ===== src/Kernel/Sem/Queue.antt =====
-- The array of waiters as a queue.
use osito_k.Base.{
  ℕ, zero, suc, ◌+◌, ◌-◌, ◌≤◌, ◌<◌, ◌≡◌, refl, Array, update, arith, window, window_eq,
}
use osito_k.Kernel.Sem.{shift_down}

pub shift_down_below : (n i j : ℕ) (w : Array ℕ) → j + 1 < i → shift_down n i w j ≡ w j
unfolding shift_down
shift_down_below zero i j w h = refl
shift_down_below (suc n) i j w h =
    ground (arith, shift_down_below n (i + 1) j (update w (i - 1) (w i)))

pub shift_down_in :
    (n i j : ℕ) (w : Array ℕ) → 0 < i → i ≤ j + 1 → j + 1 < i + n → shift_down n i w j ≡ w (j + 1)
unfolding shift_down
shift_down_in zero i j w h le lt = absurd (omega arith)
shift_down_in (suc n) i j w h le lt = ground (
  arith,
  shift_down_below n (i + 1) j (update w (i - 1) (w i)),
  shift_down_in n (i + 1) j (update w (i - 1) (w i)),
)

-- The loop of `sem_post` drops the first element of the queue and keeps the others in order.
pub window-shift_down : (w : Array ℕ) (n : ℕ) → window (shift_down n 1 w) 0 n ≡ window w 1 n
window-shift_down w n =
    window_eq (shift_down n 1 w) w 0 1 n (λ d lt. ground (arith, shift_down_in n 1 d w))
