-- ===== src/Kernel/Mq/Copy.antt =====
-- `mq_copy` copies, where source and destination do not overlap.
use osito_k.Base.{
  window, window_eq, ℕ, zero, suc, ◌+◌, ◌≤◌, ◌<◌, ◌≡◌, ◌⊎◌, refl, Array, update, arith,
}
use osito_k.Kernel.Mq.{mq_copy}

-- Outside the destination nothing changes.
pub mq_copy_outside :
    (mem : Array ℕ) (dst src n a : ℕ) → (a < dst) ⊎ (dst + n ≤ a) → mq_copy mem dst src n a ≡ mem a
unfolding mq_copy
mq_copy_outside mem dst src zero a h = refl
mq_copy_outside mem dst src (suc n) a h =
    ground (arith, mq_copy_outside (update mem dst (mem src)) (dst + 1) (src + 1) n a)

mq_copy_inside :
    (mem : Array ℕ) (dst src n d : ℕ)
    → (src + n ≤ dst) ⊎ (dst + n ≤ src)
    → d < n
    → mq_copy mem dst src n (dst + d) ≡ mem (src + d)
unfolding mq_copy
mq_copy_inside mem dst src zero d apart lt = absurd (omega arith)
mq_copy_inside mem dst src (suc n) zero apart lt =
    ground (arith, mq_copy_outside (update mem dst (mem src)) (dst + 1) (src + 1) n dst)
mq_copy_inside mem dst src (suc n) (suc d) apart lt =
    ground (arith, mq_copy_inside (update mem dst (mem src)) (dst + 1) (src + 1) n d)

-- The destination shows what the source showed.
pub window-mq_copy :
    (mem : Array ℕ) (dst src n : ℕ)
    → (src + n ≤ dst) ⊎ (dst + n ≤ src)
    → window (mq_copy mem dst src n) dst n ≡ window mem src n
window-mq_copy mem dst src n apart =
    window_eq (mq_copy mem dst src n) mem dst src n
      (λ d lt. mq_copy_inside mem dst src n d apart lt)
