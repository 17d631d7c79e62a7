-- ===== src/Kernel/Mq/Ring.antt =====
-- The circular buffer as a list of messages.
use osito_k.Base.{
  ℕ, zero, suc, ◌+◌, ◌*◌, ◌%◌, ◌≤◌, ◌<◌, ◌≡◌, ◌≢◌, ◌⊎◌, inl, inr, refl, sym, ◌∙◌, ap, ap₂, List, [],
  ◌∷◌, ◌++◌, Array, length, window, window_eq, arith,
}
use native.Mathlib.Nat.{mod-add-mod, mod-eq_of_lt, add-zero}
use native.Mathlib.Decide.{dec_lt}
use osito_k.Kernel.Mq.{mq_copy}
use osito_k.Kernel.Mq.Copy.{mq_copy_outside, window-mq_copy}

abbrev pub Message : Type 0
Message = List ℕ

-- Fewer than `cap` steps round the ring do not come back to the start.
round_ne : (cap h k : ℕ) → h < cap → suc k < cap → (h + suc k) % cap ≢ h
round_ne cap h k hh hk = grind arith

pub slot_le : (i p m : ℕ) → i < p → i * m + m ≤ p * m
slot_le i p m h = grind arith

-- Different slots do not overlap.
slots_apart : (i p m : ℕ) → i ≢ p → (i * m + m ≤ p * m) ⊎ (p * m + m ≤ i * m)
slots_apart i p m ne = elim (dec_lt i p) [
  | yes lt ↦ inl (slot_le i p m lt)
  | no nl ↦ inr (slot_le p i m (omega arith))
]

module _ (buf m cap : ℕ) where
  -- The message in slot `i`, and the `n` messages from slot `t` on, going round.
  abbrev pub in_slot : Array ℕ → ℕ → Message
  in_slot mem i = window mem (buf + i * m) m

  abbrev pub ring : Array ℕ → ℕ → ℕ → List Message
  ring mem t zero = []
  ring mem t (suc n) = in_slot mem t ∷ ring mem ((t + 1) % cap) n

  pub length-ring : (mem : Array ℕ) (t n : ℕ) → length (ring mem t n) ≡ n
  length-ring mem t zero = refl
  length-ring mem t (suc n) = ap suc (length-ring mem ((t + 1) % cap) n)

  -- Memory that agrees on the buffer shows the same messages.
  pub ring_same :
      (mem mem' : Array ℕ) (t n : ℕ)
      → t < cap
      → ((a : ℕ) → buf ≤ a → a < buf + cap * m → mem' a ≡ mem a)
      → ring mem' t n ≡ ring mem t n
  ring_same mem mem' t zero ht same = refl
  ring_same mem mem' t (suc n) ht same =
      let fits : t * m + m ≤ cap * m = slot_le t cap m ht in
      ap₂ ◌∷◌
        (window_eq mem' mem (buf + t * m) (buf + t * m) m
          (λ d lt. same (buf + t * m + d) (omega arith) (omega arith)))
        (ring_same mem mem' ((t + 1) % cap) n (omega arith) same)

  module _ (mem : Array ℕ) (msg : ℕ) where
    abbrev pub copied : ℕ → Array ℕ
    copied h = mq_copy mem (buf + h * m) msg m

    other_slot : (h i : ℕ) → i ≢ h → in_slot (copied h) i ≡ in_slot mem i
    other_slot h i ne = window_eq (copied h) mem (buf + i * m) (buf + i * m) m (λ d lt.
        mq_copy_outside mem (buf + h * m) msg m (buf + i * m + d)
          (let s = slots_apart i h m ne in omega arith))

    apart_slot :
        (t : ℕ)
        → t * m + m ≤ cap * m
        → (msg + m ≤ buf) ⊎ (buf + cap * m ≤ msg)
        → (msg + m ≤ buf + t * m) ⊎ (buf + t * m + m ≤ msg)
    apart_slot t fits apart = omega arith

    -- A message put into the first free slot extends the ring by that message.
    pub ring-put :
        (t n h : ℕ)
        → t < cap
        → n < cap
        → h ≡ (t + n) % cap
        → (msg + m ≤ buf) ⊎ (buf + cap * m ≤ msg)
        → ring (copied h) t (suc n) ≡ ring mem t n ++ window mem msg m ∷ []
    ring-put t zero h ht hn e apart =
        let same : h ≡ t = e ∙ rw add-zero (mod-eq_of_lt ht) in
        let fits = slot_le t cap m ht in
        rw same
          (ap (λ x. x ∷ []) (window-mq_copy mem (buf + t * m) msg m (apart_slot t fits apart)))
    ring-put t (suc n) h ht hn e apart =
        let ne : t ≢ h = λ q. round_ne cap t n ht hn (sym e ∙ sym q) in
        ap₂ ◌∷◌ (other_slot h t ne) (
          ring-put ((t + 1) % cap) n h (omega arith) (omega arith)
            (e ∙ rw mod-add-mod (ap (λ k. k % cap) (omega arith))) apart)
