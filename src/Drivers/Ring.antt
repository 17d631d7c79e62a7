-- ===== src/Drivers/Ring.antt =====
-- A ring buffer that leaves one place free, with the index to write at and the index to read from, as
-- the UART and the input driver keep it.
use osito_k.Base.{
  ℕ, zero, suc, ◌+◌, ◌-◌, ◌%◌, ◌<◌, ◌≡◌, ◌≢◌, refl, sym, ◌∙◌, ap, ap₂, List, [], ◌∷◌, ◌++◌, Array,
  length, length-append, update, update_self, update_ne, arith,
}
use native.Mathlib.Nat.{mod-add-mod, mod-eq_of_lt, add-zero}
use mathlib.Core.List.{append-nil, append_assoc}
use native.Mathlib.Decide.{dec_lt}

round_ne : (cap h k : ℕ) → h < cap → suc k < cap → (h + suc k) % cap ≢ h
round_ne cap h k hh hk = grind arith

round_back : (cap h : ℕ) → h < cap → (h + cap) % cap ≡ h
round_back cap h hh = grind arith

module _ {A : Type 0} (cap : ℕ) where
  -- The `n` elements from place `t` on, going round.
  abbrev pub ring : Array A → ℕ → ℕ → List A
  ring w t zero = []
  ring w t (suc n) = w t ∷ ring w ((t + 1) % cap) n

  ring-update :
      (w : Array A) (a : A) (t n h : ℕ)
      → t < cap
      → n < cap
      → h ≡ (t + n) % cap
      → ring (update w h a) t (suc n) ≡ ring w t n ++ a ∷ []
  ring-update w a t zero h ht hn e =
      let same : h ≡ t = e ∙ rw add-zero (mod-eq_of_lt ht) in
      rw same (ap (λ x. x ∷ []) (update_self w t a))
  ring-update w a t (suc n) h ht hn e =
      let ne : h ≢ t = λ q. round_ne cap t n ht hn (sym e ∙ q) in
      ap₂ ◌∷◌ (update_ne w h t a ne) (
        ring-update w a ((t + 1) % cap) n h (omega arith) (omega arith)
          (e ∙ rw mod-add-mod (ap (λ k. k % cap) (omega arith))))

  -- The ring holds the elements of `q`, in its order.
  pub record IsRing (w : Array A) (head tail : ℕ) (q : List A) : Type 0 where
    pub inside : tail < cap
    pub room : length q < cap
    pub end : head ≡ (tail + length q) % cap
    pub shown : ring w tail (length q) ≡ q

  module _ (w : Array A) (head tail : ℕ) where
    pub IsRing-full :
        (q : List A) → IsRing w head tail q → (head + 1) % cap ≡ tail → length q + 1 ≡ cap
    IsRing-full q v e = elim (dec_lt (length q + 1) cap) [
      | yes lt ↦
          let s : (head + 1) % cap ≡ (tail + suc (length q)) % cap =
            rw v.end (rw mod-add-mod (ap (λ k. k % cap) (omega arith))) in
          absurd (round_ne cap tail (length q) v.inside (omega arith) (sym s ∙ e))
      | no nl ↦ let r = v.room in omega arith
    ]

    pub IsRing-push :
        (q : List A) (a : A)
        → IsRing w head tail q
        → (head + 1) % cap ≢ tail
        → (length q + 1 < cap) × IsRing (update w head a) ((head + 1) % cap) tail (q ++ a ∷ [])
    IsRing-push q a v ne =
        let s : (head + 1) % cap ≡ (tail + suc (length q)) % cap =
          rw v.end (rw mod-add-mod (ap (λ k. k % cap) (omega arith))) in
        let r = v.room in
        let longer : length (q ++ a ∷ []) ≡ suc (length q) =
          omega (arith, length-append q (a ∷ [])) in
        let lt : length q + 1 < cap = elim (dec_lt (length q + 1) cap) [
          | yes lt ↦ lt
          | no nl ↦
              let full : suc (length q) ≡ cap = omega arith in
              absurd (ne (s ∙ ap (λ k. (tail + k) % cap) full ∙ round_back cap tail v.inside))
        ] in
        (
          lt,
          record {
            inside = v.inside;
            room = omega (arith, longer);
            end = s ∙ ap (λ k. (tail + k) % cap) (sym longer);
            shown =
                ap (ring (update w head a) tail) longer
                ∙ ring-update w a tail (length q) head v.inside r v.end
                ∙ ap (λ l. l ++ a ∷ []) v.shown;
          },
        )

    -- The ring is empty exactly if the indices agree.
    pub IsRing-empty : (q : List A) → IsRing w head tail q → head ≡ tail → q ≡ []
    IsRing-empty [] v e = refl
    IsRing-empty (x ∷ q) v e = absurd (round_ne cap tail (length q) v.inside v.room (sym v.end ∙ e))

    pub IsRing-pop :
        (q : List A)
        → IsRing w head tail q
        → head ≢ tail
        → (rest : List A) × (q ≡ w tail ∷ rest) × IsRing w head ((tail + 1) % cap) rest
    IsRing-pop [] v ne = absurd (ne (v.end ∙ rw add-zero (mod-eq_of_lt v.inside)))
    IsRing-pop (x ∷ q) v ne =
        let i = v.inside in
        let r = v.room in
        let s = v.shown in
        (
          q,
          cc,
          record {
            inside = omega arith;
            room = omega arith;
            end = v.end ∙ sym (rw mod-add-mod (ap (λ k. k % cap) (omega arith)));
            shown = cc;
          },
        )

-- The first `n` elements.
abbrev pub take : {A : Type 0} → ℕ → List A → List A
take zero xs = []
take (suc n) [] = []
take (suc n) (x ∷ xs) = x ∷ take n xs

-- What a ring with `cap` places holds after the elements of `xs` have been put in, as far as there
-- is room.
abbrev pub filled : {A : Type 0} → ℕ → List A → List A → List A
filled cap q xs = q ++ take (cap - 1 - length q) xs

pub filled-full :
    {A : Type 0} (cap : ℕ) (q : List A) (xs : List A) → length q + 1 ≡ cap → filled cap q xs ≡ q
filled-full cap q xs e = let z : cap - 1 - length q ≡ 0 = omega arith in rw z (append-nil q)

pub filled-room :
    {A : Type 0} (cap : ℕ) (q : List A) (x : A) (xs : List A)
    → length q + 1 < cap
    → filled cap q (x ∷ xs) ≡ filled cap (q ++ x ∷ []) xs
filled-room cap q x xs lt =
    let more : cap - 1 - length q ≡ suc (cap - 1 - length (q ++ x ∷ [])) =
      omega (arith, length-append q (x ∷ [])) in
    rw more (sym (append_assoc q (x ∷ []) (take (cap - 1 - length (q ++ x ∷ [])) xs)))

pub filled-nothing : {A : Type 0} (cap : ℕ) (q : List A) → filled cap q [] ≡ q
filled-nothing cap q = elim (dec_lt 0 (cap - 1 - length q)) [
  | yes lt ↦
      let more : cap - 1 - length q ≡ suc (cap - 1 - length q - 1) = omega arith in
      rw more (append-nil q)
  | no nl ↦ let z : cap - 1 - length q ≡ 0 = omega arith in rw z (append-nil q)
]
