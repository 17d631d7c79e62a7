-- ===== src/Mem/Heap/Granted.antt =====
-- What first fit means for those who hold blocks.
use osito_k.Base.{
  ℕ, ◌+◌, ◌-◌, ◌≤◌, ◌<◌, ◌≡◌, refl, ap, ◌∙◌, Option, none, some, List, [], ◌∷◌, ◌++◌, max,
  Bool-cases, inl, inr, arith, leb, ◌==◌,
}
use mathlib.Core.List.{append-nil}
use osito_k.Mem.Heap.Blocks.{Block, free, used}
use osito_k.Mem.Heap.FirstFit.{first_fit, keep, place_blocks}

-- The used blocks, each with its address and its size.
abbrev pub used_blocks : ℕ → List Block → List (ℕ × ℕ)
used_blocks h [] = []
used_blocks h (free n ∷ bs) = used_blocks (h + n) bs
used_blocks h (used n ∷ bs) = (h, n) ∷ used_blocks (h + n) bs

-- The longest run of free bytes, the first run being `acc` bytes longer.
abbrev pub longest_run : ℕ → List Block → ℕ
longest_run acc [] = acc
longest_run acc (free n ∷ bs) = longest_run (acc + n) bs
longest_run acc (used n ∷ bs) = max acc (longest_run 0 bs)

-- One block came to the used ones, at `h`, of at least `need` bytes and less than 8 more.
pub record Grants (need : ℕ) (before after : List (ℕ × ℕ)) (h : ℕ) : Type 0 where
  pub front : List (ℕ × ℕ)
  pub back : List (ℕ × ℕ)
  pub size : ℕ
  pub before_is : before ≡ front ++ back
  pub after_is : after ≡ front ++ (h, size) ∷ back
  pub enough : need ≤ size
  pub not_much_more : size < need + 8

-- What an allocation did to the used blocks. If it failed, no run is long enough, and they are the
-- same; if it returned a pointer, one is, and the block before the pointer came to them.
abbrev pub Granted : ℕ → ℕ → ℕ → List Block → List Block → Option ℕ → Type 0
Granted need h acc bs cs none =
    (longest_run acc bs < need) × (used_blocks h cs ≡ used_blocks (h + acc) bs)
Granted need h acc bs cs (some p) =
    (need ≤ longest_run acc bs)
    × ((b : ℕ) × (p ≡ b + 4) × Grants need (used_blocks (h + acc) bs) (used_blocks h cs) b)

used_blocks-keep :
    (h acc : ℕ) (bs : List Block) → used_blocks h (keep acc bs) ≡ used_blocks (h + acc) bs
used_blocks-keep h acc bs = elim (Bool-cases (acc == 0)) [
  | inl e ↦ let q : h + acc ≡ h = ground arith in rw (e, q) refl
  | inr e ↦ rw e refl
]

longest_run-le : (acc : ℕ) (bs : List Block) → acc ≤ longest_run acc bs
longest_run-le acc [] = omega arith
longest_run-le acc (free n ∷ bs) = omega (arith, longest_run-le (acc + n) bs)
longest_run-le acc (used n ∷ bs) = omega arith

-- A run that is long enough is taken.
place-Grants :
    (need h acc : ℕ) (bs : List Block)
    → need ≤ acc
    → Grants need (used_blocks (h + acc) bs) (used_blocks h (place_blocks need acc ++ bs)) h
place-Grants need h acc bs le = elim (Bool-cases (leb 8 (acc - need))) [
  | inl e ↦
      let q : h + need + (acc - need) ≡ h + acc = omega arith in
      rw (e, q)
        (record {
          front = [];
          back = used_blocks (h + acc) bs;
          size = need;
          before_is = refl;
          after_is = refl;
          enough = omega arith;
          not_much_more = omega arith;
        })
  | inr e ↦ rw e (record {
    front = [];
    back = used_blocks (h + acc) bs;
    size = acc;
    before_is = refl;
    after_is = refl;
    enough = le;
    not_much_more = ground arith;
  })
]

place_last-Grants :
    (need h acc : ℕ) → need ≤ acc → Grants need [] (used_blocks h (place_blocks need acc)) h
place_last-Grants need h acc le = rw append-nil at (place-Grants need h acc [] le)

-- A run that is too short, and the used block behind it, are passed over.
module _ (need h acc n : ℕ) (bs cs : List Block) (short : acc < need) where
  same_place : h + (acc + n) ≡ h + acc + n
  same_place = omega arith

  skip-Grants :
      (b : ℕ)
      → Grants need (used_blocks (h + (acc + n) + 0) bs) (used_blocks (h + (acc + n)) cs) b
      → Grants need (used_blocks (h + acc) (used n ∷ bs)) (used_blocks h (keep acc (used n ∷ cs))) b
  skip-Grants b g = record {
    front = (h + acc, n) ∷ g.front;
    back = g.back;
    size = g.size;
    before_is =
        let q : h + acc + n ≡ h + (acc + n) + 0 = omega arith in
        rw q (ap (λ l. (h + acc, n) ∷ l) g.before_is);
    after_is =
        used_blocks-keep h acc (used n ∷ cs)
        ∙ rw (← same_place) (ap (λ l. (h + acc, n) ∷ l) g.after_is);
    enough = g.enough;
    not_much_more = g.not_much_more;
  }

  skip-Granted :
      (r : Option ℕ)
      → Granted need (h + (acc + n)) 0 bs cs r
      → Granted need h acc (used n ∷ bs) (keep acc (used n ∷ cs)) r
  skip-Granted none (le, e) = (
    omega arith,
    used_blocks-keep h acc (used n ∷ cs)
        ∙ (let q : h + acc + n + 0 ≡ h + acc + n = omega arith in
            ap (λ l. (h + acc, n) ∷ l) (rw (same_place, q) at e)),
  )
  skip-Granted (some p) (le, (b, e, g)) = (omega arith, (b, e, skip-Grants b g))

longer-Granted :
    (need h acc n : ℕ) (bs cs : List Block) (r : Option ℕ)
    → Granted need h (acc + n) bs cs r
    → Granted need h acc (free n ∷ bs) cs r
longer-Granted need h acc n bs cs none g =
    let q : h + (acc + n) ≡ h + acc + n = omega arith in rw (← q) g
longer-Granted need h acc n bs cs (some p) g =
    let q : h + (acc + n) ≡ h + acc + n = omega arith in rw (← q) g

pub first_fit-Granted :
    (need h acc : ℕ) (bs : List Block)
    → 0 < need
    → Granted need h acc bs (first_fit need h acc bs).0 (first_fit need h acc bs).1
unfolding first_fit
first_fit-Granted need h acc [] pos = elim (Bool-cases (leb need acc)) [
  | inl e ↦ rw e (ground arith, (h, refl, place_last-Grants need h acc (ground arith)))
  | inr e ↦ rw e (ground arith, used_blocks-keep h acc [])
]
first_fit-Granted need h acc (free n ∷ bs) pos =
    longer-Granted need h acc n bs (first_fit need h (acc + n) bs).0
      (first_fit need h (acc + n) bs).1 (first_fit-Granted need h (acc + n) bs pos)
first_fit-Granted need h acc (used n ∷ bs) pos = elim (Bool-cases (leb need acc)) [
  | inl e ↦ rw e (ground arith, (h, refl, place-Grants need h acc (used n ∷ bs) (ground arith)))
  | inr e ↦ rw e (
      skip-Granted need h acc n bs (first_fit need (h + (acc + n)) 0 bs).0 (ground arith)
        (first_fit need (h + (acc + n)) 0 bs).1 (first_fit-Granted need (h + (acc + n)) 0 bs pos))
]
