-- ===== src/Mem/Heap/FirstFit.antt =====
-- First fit on a list of blocks: what `heap_alloc` means.
use osito_k.Base.{
  ℕ, ◌+◌, ◌-◌, ◌<◌, ◌≡◌, refl, true, false, Option, none, some, List, [], ◌∷◌, ◌++◌, arith,
  if◌then◌else◌, leb, ◌==◌,
}
use mathlib.Core.List.{append-nil}
use osito_k.Mem.Heap.Blocks.{Block, free, used}
use osito_k.Mem.Heap.Coalesce.{absorb, NoFree}

-- A run of `acc` free bytes, as one free block.
abbrev pub keep : ℕ → List Block → List Block
keep acc bs = if acc == 0 then bs else free acc ∷ bs

-- The `need` bytes in front of a free block of `t`; less than 8 bytes left over are given too.
abbrev pub place_blocks : ℕ → ℕ → List Block
place_blocks need t = if leb 8 (t - need) then used need ∷ free (t - need) ∷ [] else used t ∷ []

-- The blocks after an allocation of `need` bytes from the blocks at `h` with a run of `acc` free
-- bytes in front of them, and the address returned.
unfoldable pub first_fit : ℕ → ℕ → ℕ → List Block → List Block × Option ℕ
first_fit need h acc [] =
    if leb need acc then (place_blocks need acc, some (h + 4)) else (keep acc [], none)
first_fit need h acc (free n ∷ bs) = first_fit need h (acc + n) bs
first_fit need h acc (used n ∷ bs) =
    let (cs, r) = first_fit need (h + (acc + n)) 0 bs in
    if leb need acc
    then (place_blocks need acc ++ used n ∷ bs, some (h + 4))
    else (keep acc (used n ∷ cs), r)

pub first_fit-absorb :
    (need h n : ℕ) (bs : List Block)
    → first_fit need h n bs ≡ first_fit need h (absorb n bs).0 (absorb n bs).1
unfolding first_fit
first_fit-absorb need h n [] = refl
first_fit-absorb need h n (used m ∷ bs) = refl
first_fit-absorb need h n (free m ∷ bs) = first_fit-absorb need h (n + m) bs

-- A free block and those behind it are one.
pub first_fit_free :
    (need h m : ℕ) (bs : List Block)
    → first_fit need h 0 (free m ∷ bs) ≡ first_fit need h (absorb m bs).0 (absorb m bs).1
unfolding first_fit
first_fit_free need h m bs = let q : 0 + m ≡ m = omega arith in rw q (first_fit-absorb need h m bs)

-- On a used block the search moves on.
pub first_fit_used :
    (need h n : ℕ) (bs : List Block)
    → 0 < need
    → first_fit need h 0 (used n ∷ bs)
      ≡ (used n ∷ (first_fit need (h + n) 0 bs).0, (first_fit need (h + n) 0 bs).1)
unfolding first_fit
first_fit_used need h n bs pos =
    let z : leb need 0 ≡ false = ground arith in
    let q : h + (0 + n) ≡ h + n = omega arith in rw (z, q) refl

-- A merged free block is taken, or the search moves on.
pub first_fit_hit :
    (need h t : ℕ) (bs : List Block)
    → NoFree bs
    → leb need t ≡ true
    → first_fit need h t bs ≡ (place_blocks need t ++ bs, some (h + 4))
unfolding first_fit
first_fit_hit need h t [] z e = rw (e, append-nil (place_blocks need t)) refl
first_fit_hit need h t (used m ∷ bs) z e = rw e refl
first_fit_hit need h t (free m ∷ bs) z e = absurd z

pub first_fit_miss :
    (need h t : ℕ) (bs : List Block)
    → NoFree bs
    → leb need t ≡ false
    → 0 < need
    → 0 < t
    → first_fit need h t bs
      ≡ (free t ∷ (first_fit need (h + t) 0 bs).0, (first_fit need (h + t) 0 bs).1)
unfolding first_fit
first_fit_miss need h t [] z e pos tpos =
    let y : leb need 0 ≡ false = ground arith in
    let k : (t == 0) ≡ false = ground arith in rw (e, y, k) refl
first_fit_miss need h t (used m ∷ bs) z e pos tpos =
    let y : leb need 0 ≡ false = ground arith in
    let k : (t == 0) ≡ false = ground arith in
    let q : h + (t + m) ≡ h + t + (0 + m) = omega arith in rw (e, y, k, q) refl
first_fit_miss need h t (free m ∷ bs) z e pos tpos = absurd z
