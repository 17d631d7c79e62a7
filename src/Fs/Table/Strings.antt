-- ===== src/Fs/Table/Strings.antt =====
-- Names: what `fs_strncpy` stores, `fs_strcmp` finds equal.
use osito_k.Base.{
  ℕ, zero, suc, ◌+◌, ◌-◌, ◌≤◌, ◌<◌, ◌≡◌, ◌≢◌, refl, ap, ◌∙◌, true, not, ◌&&◌, Array, update, ltb,
  leb, ◌==◌, if◌then◌else◌, Bool-cases, inl, inr, arith,
}
use native.Mathlib.Decide.{ℕ_discrete}
use osito_k.Fs.Flash.{fs_name_len, fs_sector_size}
use osito_k.Fs.Table.{strcmp_loop, same_name, copy_chars, zero_chars, fs_strncpy}

-- A name of `n` characters that fits in an entry, and whose first byte is not 0xff: an entry that
-- begins with that byte counts as free, so a file of such a name is stored but not found again.
pub record IsName (name : Array ℕ) (n : ℕ) : Type 0 where
  pub chars : (j : ℕ) → j < n → name j ≢ 0
  pub ends : name n ≡ 0
  pub not_empty : 0 < n
  pub fits : n < fs_name_len
  pub not_erased : name 0 ≢ 0xff

one_more :
    (dst src : Array ℕ) (at i m a : ℕ)
    → i < m
    → (if leb (at + (i + 1)) a && ltb a (at + m)
        then src (a - at)
        else update dst (at + i) (src i) a)
      ≡ (if leb (at + i) a && ltb a (at + m) then src (a - at) else dst a)
one_more dst src at i m a lt = elim (ℕ_discrete (at + i) a) [
  | yes e ↦ let q : a - at ≡ i = omega arith in ground (arith, ap src q)
  | no ne ↦ ground arith
]

copy_chars_lem :
    (k : ℕ) (dst : Array ℕ) (at : ℕ) (src : Array ℕ) (i m : ℕ)
    → ((j : ℕ) → j < m → src j ≢ 0)
    → src m ≡ 0
    → i ≤ m
    → m ≤ i + k
    → ((copy_chars k dst at src i).1 ≡ m)
      × ((a : ℕ)
          → (copy_chars k dst at src i).0 a
            ≡ (if leb (at + i) a && ltb a (at + m) then src (a - at) else dst a))
unfolding copy_chars
copy_chars_lem zero dst at src i m chars ends le fits = (omega arith, λ a. ground arith)
copy_chars_lem (suc k) dst at src i m chars ends le fits = elim (Bool-cases (src i == 0)) [
  | inl z ↦
      let e : i ≡ m = elim (Bool-cases (ltb i m)) [
        | inl lt ↦ absurd (chars i (ground arith) (ground arith))
        | inr nlt ↦ ground arith
      ] in
      rw z (e, λ a. ground arith)
  | inr nz ↦
      let lt : i < m = elim (Bool-cases (i == m)) [
        | inl y ↦
            let q : i ≡ m = ground arith in let x : src i ≡ 0 = rw q ends in absurd (ground arith)
        | inr n ↦ ground arith
      ] in
      let (c, f) =
        copy_chars_lem k (update dst (at + i) (src i)) at src (i + 1) m chars ends (omega arith)
          (omega arith) in
      rw nz (c, λ a. f a ∙ one_more dst src at i m a lt)
]

zero_chars_lem :
    (k : ℕ) (dst : Array ℕ) (at i a : ℕ)
    → zero_chars k dst at i a ≡ (if leb (at + i) a && ltb a (at + i + k) then 0 else dst a)
unfolding zero_chars
zero_chars_lem zero dst at i a = ground arith
zero_chars_lem (suc k) dst at i a =
    zero_chars_lem k (update dst (at + i) 0) at (i + 1) a ∙ ground arith

-- The field holds the characters of the name, and zeros behind them; no other byte changed.
pub fs_strncpy_lem :
    (dst : Array ℕ) (at : ℕ) (name : Array ℕ) (n a : ℕ)
    → IsName name n
    → fs_strncpy dst at name fs_name_len a ≡ (
        if leb at a && ltb a (at + fs_name_len)
        then (if ltb a (at + n) then name (a - at) else 0)
        else dst a)
unfolding fs_strncpy
fs_strncpy_lem dst at name n a v =
    let fit = v.fits in
    let (c, f) = copy_chars_lem 23 dst at name 0 n v.chars v.ends (omega arith) (omega arith) in
    let q : n + (24 - n) ≡ 24 = omega arith in
    rw c (zero_chars_lem (24 - n) _ at n a ∙ ground (arith, f a))

-- From `i` on, two names that agree up to the end of the second are found equal.
strcmp_loop_lem :
    (f : ℕ) (a b : Array ℕ) (i n : ℕ)
    → ((j : ℕ) → j ≤ n → a j ≡ b j)
    → b n ≡ 0
    → i ≤ n
    → n ≤ i + f
    → strcmp_loop f a b i ≡ true
unfolding strcmp_loop
strcmp_loop_lem zero a b i n same ends le fits = ground (arith, same i le)
strcmp_loop_lem (suc f) a b i n same ends le fits = elim (Bool-cases (a i == 0)) [
  | inl z ↦ rw z (ground (arith, same i le))
  | inr nz ↦
      let e : (a i == b i) ≡ true = ground (arith, same i le) in
      let lt : i < n = elim (ℕ_discrete i n) [
        | yes q ↦ let x : a i ≡ 0 = same i le ∙ ap b q ∙ ends in absurd (ground arith)
        | no ne ↦ omega arith
      ] in
      rw (nz, e) (strcmp_loop_lem f a b (i + 1) n same ends (omega arith) (omega arith))
]

pub same_name_lem :
    (a b : Array ℕ) (n : ℕ) → IsName b n → ((j : ℕ) → j ≤ n → a j ≡ b j) → same_name a b ≡ true
unfolding same_name
same_name_lem a b n v same =
    strcmp_loop_lem fs_sector_size a b 0 n same v.ends (omega arith) (let f = v.fits in omega arith)

-- The comparison with a name reads no further than the name.
strcmp_loop_same :
    (f : ℕ) (a a' b : Array ℕ) (i n : ℕ)
    → ((j : ℕ) → j ≤ n → a j ≡ a' j)
    → b n ≡ 0
    → i ≤ n
    → n ≤ i + f
    → strcmp_loop f a b i ≡ strcmp_loop f a' b i
unfolding strcmp_loop
strcmp_loop_same zero a a' b i n same ends le fits = rw (same i le) refl
strcmp_loop_same (suc f) a a' b i n same ends le fits =
    elim (Bool-cases (not (a' i == 0) && (a' i == b i))) [
      | inr stop ↦ rw (same i le, stop) refl
      | inl go ↦
          let lt : i < n = elim (ℕ_discrete i n) [
            | yes q ↦ let x : b i ≡ 0 = ap b q ∙ ends in absurd (ground arith)
            | no ne ↦ omega arith
          ] in
          rw (same i le, go)
            (strcmp_loop_same f a a' b (i + 1) n same ends (omega arith) (omega arith))
    ]

pub same_name_same :
    (a a' b : Array ℕ) (n : ℕ)
    → IsName b n
    → ((j : ℕ) → j ≤ n → a j ≡ a' j)
    → same_name a b ≡ same_name a' b
unfolding same_name
same_name_same a a' b n v same =
    strcmp_loop_same fs_sector_size a a' b 0 n same v.ends (omega arith)
      (let f = v.fits in omega arith)
