-- ===== src/Fs/Upload/Receive.antt =====
-- What `fs_upload` takes from the UART for a sector, and its checksum.
use osito_k.Base.{
  ℕ, zero, suc, ◌+◌, ◌-◌, ◌%◌, ◌≤◌, ◌<◌, ◌≡◌, inl, inr, refl, ◌∙◌, none, some, List, [], ◌∷◌, Array,
  update, update_self, update_ne, element, length, ltb, Bool-cases, arith,
}
use osito_k.Fs.Upload.{
  crc_byte, crc_loop, Poll, is_late, Received, all_here, more_to_come, too_late, receive_chunk,
}

-- The bytes that the polls deliver.
abbrev pub chars : List Poll → List ℕ
chars [] = []
chars ((some c, tick) ∷ ps) = c % 256 ∷ chars ps
chars ((none, tick) ∷ ps) = chars ps

-- How many polls found no character.
abbrev pub idle : List Poll → ℕ
idle [] = 0
idle ((some c, tick) ∷ ps) = idle ps
idle ((none, tick) ∷ ps) = suc (idle ps)

-- `got` bytes stood in `buf`, and `polls` filled it up to `chunk`, so that `rest` is left.
pub record IsFilled (polls rest : List Poll) (chunk got : ℕ) (buf buf' : Array ℕ) : Type 0 where
  pub before : (i : ℕ) → i < got → buf' i ≡ buf i
  pub here : (i : ℕ) → got + i < chunk → buf' (got + i) ≡ element (chars polls) i
  pub behind : (i : ℕ) → element (chars rest) i ≡ element (chars polls) (chunk - got + i)
  pub used : length (chars rest) + (chunk - got) ≡ length (chars polls)
  pub idle_left : idle rest ≤ idle polls

-- The buffer is filled; or there are too few characters; or the sender paused.
abbrev pub Receives : List Poll → ℕ → ℕ → Array ℕ → Received → Type 0
Receives polls chunk got buf (all_here buf' rest) = IsFilled polls rest chunk got buf buf'
Receives polls chunk got buf more_to_come = length (chars polls) < chunk - got
Receives polls chunk got buf (too_late buf') = 0 < idle polls

enough :
    (polls : List Poll) (chunk got : ℕ) (buf : Array ℕ)
    → chunk ≡ got
    → IsFilled polls polls chunk got buf buf
enough polls chunk got buf e = record {
  before = λ i h. refl;
  here = λ i h. absurd (omega arith);
  behind = λ i. let q : chunk - got + i ≡ i = omega arith in rw q refl;
  used = omega arith;
  idle_left = omega arith;
}

one_more :
    (c tick : ℕ) (polls : List Poll) (chunk got : ℕ) (buf : Array ℕ) (r : Received)
    → got < chunk
    → Receives polls chunk (got + 1) (update buf got (c % 256)) r
    → Receives ((some c, tick) ∷ polls) chunk got buf r
one_more c tick polls chunk got buf (all_here buf' rest) lt v = record {
  before = λ i h. v.before i (omega arith) ∙ update_ne buf got i _ (λ e. omega (arith, e));
  here = at_place;
  behind =
      λ i. let q : chunk - got + i ≡ suc (chunk - (got + 1) + i) = omega arith in rw q (v.behind i);
  used = let u = v.used in omega (arith, u);
  idle_left = v.idle_left;
}
  where
    at_place : (i : ℕ) → got + i < chunk → buf' (got + i) ≡ element (c % 256 ∷ chars polls) i
    at_place zero h =
        let q : got + 0 ≡ got = omega arith in
        rw q (v.before got (omega arith) ∙ update_self buf got (c % 256))
    at_place (suc i) h =
        let q : got + suc i ≡ got + 1 + i = omega arith in rw q (v.here i (omega arith))
one_more c tick polls chunk got buf more_to_come lt v = omega arith
one_more c tick polls chunk got buf (too_late buf') lt v = v

one_idle :
    (tick : ℕ) (polls : List Poll) (chunk got : ℕ) (buf : Array ℕ) (r : Received)
    → Receives polls chunk got buf r
    → Receives ((none, tick) ∷ polls) chunk got buf r
one_idle tick polls chunk got buf (all_here buf' rest) v = record {
  before = v.before;
  here = v.here;
  behind = v.behind;
  used = v.used;
  idle_left = let l = v.idle_left in omega (arith, l);
}
one_idle tick polls chunk got buf more_to_come v = v
one_idle tick polls chunk got buf (too_late buf') v = omega arith

pub receive_chunk-Receives :
    (polls : List Poll) (chunk got start : ℕ) (buf : Array ℕ)
    → got ≤ chunk
    → Receives polls chunk got buf (receive_chunk polls chunk got start buf)
unfolding receive_chunk
receive_chunk-Receives [] chunk got start buf le = elim (Bool-cases (ltb got chunk)) [
  | inl y ↦ rw y (ground arith)
  | inr n ↦ rw n (enough [] chunk got buf (ground arith))
]
receive_chunk-Receives ((some c, tick) ∷ polls) chunk got start buf le =
    elim (Bool-cases (ltb got chunk)) [
      | inl y ↦ rw y (
          one_more c tick polls chunk got buf _ (ground arith) (
            receive_chunk-Receives polls chunk (got + 1) tick (update buf got (c % 256))
              (ground arith)))
      | inr n ↦ rw n (enough ((some c, tick) ∷ polls) chunk got buf (ground arith))
    ]
receive_chunk-Receives ((none, tick) ∷ polls) chunk got start buf le =
    elim (Bool-cases (ltb got chunk)) [
      | inl y ↦ elim (Bool-cases (is_late tick start)) [
        | inl late ↦ rw (y, late) (omega arith)
        | inr soon ↦
            rw (y, soon)
              (one_idle tick polls chunk got buf _
                (receive_chunk-Receives polls chunk got start buf le))
      ]
      | inr n ↦ rw n (enough ((none, tick) ∷ polls) chunk got buf (ground arith))
    ]

-- The checksum goes byte by byte, and depends on the bytes alone.
pub crc_loop-append :
    (a b : ℕ) (bytes : Array ℕ) (i crc : ℕ)
    → crc_loop (a + b) bytes i crc ≡ crc_loop b bytes (i + a) (crc_loop a bytes i crc)
unfolding crc_loop
crc_loop-append zero b bytes i crc =
    let q : 0 + b ≡ b = omega arith in let r : i + 0 ≡ i = omega arith in rw (q, r) refl
crc_loop-append (suc a) b bytes i crc =
    let q : suc a + b ≡ suc (a + b) = omega arith in
    let r : i + suc a ≡ i + 1 + a = omega arith in
    rw (q, r) (crc_loop-append a b bytes (i + 1) (crc_byte crc (bytes i)))

pub crc_loop_same :
    (n : ℕ) (f g : Array ℕ) (i j crc : ℕ)
    → ((d : ℕ) → d < n → f (i + d) ≡ g (j + d))
    → crc_loop n f i crc ≡ crc_loop n g j crc
unfolding crc_loop
crc_loop_same zero f g i j crc same = refl
crc_loop_same (suc n) f g i j crc same =
    let a : i + 0 ≡ i = omega arith in
    let b : j + 0 ≡ j = omega arith in
    let e = rw (a, b) at (same 0 (omega arith)) in
    rw e (
      crc_loop_same n f g (i + 1) (j + 1) (crc_byte crc (g j)) (λ d h.
        let p : i + 1 + d ≡ i + suc d = omega arith in
        let q : j + 1 + d ≡ j + suc d = omega arith in rw (p, q) (same (suc d) (omega arith))))
