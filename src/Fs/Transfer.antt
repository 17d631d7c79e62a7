-- ===== src/Fs/Transfer.antt =====
-- What the helpers read and write, with or without a detour through the buffer on the stack.
use osito_k.Base.{
  ℕ, zero, suc, ◌+◌, ◌-◌, ◌%◌, ◌^◌, ◌≤◌, ◌<◌, ◌≡◌, inl, inr, ap, ◌∙◌, true, ◌&&◌, Array, ltb, leb,
  ◌==◌, if◌then◌else◌, Bool-cases, arith,
}
use osito_k.Fs.Flash.{
  Spi, IsSpi, blit, round4, chunk64, read_chunks, flash_read, write_chunks, flash_write,
}

-- A chunk of `n` bytes at `p`, and the rest behind it.
glue :
    (chip dst buf : Array ℕ) (addr p n len i : ℕ)
    → n ≤ len
    → (leb p i ≡ true → ltb i (p + n) ≡ true → buf (i - p) ≡ chip (addr + (i - p)))
    → (if leb (p + n) i && ltb i (p + n + (len - n))
        then chip (addr + n + (i - (p + n)))
        else blit dst p buf n i)
      ≡ (if leb p i && ltb i (p + len) then chip (addr + (i - p)) else dst i)
glue chip dst buf addr p n len i le same = ground arith

chunk64_lem : (len : ℕ) → 0 < len → (0 < chunk64 len) × (chunk64 len ≤ len) × (chunk64 len ≤ 64)
chunk64_lem len pos = (ground arith, ground arith, ground arith)

round4-le : (n : ℕ) → n ≤ 64 → n ≤ round4 n
round4-le n h = omega arith

module _ (spi : Spi) (laws : IsSpi spi) where
  -- A chunk is at least one byte, so `len` rounds are enough.
  read_chunks_lem :
      (f : ℕ) (chip : Array ℕ) (addr : ℕ) (dst : Array ℕ) (p len i : ℕ)
      → len ≤ f
      → len < 2 ^ 31
      → read_chunks spi f chip addr dst p len i
        ≡ (if leb p i && ltb i (p + len) then chip (addr + (i - p)) else dst i)
  unfolding read_chunks
  read_chunks_lem zero chip addr dst p len i le small = ground arith
  read_chunks_lem (suc f) chip addr dst p len i le small = elim (Bool-cases (len == 0)) [
    | inl z ↦ rw z (ground arith)
    | inr nz ↦
        let pos : 0 < len = ground arith in
        let (n_pos, n_le, n_small) = chunk64_lem len pos in
        rw nz (
          read_chunks_lem f chip (addr + chunk64 len)
            (blit dst p (spi.spi_read chip addr (round4 (chunk64 len))) (chunk64 len))
            (p + chunk64 len) (len - chunk64 len) i (omega arith) (omega arith)
          ∙ glue chip dst (spi.spi_read chip addr (round4 (chunk64 len))) addr p (chunk64 len) len i
              n_le
              (λ lo hi.
                laws.reads chip addr (round4 (chunk64 len)) (i - p)
                  (ground (arith, round4-le (chunk64 len) n_small))))
  ]

  -- A read of `len` bytes puts the bytes of the chip from `addr` on into the first `len` of the buffer,
  -- and leaves the others, wherever the buffer lies.
  pub flash_read_lem :
      (chip : Array ℕ) (addr : ℕ) (dst : Array ℕ) (at len i : ℕ)
      → len < 2 ^ 31
      → flash_read spi chip addr dst at len i ≡ (if ltb i len then chip (addr + i) else dst i)
  unfolding flash_read
  flash_read_lem chip addr dst at len i small = elim (Bool-cases (at % 4 == 0)) [
    | inl z ↦ rw z (ground (arith, laws.reads chip addr len i))
    | inr nz ↦ rw nz (read_chunks_lem len chip addr dst 0 len i (omega arith) small ∙ ground arith)
  ]

  -- One call of `SPIWrite` on erased bytes.
  spi_write_lem :
      (chip : Array ℕ) (addr : ℕ) (src : Array ℕ) (len a : ℕ)
      → ((j : ℕ) → j < len → chip (addr + j) ≡ 0xff)
      → spi.spi_write chip addr src len a
        ≡ (if leb addr a && ltb a (addr + len) then src (a - addr) else chip a)
  spi_write_lem chip addr src len a erased = elim (Bool-cases (leb addr a && ltb a (addr + len))) [
    | inl y ↦
        let lo : addr ≤ a = ground arith in
        let hi : a < addr + len = ground arith in
        let q : addr + (a - addr) ≡ a = omega arith in
        rw y (rw q at (laws.writes chip addr src len (a - addr) erased (omega arith)))
    | inr n ↦ rw n (laws.writes_inside chip addr src len a (ground arith))
  ]

  -- A chunk through the buffer on the stack.
  module _ (chip src tmp : Array ℕ) (addr p len : ℕ) (pos : 0 < len) (al : len % 4 ≡ 0)
      (erased : (j : ℕ) → j < len → chip (addr + j) ≡ 0xff) where
    abbrev n : ℕ
    n = chunk64 len

    abbrev tmp' : Array ℕ
    tmp' = blit tmp 0 (λ i. src (p + i)) n

    abbrev chip' : Array ℕ
    chip' = spi.spi_write chip addr tmp' (round4 n)

    whole : round4 n ≡ n
    whole = ground arith

    chip'_lem :
        (a : ℕ)
        → chip' a ≡ (if leb addr a && ltb a (addr + n) then src (p + (a - addr)) else chip a)
    chip'_lem a =
        let (_, n_le, _) = chunk64_lem len pos in
        ap (λ k. spi.spi_write chip addr tmp' k a) whole
        ∙ spi_write_lem chip addr tmp' n a (λ j h. erased j (omega arith))
        ∙ same_source n a
      where
        same_source :
            (m a : ℕ)
            → (if leb addr a && ltb a (addr + m)
                then blit tmp 0 (λ i. src (p + i)) m (a - addr)
                else chip a)
              ≡ (if leb addr a && ltb a (addr + m) then src (p + (a - addr)) else chip a)
        same_source m a = ground arith

    still_erased : (j : ℕ) → j < len - n → chip' (addr + n + j) ≡ 0xff
    still_erased j h =
        let q : addr + n + j ≡ addr + (n + j) = omega arith in
        chip'_lem (addr + n + j) ∙ rest_erased n j (rw q (erased (n + j) (omega arith)))
      where
        rest_erased :
            (n j : ℕ)
            → chip (addr + n + j) ≡ 0xff
            → (if leb addr (addr + n + j) && ltb (addr + n + j) (addr + n)
                then src (p + (addr + n + j - addr))
                else chip (addr + n + j))
              ≡ 0xff
        rest_erased n j e = ground arith

    glue_write :
        (a : ℕ)
        → (if leb (addr + n) a && ltb a (addr + n + (len - n))
            then src (p + n + (a - (addr + n)))
            else chip' a)
          ≡ (if leb addr a && ltb a (addr + len) then src (p + (a - addr)) else chip a)
    glue_write a = let (_, n_le, _) = chunk64_lem len pos in both n (chip' a) n_le (chip'_lem a)
      where
        both :
            (n v : ℕ)
            → n ≤ len
            → v ≡ (if leb addr a && ltb a (addr + n) then src (p + (a - addr)) else chip a)
            → (if leb (addr + n) a && ltb a (addr + n + (len - n))
                then src (p + n + (a - (addr + n)))
                else v)
              ≡ (if leb addr a && ltb a (addr + len) then src (p + (a - addr)) else chip a)
        both n v le e = ground arith

  write_chunks_lem :
      (f : ℕ) (chip : Array ℕ) (addr : ℕ) (src : Array ℕ) (p : ℕ) (tmp : Array ℕ) (len a : ℕ)
      → len ≤ f
      → len % 4 ≡ 0
      → ((j : ℕ) → j < len → chip (addr + j) ≡ 0xff)
      → write_chunks spi f chip addr src p tmp len a
        ≡ (if leb addr a && ltb a (addr + len) then src (p + (a - addr)) else chip a)
  unfolding write_chunks
  write_chunks_lem zero chip addr src p tmp len a le al erased = ground arith
  write_chunks_lem (suc f) chip addr src p tmp len a le al erased = elim (Bool-cases (len == 0)) [
    | inl z ↦ rw z (ground arith)
    | inr nz ↦
        let pos : 0 < len = ground arith in
        let (n_pos, n_le, n_small) = chunk64_lem len pos in
        let n_al : (len - chunk64 len) % 4 ≡ 0 = ground arith in
        rw nz (
          write_chunks_lem f (chip' chip src tmp addr p len pos al erased) (addr + chunk64 len) src
            (p + chunk64 len) (tmp' chip src tmp addr p len pos al erased) (len - chunk64 len) a
            (omega arith) n_al (still_erased chip src tmp addr p len pos al erased)
          ∙ glue_write chip src tmp addr p len pos al erased a)
  ]

  -- A write of a multiple of 4 bytes to erased ones puts the first `len` bytes of the buffer at `addr`
  -- and changes no other byte, wherever the buffer lies.
  pub flash_write_lem :
      (tmp chip : Array ℕ) (addr : ℕ) (src : Array ℕ) (at len a : ℕ)
      → len % 4 ≡ 0
      → ((j : ℕ) → j < len → chip (addr + j) ≡ 0xff)
      → flash_write spi tmp chip addr src at len a
        ≡ (if leb addr a && ltb a (addr + len) then src (a - addr) else chip a)
  unfolding flash_write
  flash_write_lem tmp chip addr src at len a al erased = elim (Bool-cases (at % 4 == 0)) [
    | inl z ↦ rw z (spi_write_lem chip addr src len a erased)
    | inr nz ↦
        let q : 0 + (a - addr) ≡ a - addr = omega arith in
        rw nz (rw q at (write_chunks_lem len chip addr src 0 tmp len a (omega arith) al erased))
  ]
