-- ===== src/Fs/Table/Entries.antt =====
-- What `fill_entry` and `clear_entry` leave in the table.
use osito_k.Base.{
  ℕ, ◌+◌, ◌-◌, ◌^◌, ◌≤◌, ◌<◌, ◌≡◌, ◌⊎◌, inl, ◌∙◌, true, false, ◌&&◌, Array, ltb, leb, if◌then◌else◌,
  arith,
}
use native.Mathlib.Decide.{ℕ_discrete}
use osito_k.Fs.Flash.{fs_name_len, u32}
use osito_k.Fs.Table.{
  table_entry, entry_name, entry_size, start_sector, sector_count, entry_free, same_name,
  clear_entry, fill_entry, fs_strncpy, put_u16, put_u32, u16_at, u32_at,
}
use osito_k.Fs.Table.Strings.{IsName, fs_strncpy_lem, same_name_lem}

pub put_u32_at : (t : Array ℕ) (a v : ℕ) → v < u32 → u32_at (put_u32 t a v) a ≡ v
put_u32_at t a v h = ground arith

pub put_u32_other : (t : Array ℕ) (a v b : ℕ) → (b < a) ⊎ (a + 4 ≤ b) → put_u32 t a v b ≡ t b
put_u32_other t a v b h = ground arith

pub put_u16_at : (t : Array ℕ) (a v : ℕ) → v < 2 ^ 16 → u16_at (put_u16 t a v) a ≡ v
put_u16_at t a v h = ground arith

pub put_u16_other : (t : Array ℕ) (a v b : ℕ) → (b < a) ⊎ (a + 2 ≤ b) → put_u16 t a v b ≡ t b
put_u16_other t a v b h = ground arith

pub u32_at-put_u16 : (t : Array ℕ) (a b v : ℕ) → a + 4 ≤ b → u32_at (put_u16 t b v) a ≡ u32_at t a
u32_at-put_u16 t a b v h = ground arith

pub u16_at-put_u16 : (t : Array ℕ) (a b v : ℕ) → a + 2 ≤ b → u16_at (put_u16 t b v) a ≡ u16_at t a
u16_at-put_u16 t a b v h = ground arith

module _ (t : Array ℕ) (slot : ℕ) (name : Array ℕ) (n size start count : ℕ)
    (v : IsName name n) where
  abbrev filled : Array ℕ
  filled = fill_entry t slot name size start count

  abbrev named : Array ℕ
  named = fs_strncpy (clear_entry t slot) (table_entry slot) name fs_name_len

  abbrev sized : Array ℕ
  sized = put_u32 named (table_entry slot + 24) size

  abbrev placed : Array ℕ
  placed = put_u16 sized (table_entry slot + 28) start

  -- The bytes behind the name are written by the three fields.
  pub filled_name :
      (j : ℕ) → j < 24 → filled (table_entry slot + j) ≡ (if ltb j n then name j else 0)
  unfolding fill_entry
  filled_name j h =
      let e = table_entry slot in
      put_u16_other placed (e + 30) count (e + j) (inl (omega arith))
      ∙ put_u16_other sized (e + 28) start (e + j) (inl (omega arith))
      ∙ put_u32_other named (e + 24) size (e + j) (inl (omega arith))
      ∙ fs_strncpy_lem (clear_entry t slot) e name n (e + j) v
      ∙ shift e
    where
      shift :
          (e : ℕ)
          → (if leb e (e + j) && ltb (e + j) (e + fs_name_len)
              then (if ltb (e + j) (e + n) then name (e + j - e) else 0)
              else clear_entry t slot (e + j))
            ≡ (if ltb j n then name j else 0)
      shift e = let q : e + j - e ≡ j = omega arith in rw q (ground arith)

  pub filled_other : (a : ℕ) → (a < table_entry slot) ⊎ (table_entry slot + 32 ≤ a) → filled a ≡ t a
  unfolding fill_entry clear_entry
  filled_other a h =
      let e = table_entry slot in
      put_u16_other placed (e + 30) count a (omega arith)
      ∙ put_u16_other sized (e + 28) start a (omega arith)
      ∙ put_u32_other named (e + 24) size a (omega arith)
      ∙ fs_strncpy_lem (clear_entry t slot) e name n a v
      ∙ ground arith

  pub filled_size : size < u32 → entry_size filled slot ≡ size
  unfolding fill_entry entry_size
  filled_size h =
      let e = table_entry slot in
      u32_at-put_u16 placed (e + 24) (e + 30) count (omega arith)
      ∙ u32_at-put_u16 sized (e + 24) (e + 28) start (omega arith)
      ∙ put_u32_at named (e + 24) size h

  pub filled_start : start < 2 ^ 16 → start_sector filled slot ≡ start
  unfolding fill_entry start_sector
  filled_start h =
      let e = table_entry slot in
      u16_at-put_u16 placed (e + 28) (e + 30) count (omega arith)
      ∙ put_u16_at sized (e + 28) start h

  pub filled_count : count < 2 ^ 16 → sector_count filled slot ≡ count
  unfolding fill_entry sector_count
  filled_count h = put_u16_at placed (table_entry slot + 30) count h

  pub filled-entry_free : entry_free filled slot ≡ false
  unfolding entry_free
  filled-entry_free =
      let q : table_entry slot + 0 ≡ table_entry slot = omega arith in
      let e = rw q at (filled_name 0 (omega arith)) in
      let p = v.not_empty in let a = v.chars 0 p in let b = v.not_erased in ground arith

  pub filled-same_name : same_name (entry_name filled slot) name ≡ true
  filled-same_name =
      same_name_lem (entry_name filled slot) name n v
        (λ j le. let f = v.fits in filled_name j (omega arith) ∙ at_end j le)
    where
      at_end : (j : ℕ) → j ≤ n → (if ltb j n then name j else 0) ≡ name j
      at_end j le = elim (ℕ_discrete j n) [
        | yes e ↦ rw e (let x = v.ends in ground arith)
        | no ne ↦ ground arith
      ]
