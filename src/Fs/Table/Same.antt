-- ===== src/Fs/Table/Same.antt =====
-- An entry depends on its 32 bytes alone.
use osito_k.Base.{ℕ, ◌+◌, ◌<◌, ◌≡◌, refl, sym, Array, arith}
use osito_k.Fs.Table.{table_entry, entry_size, start_sector, sector_count, entry_free}
use osito_k.Fs.Bitmap.Runs.{Holds}

-- Two tables agree on entry `i`.
abbrev pub AgreeAt : Array ℕ → Array ℕ → ℕ → Type 0
AgreeAt t t' i = (d : ℕ) → d < 32 → t (table_entry i + d) ≡ t' (table_entry i + d)

module _ (t t' : Array ℕ) (i : ℕ) (same : AgreeAt t t' i) where
  pub AgreeAt-sym : AgreeAt t' t i
  AgreeAt-sym d h = sym (same d h)

  pub entry_free_same : entry_free t i ≡ entry_free t' i
  unfolding entry_free
  entry_free_same =
      let q : table_entry i + 0 ≡ table_entry i = omega arith in
      let e = rw q at (same 0 (omega arith)) in rw e refl

  pub entry_size_same : entry_size t i ≡ entry_size t' i
  unfolding entry_size
  entry_size_same =
      let e = table_entry i in
      let a : t (e + 24 + 1) ≡ t' (e + 24 + 1) =
        (let q : e + 25 ≡ e + 24 + 1 = omega arith in rw q at (same 25 (omega arith))) in
      let b : t (e + 24 + 2) ≡ t' (e + 24 + 2) =
        (let q : e + 26 ≡ e + 24 + 2 = omega arith in rw q at (same 26 (omega arith))) in
      let c : t (e + 24 + 3) ≡ t' (e + 24 + 3) =
        (let q : e + 27 ≡ e + 24 + 3 = omega arith in rw q at (same 27 (omega arith))) in
      rw (same 24 (omega arith), a, b, c) refl

  pub start_sector_same : start_sector t i ≡ start_sector t' i
  unfolding start_sector
  start_sector_same =
      let e = table_entry i in
      let a : t (e + 28 + 1) ≡ t' (e + 28 + 1) =
        (let q : e + 29 ≡ e + 28 + 1 = omega arith in rw q at (same 29 (omega arith))) in
      rw (same 28 (omega arith), a) refl

  pub sector_count_same : sector_count t i ≡ sector_count t' i
  unfolding sector_count
  sector_count_same =
      let e = table_entry i in
      let a : t (e + 30 + 1) ≡ t' (e + 30 + 1) =
        (let q : e + 31 ≡ e + 30 + 1 = omega arith in rw q at (same 31 (omega arith))) in
      rw (same 30 (omega arith), a) refl

  pub Holds-same : (b : ℕ) → Holds t i b → Holds t' i b
  Holds-same b h = rw (entry_free_same, start_sector_same, sector_count_same) at h
