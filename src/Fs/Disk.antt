-- ===== src/Fs/Disk.antt =====
-- The order of the file table: the files lie in the data area, and no two share a sector.
pub mod Calls
pub mod Reach
mod Tests
use osito_k.Base.{
  ℕ, ◌+◌, ◌-◌, ◌<◌, ◌≤◌, ◌≡◌, ◌≢◌, ◌⊎◌, inl, inr, refl, sym, ◌∙◌, true, false, Array, arith,
}
use native.Mathlib.Decide.{ℕ_discrete}
use osito_k.Fs.Flash.{fs_max_files, fs_data_sectors}
use osito_k.Fs.Table.{table_entry, start_sector, sector_count, entry_free}
use osito_k.Fs.Table.Same.{
  AgreeAt, AgreeAt-sym, Holds-same, entry_free_same, start_sector_same, sector_count_same,
}
use osito_k.Fs.Bitmap.{build_bitmap}
use osito_k.Fs.Bitmap.Runs.{Holds, AllFree, build_bitmap_lem}

pub record IsDisk (t : Array ℕ) : Type 0 where
  pub inside :
      (i : ℕ)
      → i < fs_max_files
      → entry_free t i ≡ false
      → start_sector t i + sector_count t i ≤ fs_data_sectors
  pub apart :
      (i j b : ℕ) → i < fs_max_files → j < fs_max_files → i ≢ j → Holds t i b → ¬ Holds t j b

-- The order is one of the entries' bytes.
pub IsDisk-same : (t t' : Array ℕ) → ((j : ℕ) → j < 4096 → t j ≡ t' j) → IsDisk t → IsDisk t'
IsDisk-same t t' same v =
    let agree : (i : ℕ) → i < fs_max_files → AgreeAt t' t i =
      λ i hi d h. sym (same (table_entry i + d) (omega arith)) in
    record {
      inside = λ i hi used.
          let a = agree i hi in
          let u : entry_free t i ≡ false = sym (entry_free_same t' t i a) ∙ used in
          rw (← start_sector_same t' t i a, ← sector_count_same t' t i a) at (v.inside i hi u);
      apart = λ i j b hi hj ne h h'.
          v.apart i j b hi hj ne (Holds-same t' t i (agree i hi) b h)
            (Holds-same t' t j (agree j hj) b h');
    }

-- A table that differs from one in order at entry `k` alone.
module _ (t t' : Array ℕ) (k : ℕ) (v : IsDisk t)
    (same : (i : ℕ) → i < fs_max_files → i ≢ k → AgreeAt t t' i) where
  changed-IsDisk :
      (entry_free t' k ≡ false → start_sector t' k + sector_count t' k ≤ fs_data_sectors)
      → ((i b : ℕ) → i < fs_max_files → i ≢ k → Holds t' k b → ¬ Holds t i b)
      → IsDisk t'
  changed-IsDisk inside apart = record {
    inside = λ i hi used. elim (ℕ_discrete i k) [
      | yes e ↦ let u : entry_free t' k ≡ false = rw (← e) used in rw e (inside u)
      | no ne ↦ kept_inside i hi ne used
    ];
    apart = λ i j b hi hj ne h h'. elim (ℕ_discrete i k) [
      | yes e ↦
          let nj : j ≢ k = λ q. ne (e ∙ sym q) in
          let x : Holds t' k b = rw (← e) h in
          apart j b hj nj x (Holds-same t' t j (AgreeAt-sym t t' j (same j hj nj)) b h')
      | no ni ↦ elim (ℕ_discrete j k) [
        | yes e ↦
            let x : Holds t' k b = rw (← e) h' in
            apart i b hi ni x (Holds-same t' t i (AgreeAt-sym t t' i (same i hi ni)) b h)
        | no nj ↦
            v.apart i j b hi hj ne (Holds-same t' t i (AgreeAt-sym t t' i (same i hi ni)) b h)
              (Holds-same t' t j (AgreeAt-sym t t' j (same j hj nj)) b h')
      ]
    ];
  }
    where
      kept_inside :
          (i : ℕ)
          → i < fs_max_files
          → i ≢ k
          → entry_free t' i ≡ false
          → start_sector t' i + sector_count t' i ≤ fs_data_sectors
      kept_inside i hi ne used =
          let a = same i hi ne in
          let u : entry_free t i ≡ false = entry_free_same t t' i a ∙ used in
          rw (start_sector_same t t' i a, sector_count_same t t' i a) at (v.inside i hi u)

  -- The entry is freed.
  pub freed-IsDisk : entry_free t' k ≡ true → IsDisk t'
  freed-IsDisk f = changed-IsDisk (λ u. cc (f, u)) (λ i b hi ne h x. cc (f, h.0))

  -- The file keeps its first sector and gets no more of them.
  pub shrunk-IsDisk :
      k < fs_max_files
      → entry_free t k ≡ false
      → start_sector t' k ≡ start_sector t k
      → sector_count t' k ≤ sector_count t k
      → IsDisk t'
  shrunk-IsDisk hk used start count =
      changed-IsDisk (λ u. let x = v.inside k hk used in omega (arith, start))
        (λ i b hi ne h x.
          let held : Holds t k b = (used, omega (arith, h.1, start), omega (arith, h.2, start)) in
          v.apart i k b hi hk ne x held)

  -- A file goes to free sectors.
  pub placed-IsDisk :
      (start count : ℕ)
      → start + count ≤ fs_data_sectors
      → AllFree (build_bitmap t) start count
      → start_sector t' k ≡ start
      → sector_count t' k ≡ count
      → IsDisk t'
  placed-IsDisk start count fits free s c =
      changed-IsDisk (λ u. rw (s, c) fits)
        (λ i b hi ne h x.
          let lo : start ≤ b = omega (arith, h.1, s) in
          let up : b < start + count = omega (arith, h.2, s, c) in
          (build_bitmap_lem t b (omega arith)).0 (free b lo up) i hi x)
