-- ===== src/Fs/Update/Append.antt =====
-- `fs_append`.
use osito_k.Base.{
  ℕ, ◌+◌, ◌-◌, ◌*◌, ◌/◌, ◌%◌, ◌<◌, ◌≤◌, ◌≡◌, ◌≢◌, inl, inr, refl, sym, ap, ◌∙◌, true, false, not,
  ltb, Array, if◌then◌else◌, Bool, Bool-cases, First-unique, arith, ◌==◌,
}
use native.Mathlib.Decide.{dec_lt}
use osito_k.Fs.Flash.{Spi, IsSpi, u32, fs_sector_size, fs_max_files, fs_table_addr, fs_data_addr}
use osito_k.Fs.Table.{
  table_entry, entry_size, start_sector, sector_count, find_file, put_u32, u32_at,
}
use osito_k.Fs.Table.Strings.{IsName}
use osito_k.Fs.Table.Same.{AgreeAt}
use osito_k.Fs.Table.Entries.{put_u32_at, put_u32_other}
use osito_k.Fs.Calls.{Fs, data_sector, read_table}
use osito_k.Fs.Calls.Data.{Outside}
use osito_k.Fs.Calls.Sectors.{
  read_table_lem, read_table-flash, read_table-mounted, write_table_holds, write_table_others,
  write_table-mounted,
}
use osito_k.Fs.Calls.Created.{is_file, is_file_named, find_file-First}
use osito_k.Fs.Calls.Delete.{table_of}
use osito_k.Fs.Update.{append_partial, append_file}
use osito_k.Fs.Update.Tail.{tail, tail_lem, partial_new, partial_others}

-- The data behind that of file `i` of the table that `fs` has loaded.
module _ (spi : Spi) (laws : IsSpi spi) (tmp : Array ℕ) (fs : Fs) (i : ℕ) (src : Array ℕ)
    (at size : ℕ) (hi : i < fs_max_files) (small : entry_size fs.sec_buf i + size < u32)
    (same : (j : ℕ) → j < fs_sector_size → fs.sec_buf j ≡ fs.flash (fs_table_addr + j)) where
  abbrev old : ℕ
  old = entry_size fs.sec_buf i

  abbrev start : ℕ
  start = start_sector fs.sec_buf i

  abbrev o : ℕ
  o = old % fs_sector_size

  abbrev chunk : ℕ
  chunk = if ltb size (fs_sector_size - o) then size else fs_sector_size - o

  abbrev partly : Bool
  partly = not (o == 0)

  abbrev first : ℕ
  first = if partly then chunk else 0

  abbrev fs1 : Fs
  fs1 = if partly then append_partial spi tmp fs start old src chunk else fs

  abbrev chip : Array ℕ
  chip = tail spi laws tmp fs1 start old src at size first

  -- The sectors that are written end here.
  abbrev end : ℕ
  end = (old + size + fs_sector_size - 1) / fs_sector_size * fs_sector_size

  chip_lem :
      ((j : ℕ) → j < size → chip (data_sector start + old + j) ≡ src j)
      × ((a : ℕ)
          → Outside (data_sector start + old) (data_sector start + end) a
          → chip a ≡ fs.flash a)
  chip_lem = elim (Bool-cases partly) [
    | inr n ↦
        let z : o ≡ 0 = ground arith in
        rw n (
          tail_lem spi laws tmp fs fs start old src at size 0 end (omega arith) (λ lt. omega arith)
            (omega arith) (omega arith) (λ j h. absurd (omega arith)) (λ a h. refl))
    | inl y ↦
        let fits : o + chunk ≤ fs_sector_size = ground arith in
        let le : chunk ≤ size = ground arith in
        rw y (
          tail_lem spi laws tmp fs (append_partial spi tmp fs start old src chunk) start old src at
            size chunk end le
            (λ lt. let full : chunk ≡ fs_sector_size - o = ground arith in omega arith)
            (omega arith) (omega arith) (partial_new spi laws tmp fs start old src chunk fits)
            (partial_others spi laws tmp fs start old src chunk fits))
  ]

  abbrev loaded : Fs
  loaded = read_table spi tmp (record fs1 { flash = chip })

  abbrev sized : Array ℕ
  sized = put_u32 loaded.sec_buf (table_entry i + 24) ((old + size) % u32)

  abbrev fs' : Fs
  fs' = append_file spi tmp fs i src at size

  abbrev t' : Array ℕ
  t' = table_of spi tmp fs'

  appended_table : (j : ℕ) → j < fs_sector_size → t' j ≡ sized j
  unfolding append_file
  appended_table j h =
      read_table_lem spi laws tmp fs' j h
      ∙ write_table_holds spi laws tmp (record loaded { sec_buf = sized }) j h

  loaded-flash : (a : ℕ) → loaded.flash a ≡ chip a
  loaded-flash a = ap (λ c. c a) (read_table-flash spi laws tmp (record fs1 { flash = chip }))

  loaded_lem : (j : ℕ) → j < fs_sector_size → loaded.sec_buf j ≡ fs.flash (fs_table_addr + j)
  loaded_lem j h =
      read_table_lem spi laws tmp (record fs1 { flash = chip }) j h
      ∙ chip_lem.1 (fs_table_addr + j) (inl (omega arith))

  appended_other :
      (a : ℕ)
      → a < fs_sector_size
      → Outside (table_entry i + 24) (table_entry i + 28) a
      → t' a ≡ fs.sec_buf a
  appended_other a lt h =
      appended_table a lt
      ∙ put_u32_other loaded.sec_buf (table_entry i + 24) ((old + size) % u32) a (omega arith)
      ∙ loaded_lem a lt
      ∙ sym (same a lt)

  pub appended-AgreeAt : (j : ℕ) → j < fs_max_files → j ≢ i → AgreeAt fs.sec_buf t' j
  appended-AgreeAt j hj ne d h =
      sym (appended_other (table_entry j + d) (omega arith) (omega arith))

  pub appended_found :
      (name : Array ℕ) (n : ℕ) → IsName name n → find_file t' name ≡ find_file fs.sec_buf name
  appended_found name n v =
      First-unique (is_file t' name) (is_file fs.sec_buf name) 0 fs_max_files (find_file t' name)
        (find_file fs.sec_buf name)
        (λ j lo lt.
          is_file_named t' fs.sec_buf name n j v
            (λ d h. appended_other (table_entry j + d) (omega arith) (omega arith)))
        (find_file-First t' name) (find_file-First fs.sec_buf name)

  appended_size : entry_size t' i ≡ old + size
  unfolding entry_size
  appended_size =
      let e = table_entry i in
      let z = appended_table (e + 24) (omega arith) in
      let a = appended_table (e + 24 + 1) (omega arith) in
      let b = appended_table (e + 24 + 2) (omega arith) in
      let c = appended_table (e + 24 + 3) (omega arith) in
      let w = put_u32_at loaded.sec_buf (e + 24) ((old + size) % u32) (omega arith) in
      let u : u32_at t' (e + 24) ≡ (old + size) % u32 = omega (arith, z, a, b, c, w) in
      u ∙ omega arith

  pub appended_fields :
      (entry_size t' i ≡ old + size)
      × (start_sector t' i ≡ start)
      × (sector_count t' i ≡ sector_count fs.sec_buf i)
  unfolding start_sector sector_count
  appended_fields = (
    appended_size,
    omega (arith, base 28 (omega arith) (omega arith), other 28 1 (omega arith) (omega arith)),
    omega (arith, base 30 (omega arith) (omega arith), other 30 1 (omega arith) (omega arith)),
  )
    where
      base : (a : ℕ) → 28 ≤ a → a < 32 → t' (table_entry i + a) ≡ fs.sec_buf (table_entry i + a)
      base a lo h = appended_other (table_entry i + a) (omega arith) (omega arith)

      other :
          (a b : ℕ)
          → 28 ≤ a
          → a + b < 32
          → t' (table_entry i + a + b) ≡ fs.sec_buf (table_entry i + a + b)
      other a b lo h = appended_other (table_entry i + a + b) (omega arith) (omega arith)

  pub appended_data :
      (j : ℕ)
      → j < old + size
      → fs'.flash (data_sector start + j)
        ≡ (if ltb j old then fs.flash (data_sector start + j) else src (j - old))
  unfolding append_file
  appended_data j h =
      write_table_others spi laws tmp (record loaded { sec_buf = sized }) (data_sector start + j)
        (omega arith)
      ∙ elim (dec_lt j old) [
        | yes lt ↦
            let l : ltb j old ≡ true = ground arith in
            rw l (
              loaded-flash (data_sector start + j)
              ∙ chip_lem.1 (data_sector start + j) (inl (omega arith)))
        | no nlt ↦
            let l : ltb j old ≡ false = ground arith in
            let q : data_sector start + old + (j - old) ≡ data_sector start + j = omega arith in
            rw l
              (loaded-flash (data_sector start + j) ∙ rw q at (chip_lem.0 (j - old) (omega arith)))
      ]

  -- Nothing else changed.
  pub appended_others :
      (a : ℕ)
      → Outside fs_table_addr fs_data_addr a
      → Outside (data_sector start) (data_sector start + end) a
      → fs'.flash a ≡ fs.flash a
  unfolding append_file
  appended_others a h k =
      write_table_others spi laws tmp (record loaded { sec_buf = sized }) a (omega arith)
      ∙ loaded-flash a
      ∙ chip_lem.1 a (omega arith)

  fs1-mounted : fs1.mounted ≡ fs.mounted
  unfolding append_partial
  fs1-mounted = elim (Bool-cases partly) [ inl y ↦ rw y refl | inr n ↦ rw n refl ]

  pub appended-mounted : fs'.mounted ≡ fs.mounted
  unfolding append_file
  appended-mounted =
      write_table-mounted spi laws tmp (record loaded { sec_buf = sized })
      ∙ read_table-mounted spi laws tmp (record fs1 { flash = chip })
      ∙ fs1-mounted
