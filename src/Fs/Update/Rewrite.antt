-- ===== src/Fs/Update/Rewrite.antt =====
-- What `fs_overwrite` does when the new data fits in the sectors of the file.
use osito_k.Base.{ℕ, ◌+◌, ◌-◌, ◌*◌, ◌^◌, ◌<◌, ◌≤◌, ◌≡◌, ◌≢◌, sym, ◌∙◌, Array, First-unique, arith}
use osito_k.Fs.Flash.{Spi, IsSpi, fs_sector_size, fs_max_files, fs_table_addr, fs_data_addr}
use osito_k.Fs.Table.{
  table_entry, entry_size, start_sector, sector_count, find_file, put_u32, put_u16, u32_at, u16_at,
}
use osito_k.Fs.Table.Strings.{IsName}
use osito_k.Fs.Table.Same.{AgreeAt}
use osito_k.Fs.Table.Entries.{put_u32_at, put_u32_other, put_u16_at, put_u16_other, u32_at-put_u16}
use osito_k.Fs.Calls.{Fs, data_sector, sectors_for}
use osito_k.Fs.Calls.Data.{Outside, sectors_for_lem}
use osito_k.Fs.Calls.Sectors.{
  read_table_lem, write_table_holds, write_table_others, write_table-mounted,
}
use osito_k.Fs.Calls.Created.{is_file, is_file_named, find_file-First}
use osito_k.Fs.Calls.Delete.{table_of}
use osito_k.Fs.Update.{erase_sectors, rewrite_sectors, rewrite_file}
use osito_k.Fs.Update.Sectors.{erase_sectors_lem, rewrite_sectors_elsewhere, rewrite_sectors_holds}

-- The new data fits in the sectors of file `i`.
module _ (spi : Spi) (laws : IsSpi spi) (tmp : Array ℕ) (fs : Fs) (i : ℕ) (src : Array ℕ)
    (at size : ℕ) (hi : i < fs_max_files) (pos : 0 < size) (small : size < 2 ^ 28 - fs_sector_size)
    (fits : sectors_for size ≤ sector_count fs.sec_buf i) where
  abbrev t : Array ℕ
  t = fs.sec_buf

  abbrev start : ℕ
  start = start_sector t i

  abbrev sized : Array ℕ
  sized = put_u32 t (table_entry i + 24) size

  abbrev t1 : Array ℕ
  t1 = put_u16 sized (table_entry i + 30) (sectors_for size)

  abbrev erased : Array ℕ
  erased = erase_sectors spi tmp (sector_count t i) fs.flash start 0

  abbrev data_written : Array ℕ
  data_written = rewrite_sectors spi tmp (sectors_for size) erased start 0 src at 0 size

  abbrev pub fs' : Fs
  fs' = rewrite_file spi tmp fs i src at size

  abbrev pub t' : Array ℕ
  t' = table_of spi tmp fs'

  is_blank :
      (j : ℕ) → j < sectors_for size * fs_sector_size → erased (data_sector (start + 0) + j) ≡ 0xff
  is_blank j h =
      erase_sectors_lem spi laws tmp (sector_count t i) fs.flash start 0
        (data_sector (start + 0) + j)
      ∙ ground arith

  data_elsewhere :
      (a : ℕ)
      → Outside (data_sector start) (data_sector (start + sector_count t i)) a
      → data_written a ≡ fs.flash a
  data_elsewhere a h =
      rewrite_sectors_elsewhere spi laws tmp (sectors_for size) erased start 0 src at 0 size a
        is_blank (omega arith)
      ∙ erase_sectors_lem spi laws tmp (sector_count t i) fs.flash start 0 a
      ∙ ground arith

  pub rewritten_table : (j : ℕ) → j < fs_sector_size → t' j ≡ t1 j
  unfolding rewrite_file
  rewritten_table j h =
      read_table_lem spi laws tmp fs' j h
      ∙ write_table_holds spi laws tmp (record fs { flash = data_written; sec_buf = t1 }) j h

  rewritten_other : (a : ℕ) → Outside (table_entry i + 24) (table_entry i + 32) a → t1 a ≡ t a
  rewritten_other a h =
      put_u16_other sized (table_entry i + 30) (sectors_for size) a (omega arith)
      ∙ put_u32_other t (table_entry i + 24) size a (omega arith)

  pub rewritten-AgreeAt : (j : ℕ) → j < fs_max_files → j ≢ i → AgreeAt t t' j
  rewritten-AgreeAt j hj ne d h = sym (
      rewritten_table (table_entry j + d) (omega arith)
      ∙ rewritten_other (table_entry j + d) (omega arith))

  rewritten_names :
      (j d : ℕ) → j < fs_max_files → d < 24 → t (table_entry j + d) ≡ t' (table_entry j + d)
  rewritten_names j d hj h = sym (
      rewritten_table (table_entry j + d) (omega arith)
      ∙ rewritten_other (table_entry j + d) (omega arith))

  pub rewritten_found :
      (name : Array ℕ) (n : ℕ) → IsName name n → find_file t' name ≡ find_file t name
  rewritten_found name n v =
      First-unique (is_file t' name) (is_file t name) 0 fs_max_files (find_file t' name)
        (find_file t name)
        (λ j lo lt. sym (is_file_named t t' name n j v (λ d h. rewritten_names j d lt h)))
        (find_file-First t' name) (find_file-First t name)

  rewritten_at : (a b : ℕ) → a + b < 32 → t' (table_entry i + a + b) ≡ t1 (table_entry i + a + b)
  rewritten_at a b h = rewritten_table (table_entry i + a + b) (omega arith)

  pub rewritten_fields :
      (entry_size t' i ≡ size)
      × (start_sector t' i ≡ start)
      × (sector_count t' i ≡ sectors_for size)
  unfolding entry_size start_sector sector_count
  rewritten_fields =
      let (_, _, _, word) = sectors_for_lem size pos small in
      let e = table_entry i in
      let z = rewritten_table (e + 24) (omega arith) in
      let a = rewritten_at 24 1 (omega arith) in
      let b = rewritten_at 24 2 (omega arith) in
      let c = rewritten_at 24 3 (omega arith) in
      let s = rewritten_table (e + 28) (omega arith) ∙ start_kept in
      let s' = rewritten_at 28 1 (omega arith) ∙ start_kept' in
      let q = rewritten_table (e + 30) (omega arith) in
      let q' = rewritten_at 30 1 (omega arith) in
      let one : u32_at t1 (e + 24) ≡ size =
        u32_at-put_u16 sized (e + 24) (e + 30) (sectors_for size) (omega arith)
        ∙ put_u32_at t (e + 24) size (omega arith) in
      let two : u16_at t1 (e + 30) ≡ sectors_for size =
        put_u16_at sized (e + 30) (sectors_for size) word in
      (omega (arith, z, a, b, c, one), omega (arith, s, s'), omega (arith, q, q', two))
    where
      start_kept : t1 (table_entry i + 28) ≡ t (table_entry i + 28)
      start_kept = ground arith

      start_kept' : t1 (table_entry i + 28 + 1) ≡ t (table_entry i + 28 + 1)
      start_kept' = ground arith

  pub rewritten_data : (j : ℕ) → j < size → fs'.flash (data_sector start + j) ≡ src j
  unfolding rewrite_file
  rewritten_data j h =
      let (_, fit, _, _) = sectors_for_lem size pos small in
      let q : data_sector (start + 0) + j ≡ data_sector start + j = omega arith in
      let r : 0 + j ≡ j = omega arith in
      write_table_others spi laws tmp (record fs { flash = data_written; sec_buf = t1 })
        (data_sector start + j) (omega arith)
      ∙ rw (q, r) at
          (rewrite_sectors_holds spi laws tmp (sectors_for size) erased start 0 src at 0 size j
            is_blank fit h)

  -- Nothing else changed.
  pub rewritten_others :
      (a : ℕ)
      → Outside fs_table_addr fs_data_addr a
      → Outside (data_sector start) (data_sector (start + sector_count t i)) a
      → fs'.flash a ≡ fs.flash a
  unfolding rewrite_file
  rewritten_others a h k =
      write_table_others spi laws tmp (record fs { flash = data_written; sec_buf = t1 }) a
        (omega arith)
      ∙ data_elsewhere a k

  pub rewritten-mounted : fs'.mounted ≡ fs.mounted
  unfolding rewrite_file
  rewritten-mounted =
      write_table-mounted spi laws tmp (record fs { flash = data_written; sec_buf = t1 })
