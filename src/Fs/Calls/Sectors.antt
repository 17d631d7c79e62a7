-- ===== src/Fs/Calls/Sectors.antt =====
-- The table and the superblock, read and written back.
use osito_k.Base.{ℕ, ◌+◌, ◌*◌, ◌≤◌, ◌<◌, ◌≡◌, refl, ◌∙◌, Array, arith}
use osito_k.Fs.Flash.{Spi, IsSpi, fs_sector_size, fs_data_addr, fs_super_addr, fs_table_addr}
use osito_k.Fs.Transfer.{flash_read_lem}
use osito_k.Fs.Table.{fill_entry}
use osito_k.Fs.Calls.{
  Fs, data_sector, sectors_for, read_table, write_table, write_super, one_file_more, one_file_less,
  create_file,
}
use osito_k.Fs.Calls.Data.{
  Outside, sector_holds, sector_others, written, write_sectors_elsewhere, write_sectors_holds,
}

module _ (spi : Spi) (laws : IsSpi spi) (tmp : Array ℕ) where
  pub read_table_lem :
      (fs : Fs) (i : ℕ)
      → i < fs_sector_size
      → (read_table spi tmp fs).sec_buf i ≡ fs.flash (fs_table_addr + i)
  unfolding read_table
  read_table_lem fs i h =
      flash_read_lem spi laws fs.flash fs_table_addr fs.sec_buf 0 fs_sector_size i (omega arith)
      ∙ ground arith

  pub read_table-flash : (fs : Fs) → (read_table spi tmp fs).flash ≡ fs.flash
  unfolding read_table
  read_table-flash fs = refl

  pub read_table-mounted : (fs : Fs) → (read_table spi tmp fs).mounted ≡ fs.mounted
  unfolding read_table
  read_table-mounted fs = refl

  pub write_table_holds :
      (fs : Fs) (i : ℕ)
      → i < fs_sector_size
      → (write_table spi tmp fs).flash (fs_table_addr + i) ≡ fs.sec_buf i
  unfolding write_table
  write_table_holds fs i h =
      sector_holds spi laws tmp fs.flash fs_table_addr fs.sec_buf 0 fs_sector_size refl refl
        (omega arith) i h

  pub write_table_others :
      (fs : Fs) (a : ℕ)
      → Outside fs_table_addr (fs_table_addr + fs_sector_size) a
      → (write_table spi tmp fs).flash a ≡ fs.flash a
  unfolding write_table
  write_table_others fs a h =
      sector_others spi laws tmp fs.flash fs_table_addr fs.sec_buf 0 fs_sector_size refl refl
        (omega arith) a h

  pub one_file_more_others :
      (fs : Fs) (a : ℕ)
      → Outside fs_super_addr (fs_super_addr + fs_sector_size) a
      → (one_file_more spi tmp fs).flash a ≡ fs.flash a
  unfolding one_file_more write_super
  one_file_more_others fs a h =
      sector_others spi laws tmp fs.flash fs_super_addr _ 0 fs_sector_size refl refl (omega arith) a
        h

  pub one_file_more-mounted : (fs : Fs) → (one_file_more spi tmp fs).mounted ≡ fs.mounted
  unfolding one_file_more write_super
  one_file_more-mounted fs = refl

  pub write_table-mounted : (fs : Fs) → (write_table spi tmp fs).mounted ≡ fs.mounted
  unfolding write_table
  write_table-mounted fs = refl

  pub one_file_less_others :
      (fs : Fs) (a : ℕ)
      → Outside fs_super_addr (fs_super_addr + fs_sector_size) a
      → (one_file_less spi tmp fs).flash a ≡ fs.flash a
  unfolding one_file_less write_super
  one_file_less_others fs a h =
      sector_others spi laws tmp fs.flash fs_super_addr _ 0 fs_sector_size refl refl (omega arith) a
        h

  pub one_file_less-mounted : (fs : Fs) → (one_file_less spi tmp fs).mounted ≡ fs.mounted
  unfolding one_file_less write_super
  one_file_less-mounted fs = refl

  -- What the chip holds after a file is created.
  module _ (fs : Fs) (name src : Array ℕ) (at size slot start : ℕ) where
    abbrev after : Fs
    after = create_file spi tmp fs name src at size slot start

    abbrev with_data : Fs
    with_data = record fs {
      flash = written spi laws tmp (sectors_for size) fs.flash start 0 src at 0 size;
      sec_buf = fill_entry fs.sec_buf slot name size start (sectors_for size);
    }

    pub created_table :
        (i : ℕ)
        → i < fs_sector_size
        → after.flash (fs_table_addr + i)
          ≡ fill_entry fs.sec_buf slot name size start (sectors_for size) i
    unfolding create_file
    created_table i h =
        one_file_more_others (write_table spi tmp with_data) (fs_table_addr + i) (omega arith)
        ∙ write_table_holds with_data i h

    pub created_data :
        (i : ℕ)
        → size ≤ sectors_for size * fs_sector_size
        → i < size
        → after.flash (data_sector start + i) ≡ src i
    unfolding create_file
    created_data i fits h =
        let q : data_sector (start + 0) + i ≡ data_sector start + i = omega arith in
        let r : 0 + i ≡ i = omega arith in
        one_file_more_others (write_table spi tmp with_data) (data_sector start + i) (omega arith)
        ∙ write_table_others with_data (data_sector start + i) (omega arith)
        ∙ rw (q, r) at
            (write_sectors_holds spi laws tmp (sectors_for size) fs.flash start 0 src at 0 size i
              fits h)

    -- Nothing else changed.
    pub created_others :
        (a : ℕ)
        → Outside fs_super_addr fs_data_addr a
        → Outside (data_sector start) (data_sector (start + sectors_for size)) a
        → after.flash a ≡ fs.flash a
    unfolding create_file
    created_others a h k =
        one_file_more_others (write_table spi tmp with_data) a (omega arith)
        ∙ write_table_others with_data a (omega arith)
        ∙ write_sectors_elsewhere spi laws tmp (sectors_for size) fs.flash start 0 src at 0 size a
            (omega arith)

    pub created-mounted : after.mounted ≡ fs.mounted
    unfolding create_file
    created-mounted =
        one_file_more-mounted (write_table spi tmp with_data) ∙ write_table-mounted with_data
