-- ===== src/Fs/Disk/Reach.antt =====
-- Any sequence of calls after `fs_format`.
use osito_k.Base.{ℕ, ◌+◌, ◌-◌, ◌^◌, ◌<◌, ◌≡◌, refl, ◌∙◌, true, Array, arith}
use osito_k.Fs.Flash.{
  Spi, IsSpi, u32, fs_sector_size, fs_max_files, fs_table_addr, fs_super_addr, flash_erase_sector,
  flash_write,
}
use osito_k.Fs.Table.{entry_size, table_entry, entry_free}
use osito_k.Fs.Table.Strings.{IsName}
use osito_k.Fs.Calls.{Fs, write_super, fs_create, fs_delete, fs_rename, fs_format}
use osito_k.Fs.Calls.Data.{sector_holds, sector_others}
use osito_k.Fs.Calls.Sectors.{read_table_lem}
use osito_k.Fs.Calls.Delete.{table_of}
use osito_k.Fs.Update.{fs_overwrite, fs_append}
use osito_k.Fs.Disk.{IsDisk}
use osito_k.Fs.Disk.Calls.{
  IsOrdered, fs_create-IsOrdered, fs_delete-IsOrdered, fs_rename-IsOrdered, fs_overwrite-IsOrdered,
  fs_append-IsOrdered,
}

-- A call, whether it succeeds or not. The names that are stored have 1 to 23 characters and do not begin
-- with the byte 0xff, new files have from 1 to less than 2 ^ 28 - 4096 bytes, and no append takes the
-- size of a file past 32 bits.
pub data Step (spi : Spi) (tmp : Array ℕ) : Fs → Fs → Type 0 where
  create :
      (fs : Fs) (name src : Array ℕ) (at size n : ℕ)
      → IsName name n
      → 0 < size
      → size < 2 ^ 28 - fs_sector_size
      → Step spi tmp fs (fs_create spi tmp fs name src at size).0
  delete : (fs : Fs) (name : Array ℕ) → Step spi tmp fs (fs_delete spi tmp fs name).0
  rename :
      (fs : Fs) (old_name new_name : Array ℕ) (n : ℕ)
      → IsName new_name n
      → Step spi tmp fs (fs_rename spi tmp fs old_name new_name).0
  overwrite :
      (fs : Fs) (name src : Array ℕ) (at size n : ℕ)
      → IsName name n
      → 0 < size
      → size < 2 ^ 28 - fs_sector_size
      → Step spi tmp fs (fs_overwrite spi tmp fs name src at size).0
  append :
      (fs : Fs) (name src : Array ℕ) (at size : ℕ)
      → ((i : ℕ) → i < fs_max_files → entry_size (table_of spi tmp fs) i + size < u32)
      → Step spi tmp fs (fs_append spi tmp fs name src at size).0

pub data Reach (spi : Spi) (tmp : Array ℕ) (fs : Fs) : Fs → Type 0 where
  here : Reach spi tmp fs fs
  next : {a b : Fs} → Reach spi tmp fs a → Step spi tmp a b → Reach spi tmp fs b

module _ (spi : Spi) (laws : IsSpi spi) (tmp : Array ℕ) where
  formatted_table :
      (fs : Fs) (j : ℕ) → j < fs_sector_size → table_of spi tmp (fs_format spi tmp fs) j ≡ 0
  unfolding fs_format write_super
  formatted_table fs j h =
      let chip = flash_erase_sector spi fs.flash fs_super_addr in
      let written =
        flash_write spi tmp (flash_erase_sector spi chip fs_table_addr) fs_table_addr (λ _. 0) 0
          fs_sector_size in
      read_table_lem spi laws tmp (fs_format spi tmp fs) j h
      ∙ sector_others spi laws tmp written fs_super_addr _ 0 fs_sector_size refl refl (omega arith)
          (fs_table_addr + j) (omega arith)
      ∙ sector_holds spi laws tmp chip fs_table_addr (λ _. 0) 0 fs_sector_size refl refl
          (omega arith) j h

  fs_format-IsOrdered : (fs : Fs) → IsOrdered spi laws tmp (fs_format spi tmp fs)
  fs_format-IsOrdered fs =
      let all_free : (i : ℕ)
          → i < fs_max_files
          → entry_free (table_of spi tmp (fs_format spi tmp fs)) i ≡ true =
        λ i h.
          unfold entry_free in
          (let z = formatted_table fs (table_entry i) (omega arith) in rw z refl) in
      record {
        inside = λ i h used. cc (all_free i h, used);
        apart = λ i j b hi hj ne h h'. cc (all_free i hi, h.0);
      }

  Step-IsOrdered :
      {fs fs' : Fs} → Step spi tmp fs fs' → IsOrdered spi laws tmp fs → IsOrdered spi laws tmp fs'
  Step-IsOrdered (create fs name src at size n v pos small) ok =
      fs_create-IsOrdered spi laws tmp fs name src at size n v pos small ok
  Step-IsOrdered (delete fs name) ok = fs_delete-IsOrdered spi laws tmp fs name ok
  Step-IsOrdered (rename fs old_name new_name n v) ok =
      fs_rename-IsOrdered spi laws tmp fs old_name new_name n v ok
  Step-IsOrdered (overwrite fs name src at size n v pos small) ok =
      fs_overwrite-IsOrdered spi laws tmp fs name src at size n v pos small ok
  Step-IsOrdered (append fs name src at size small) ok =
      fs_append-IsOrdered spi laws tmp fs name src at size small ok

  Reach-IsOrdered :
      {fs fs' : Fs} → Reach spi tmp fs fs' → IsOrdered spi laws tmp fs → IsOrdered spi laws tmp fs'
  Reach-IsOrdered here ok = ok
  Reach-IsOrdered (next r s) ok = Step-IsOrdered s (Reach-IsOrdered r ok)

-- On a flash that keeps the data sheet: after `fs_format` and any sequence of calls of `fs_create`,
-- `fs_delete`, `fs_rename`, `fs_overwrite` and `fs_append`, whether they succeed or not, with the
-- bounds on names and sizes in `Step`, every file of the table lies within the data area, and no two
-- files hold the same sector.
pub Reach-IsDisk :
    (spi : Spi) (laws : IsSpi spi) (tmp : Array ℕ) (fs : Fs) {fs' : Fs}
    → Reach spi tmp (fs_format spi tmp fs) fs'
    → IsDisk (table_of spi tmp fs')
Reach-IsDisk spi laws tmp fs r =
    Reach-IsOrdered spi laws tmp r (fs_format-IsOrdered spi laws tmp fs)
