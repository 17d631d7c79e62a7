-- ===== src/Fs/Upload.antt =====
-- `fs_crc16` and `fs_upload` of src/fs/ositofs.cpp. What the UART and the tick count say is an
-- argument: a list of polls, each with the character that `uart_getc` returned, if any, and the tick
-- count that was read behind it, and the tick count at the start of each sector. No other task uses
-- the file system while the upload waits; what is printed is left out.
pub mod Receive
pub mod Sectors
pub mod Stored
pub mod Uploads
mod Tests
use osito_k.Base.{
  ℕ, zero, suc, ◌+◌, ◌-◌, ◌*◌, ◌/◌, ◌%◌, ◌^◌, Bool, true, false, not, ◌&&◌, ◌||◌, Option, none,
  some, List, [], ◌∷◌, Array, update, ltb, leb, ◌==◌, if◌then◌else◌,
}
use Prim.Native.Nat.{bit_xor}
use osito_k.Fs.Flash.{Spi, u32, fs_sector_size, flash_erase_sector, flash_write}
use osito_k.Fs.Table.{fill_entry, find_file, find_free_slot}
use osito_k.Fs.Bitmap.{build_bitmap, alloc_sectors}
use osito_k.Fs.Calls.{
  Fs, data_sector, sectors_for, chunk_of, read_table, write_table, one_file_more, remove_file,
  fs_delete,
}

-- A round of the inner loop.
abbrev pub crc_bit : ℕ → ℕ
crc_bit crc = if leb 0x8000 crc then bit_xor (crc * 2) 0x1021 % 2 ^ 16 else crc * 2 % 2 ^ 16

unfoldable pub crc_bits : ℕ → ℕ → ℕ
crc_bits zero crc = crc
crc_bits (suc n) crc = crc_bits n (crc_bit crc)

unfoldable pub crc_byte : ℕ → ℕ → ℕ
crc_byte crc byte = crc_bits 8 (bit_xor crc (byte * 256 % 2 ^ 16))

-- The bytes `i` to `i + n - 1` of `bytes`.
unfoldable pub crc_loop : ℕ → Array ℕ → ℕ → ℕ → ℕ
crc_loop zero bytes i crc = crc
crc_loop (suc n) bytes i crc = crc_loop n bytes (i + 1) (crc_byte crc (bytes i))

unfoldable pub fs_crc16 : Array ℕ → ℕ → ℕ
fs_crc16 bytes len = crc_loop len bytes 0 0xffff

abbrev pub Poll : Type 0
Poll = Option ℕ × ℕ

-- `10 * TICK_HZ`
abbrev pub upload_timeout : ℕ
upload_timeout = 1000

abbrev pub is_late : ℕ → ℕ → Bool
is_late tick start = ltb upload_timeout ((tick + (u32 - start)) % u32)

-- The buffer and the polls that are left; or the list of polls has ended; or the sender was silent.
pub data Received : Type 0 where
  all_here : Array ℕ → List Poll → Received
  more_to_come : Received
  too_late : Array ℕ → Received

-- `while (got < chunk)`
unfoldable pub receive_chunk : List Poll → ℕ → ℕ → ℕ → Array ℕ → Received
receive_chunk [] chunk got start buf = if ltb got chunk then more_to_come else all_here buf []
receive_chunk ((some c, tick) ∷ ps) chunk got start buf =
    let next = receive_chunk ps chunk (got + 1) tick (update buf got (c % 256)) in
    if ltb got chunk then next else all_here buf ((some c, tick) ∷ ps)
receive_chunk ((none, tick) ∷ ps) chunk got start buf =
    let next = receive_chunk ps chunk got start buf in
    if ltb got chunk
    then (if is_late tick start then too_late buf else next)
    else all_here buf ((none, tick) ∷ ps)

-- How a call ends: with -1, or with the checksum; or the polls do not reach to its end.
pub data Outcome : Type 0 where
  failed : Fs → Outcome
  finished : Fs → ℕ → Outcome
  unfinished : Outcome

-- `for (uint32_t i = got; i < FS_SECTOR_SIZE; i++) sec_buf[i] = 0xFF;`
abbrev pub padded : ℕ → Array ℕ → Array ℕ
padded got buf i = if leb got i && ltb i fs_sector_size then 0xff else buf i

module _ (spi : Spi) (tmp : Array ℕ) (starts : ℕ → ℕ) (name : Array ℕ) where
  -- A sector that has arrived is written.
  unfoldable pub store_sector : Fs → ℕ → ℕ → Array ℕ → Fs
  store_sector fs addr got buf =
      let buf' = padded got buf in
      record fs {
        sec_buf = buf';
        flash =
            flash_write spi tmp (flash_erase_sector spi fs.flash addr) addr buf' 0 fs_sector_size;
      }

  -- `k` sectors are left, from the number `s` of the file on.
  unfoldable pub upload_sectors : ℕ → Fs → ℕ → ℕ → ℕ → ℕ → List Poll → Outcome
  upload_sectors zero fs start s remaining crc polls = finished fs crc
  upload_sectors (suc k) fs start s remaining crc polls =
      let got = chunk_of remaining in
      elim (receive_chunk polls got 0 (starts s) fs.sec_buf) [
        | more_to_come ↦ unfinished
        | too_late buf ↦ failed (fs_delete spi tmp (record fs { sec_buf = buf }) name).0
        | all_here buf rest ↦
            upload_sectors k (store_sector fs (data_sector (start + s)) got buf) start (s + 1)
              (remaining - got) (crc_loop got buf 0 crc) rest
      ]

  unfoldable pub upload_into : Fs → ℕ → ℕ → Option ℕ → List Poll → Outcome
  upload_into fs size slot none polls = failed fs
  upload_into fs size slot (some start) polls =
      let nsec = sectors_for size in
      let fs' = one_file_more spi tmp (
        write_table spi tmp
          (record fs { sec_buf = fill_entry fs.sec_buf slot name size start nsec })) in
      upload_sectors nsec fs' start 0 size 0xffff polls

  unfoldable pub upload_slot : Fs → ℕ → Option ℕ → List Poll → Outcome
  upload_slot fs size none polls = failed fs
  upload_slot fs size (some slot) polls =
      upload_into fs size slot (alloc_sectors (build_bitmap fs.sec_buf) (sectors_for size)) polls

  -- The old file of the name goes first.
  unfoldable pub make_way : Fs → Option ℕ → Fs
  make_way fs none = fs
  make_way fs (some i) = read_table spi tmp (remove_file spi tmp fs i)

  unfoldable pub fs_upload : Fs → ℕ → List Poll → Outcome
  fs_upload fs size polls =
      let fs' = make_way (read_table spi tmp fs) (find_file (read_table spi tmp fs).sec_buf name) in
      if not fs.mounted
      then failed fs
      else if (name 0 == 0) || (size == 0)
      then failed fs
      else upload_slot fs' size (find_free_slot fs'.sec_buf) polls
