-- ===== src/Fs/Upload/Tests.antt =====
-- The checksum of `123456789`, and an upload of three bytes with a pause.
use osito_k.Base.{ℕ, ◌≡◌, refl, none, some, List, [], ◌∷◌, ◌+◌, arith}
use osito_k.Fs.Samples.{array_spi, array_spi-IsSpi, no_bytes, ab, ab-IsName, with_a}
use osito_k.Fs.Upload.{fs_crc16, crc_loop, crc_byte, crc_bits, Poll, fs_upload}
use osito_k.Fs.Upload.Stored.{Uploaded}
use osito_k.Fs.Upload.Uploads.{loaded, fs_upload_lem}

-- The check value of CRC-16/CCITT-FALSE.
checks : fs_crc16 (λ i. 49 + i) 9 ≡ 0x29b1
unfolding fs_crc16 crc_loop crc_byte crc_bits
checks = refl

abbrev polls : List Poll
polls = (some 72, 100) ∷ (none, 101) ∷ (some 105, 102) ∷ (some 10, 103) ∷ []

abbrev starts : ℕ → ℕ
starts _ = 99

fs_upload_lem_example :
    Uploaded array_spi array_spi-IsSpi no_bytes starts ab
      (loaded array_spi array_spi-IsSpi no_bytes starts ab with_a).sec_buf
      3
      polls
      (fs_upload array_spi no_bytes starts ab with_a 3 polls)
fs_upload_lem_example =
    fs_upload_lem array_spi array_spi-IsSpi no_bytes starts ab with_a 3 2 polls ab-IsName
      (omega arith) (omega arith) refl
