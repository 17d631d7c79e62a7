-- ===== src/Fs/Upload/Sectors.antt =====
-- The loop of `fs_upload` over the sectors of the file.
use osito_k.Base.{
  ℕ, zero, suc, ◌+◌, ◌-◌, ◌*◌, ◌≤◌, ◌<◌, ◌≡◌, inl, refl, sym, ap, subst, ◌∙◌, false, List, Array,
  element, length, leb, arith,
}
use native.Mathlib.Decide.{dec_lt}
use osito_k.Fs.Flash.{Spi, IsSpi, fs_sector_size}
use osito_k.Fs.Calls.{Fs, data_sector, chunk_of, fs_delete}
use osito_k.Fs.Calls.Data.{Outside, sector_holds, sector_others}
use osito_k.Fs.Upload.{
  crc_loop, Poll, Received, all_here, more_to_come, too_late, receive_chunk, Outcome, failed,
  finished, unfinished, padded, store_sector, upload_sectors,
}
use osito_k.Fs.Upload.Receive.{
  chars, idle, IsFilled, Receives, receive_chunk-Receives, crc_loop-append, crc_loop_same,
}

-- The next `remaining` bytes that the polls deliver stand in the `k` sectors from `from` on.
pub record IsStored (fs fs' : Fs) (from k remaining crc crc' : ℕ) (polls : List Poll) : Type 0 where
  pub holds : (i : ℕ) → i < remaining → fs'.flash (data_sector from + i) ≡ element (chars polls) i
  pub others :
      (a : ℕ) → Outside (data_sector from) (data_sector (from + k)) a → fs'.flash a ≡ fs.flash a
  pub checksum : crc' ≡ crc_loop remaining (element (chars polls)) 0 crc
  pub same_mounted : fs'.mounted ≡ fs.mounted

-- They are stored; or there are too few; or the sender paused.
abbrev pub Stores : Fs → ℕ → ℕ → ℕ → ℕ → List Poll → Outcome → Type 0
Stores fs from k remaining crc polls (finished fs' crc') =
    IsStored fs fs' from k remaining crc crc' polls
Stores fs from k remaining crc polls unfinished = length (chars polls) < remaining
Stores fs from k remaining crc polls (failed fs') = 0 < idle polls

no_bytes : (crc : ℕ) (bytes : Array ℕ) → crc ≡ crc_loop 0 bytes 0 crc
unfolding crc_loop
no_bytes crc bytes = refl

module _ (spi : Spi) (laws : IsSpi spi) (tmp : Array ℕ) (starts : ℕ → ℕ) (name : Array ℕ) where
  module _ (fs : Fs) (from k remaining crc : ℕ) (polls rest : List Poll) (buf : Array ℕ)
      (v : IsFilled polls rest (chunk_of remaining) 0 fs.sec_buf buf) where
    abbrev got : ℕ
    got = chunk_of remaining

    abbrev stored : Fs
    stored = store_sector spi tmp starts name fs (data_sector from) got buf

    arrived : (i : ℕ) → i < got → buf i ≡ element (chars polls) i
    arrived i h = let q : 0 + i ≡ i = omega arith in rw q at (v.here i (omega arith))

    stored_others :
        (a : ℕ)
        → Outside (data_sector from) (data_sector (from + 1)) a
        → stored.flash a ≡ fs.flash a
    unfolding store_sector
    stored_others a h =
        sector_others spi laws tmp fs.flash (data_sector from) (padded got buf) 0 fs_sector_size
          (omega arith) (omega arith) (omega arith) a (omega arith)

    stored_holds : (i : ℕ) → i < got → stored.flash (data_sector from + i) ≡ element (chars polls) i
    unfolding store_sector
    stored_holds i h =
        sector_holds spi laws tmp fs.flash (data_sector from) (padded got buf) 0 fs_sector_size
          (omega arith) (omega arith) (omega arith) i (ground arith)
        ∙ (let l : leb got i ≡ false = ground arith in rw l (arrived i h))

    stored-mounted : stored.mounted ≡ fs.mounted
    unfolding store_sector
    stored-mounted = refl

    next_sector :
        (r : Outcome)
        → remaining ≤ (k + 1) * fs_sector_size
        → Stores stored (from + 1) k (remaining - got) (crc_loop got buf 0 crc) rest r
        → Stores fs from (k + 1) remaining crc polls r
    next_sector (finished fs' crc') fits w = record {
      holds = λ i h. elim (dec_lt i got) [
        | yes lt ↦ w.others (data_sector from + i) (inl (ground arith)) ∙ stored_holds i lt
        | no nlt ↦
            let full : got ≡ fs_sector_size = ground arith in
            let q : data_sector from + i ≡ data_sector (from + 1) + (i - got) = ground arith in
            let p : got - 0 + (i - got) ≡ i = omega arith in
            ap fs'.flash q
            ∙ w.holds (i - got) (omega arith)
            ∙ v.behind (i - got)
            ∙ ap (element (chars polls)) p
      ];
      others = λ a h. w.others a (omega arith) ∙ stored_others a (omega arith);
      checksum =
          let q : got + (remaining - got) ≡ remaining = ground arith in
          w.checksum
          ∙ crc_loop_same (remaining - got) (element (chars rest)) (element (chars polls)) 0
              (0 + got) _
              (λ d h.
                let a : 0 + d ≡ d = omega arith in
                let b : 0 + got + d ≡ got - 0 + d = omega arith in rw (a, b) (v.behind d))
          ∙ ap (crc_loop (remaining - got) (element (chars polls)) (0 + got)) (
              crc_loop_same got buf (element (chars polls)) 0 0 crc
                (λ d h. let a : 0 + d ≡ d = omega arith in rw a (arrived d h)))
          ∙ sym (crc_loop-append got (remaining - got) (element (chars polls)) 0 crc)
          ∙ ap (λ n. crc_loop n (element (chars polls)) 0 crc) q;
      same_mounted = w.same_mounted ∙ stored-mounted;
    }
    next_sector unfinished fits w = let u = v.used in omega (arith, u, w)
    next_sector (failed fs') fits w = let l = v.idle_left in omega (arith, l, w)

  -- What a sector's bytes lead to, if the loop behind it does what it should.
  after_receive :
      (k : ℕ) (fs : Fs) (start s remaining crc : ℕ) (polls : List Poll) (r : Received)
      → remaining ≤ suc k * fs_sector_size
      → Receives polls (chunk_of remaining) 0 fs.sec_buf r
      → ((fs' : Fs) (remaining' crc' : ℕ) (rest : List Poll)
          → remaining' ≤ k * fs_sector_size
          → Stores fs'
              (start + (s + 1))
              k
              remaining'
              crc'
              rest
              (upload_sectors spi tmp starts name k fs' start (s + 1) remaining' crc' rest))
      → Stores fs (start + s) (suc k) remaining crc polls (elim r [
        | more_to_come ↦ unfinished
        | too_late buf ↦ failed (fs_delete spi tmp (record fs { sec_buf = buf }) name).0
        | all_here buf rest ↦
            upload_sectors spi tmp starts name k
              (store_sector spi tmp starts name fs
                (data_sector (start + s))
                (chunk_of remaining)
                buf)
              start
              (s + 1)
              (remaining - chunk_of remaining)
              (crc_loop (chunk_of remaining) buf 0 crc)
              rest
      ])
  after_receive k fs start s remaining crc polls more_to_come fits v next = ground arith
  after_receive k fs start s remaining crc polls (too_late buf) fits v next = v
  after_receive k fs start s remaining crc polls (all_here buf rest) fits v next =
      let got = chunk_of remaining in
      let a : start + (s + 1) ≡ start + s + 1 = omega arith in
      let b : k + 1 ≡ suc k = omega arith in
      let c = crc_loop got buf 0 crc in
      let fs' = stored fs (start + s) k remaining crc polls rest buf v in
      let out = upload_sectors spi tmp starts name k fs' start (s + 1) (remaining - got) c rest in
      subst (λ m. Stores fs (start + s) m remaining crc polls out) b
        (next_sector fs (start + s) k remaining crc polls rest buf v out (omega arith) (
          subst (λ m. Stores fs' m k (remaining - got) c rest out) a
            (next fs' (remaining - got) c rest (ground arith))))

  pub upload_sectors-Stores :
      (k : ℕ) (fs : Fs) (start s remaining crc : ℕ) (polls : List Poll)
      → remaining ≤ k * fs_sector_size
      → Stores fs
          (start + s)
          k
          remaining
          crc
          polls
          (upload_sectors spi tmp starts name k fs start s remaining crc polls)
  unfolding upload_sectors
  upload_sectors-Stores zero fs start s remaining crc polls fits =
      let none_left : remaining ≡ 0 = omega arith in
      record {
        holds = λ i h. absurd (omega arith);
        others = λ a h. refl;
        checksum = rw none_left (no_bytes crc (element (chars polls)));
        same_mounted = refl;
      }
  upload_sectors-Stores (suc k) fs start s remaining crc polls fits =
      after_receive k fs start s remaining crc polls
        (receive_chunk polls (chunk_of remaining) 0 (starts s) fs.sec_buf) fits
        (receive_chunk-Receives polls (chunk_of remaining) 0 (starts s) fs.sec_buf (omega arith))
        (λ fs' remaining' crc' rest h.
          upload_sectors-Stores k fs' start (s + 1) remaining' crc' rest h)
