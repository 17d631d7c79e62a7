-- ===== src/Fs/Table.antt =====
-- The file table in `sec_buf`: the names, entries and searches of src/fs/ositofs.cpp. An array is
-- indexed by bytes; a name is the array that its pointer points to.
pub mod Strings
pub mod Entries
pub mod Same
use osito_k.Base.{
  ℕ, zero, suc, ◌+◌, ◌-◌, ◌*◌, ◌/◌, ◌%◌, Bool, not, ◌&&◌, ◌||◌, Option, none, some, Array, update,
  ltb, leb, ◌==◌, if◌then◌else◌, first_index,
}
use osito_k.Fs.Flash.{fs_sector_size, fs_max_files, fs_name_len}

-- `fs_strcmp(a, b) == 0`: the loop ends at the first difference or at the end of `a`, and the last
-- characters are compared.
unfoldable pub strcmp_loop : ℕ → Array ℕ → Array ℕ → ℕ → Bool
strcmp_loop zero a b i = a i == b i
strcmp_loop (suc n) a b i =
    let rest = strcmp_loop n a b (i + 1) in
    if not (a i == 0) && (a i == b i) then rest else a i == b i

-- A name in the table ends within the sector, so these rounds are enough.
unfoldable pub same_name : Array ℕ → Array ℕ → Bool
same_name a b = strcmp_loop fs_sector_size a b 0

-- The two loops of `fs_strncpy`, with `k` rounds left, writing at `dst[at + i]`.
unfoldable pub copy_chars : ℕ → Array ℕ → ℕ → Array ℕ → ℕ → Array ℕ × ℕ
copy_chars zero dst at src i = (dst, i)
copy_chars (suc k) dst at src i =
    let rest = copy_chars k (update dst (at + i) (src i)) at src (i + 1) in
    if src i == 0 then (dst, i) else rest

unfoldable pub zero_chars : ℕ → Array ℕ → ℕ → ℕ → Array ℕ
zero_chars zero dst at i = dst
zero_chars (suc k) dst at i = zero_chars k (update dst (at + i) 0) at (i + 1)

unfoldable pub fs_strncpy : Array ℕ → ℕ → Array ℕ → ℕ → Array ℕ
fs_strncpy dst at src n =
    let (dst', i) = copy_chars (n - 1) dst at src 0 in zero_chars (n - i) dst' at i

-- Little-endian words.
abbrev pub u16_at : Array ℕ → ℕ → ℕ
u16_at t a = t a + 256 * t (a + 1)

abbrev pub u32_at : Array ℕ → ℕ → ℕ
u32_at t a = t a + 256 * t (a + 1) + 65536 * t (a + 2) + 16777216 * t (a + 3)

abbrev pub put_u16 : Array ℕ → ℕ → ℕ → Array ℕ
put_u16 t a v = update (update t a (v % 256)) (a + 1) (v / 256 % 256)

abbrev pub put_u32 : Array ℕ → ℕ → ℕ → Array ℕ
put_u32 t a v =
    update (update (put_u16 t a v) (a + 2) (v / 65536 % 256)) (a + 3) (v / 16777216 % 256)

-- `table_entry(i)` and the fields of the entry.
abbrev pub table_entry : ℕ → ℕ
table_entry i = 32 * i

abbrev pub entry_name : Array ℕ → ℕ → Array ℕ
entry_name t i j = t (table_entry i + j)

unfoldable pub entry_size : Array ℕ → ℕ → ℕ
entry_size t i = u32_at t (table_entry i + 24)

unfoldable pub start_sector : Array ℕ → ℕ → ℕ
start_sector t i = u16_at t (table_entry i + 28)

unfoldable pub sector_count : Array ℕ → ℕ → ℕ
sector_count t i = u16_at t (table_entry i + 30)

unfoldable pub entry_free : Array ℕ → ℕ → Bool
entry_free t i = (t (table_entry i) == 0) || (t (table_entry i) == 0xff)

unfoldable pub find_file : Array ℕ → Array ℕ → Option ℕ
find_file t name =
    first_index fs_max_files (λ i. not (entry_free t i) && same_name (entry_name t i) name) 0

unfoldable pub find_free_slot : Array ℕ → Option ℕ
find_free_slot t = first_index fs_max_files (λ i. entry_free t i) 0

-- `ets_memset(e, 0, sizeof(fs_entry_t))`
unfoldable pub clear_entry : Array ℕ → ℕ → Array ℕ
clear_entry t i a = if leb (table_entry i) a && ltb a (table_entry i + 32) then 0 else t a

-- A new entry.
unfoldable pub fill_entry : Array ℕ → ℕ → Array ℕ → ℕ → ℕ → ℕ → Array ℕ
fill_entry t i name size start count =
    let t = fs_strncpy (clear_entry t i) (table_entry i) name fs_name_len in
    let t = put_u32 t (table_entry i + 24) size in
    put_u16 (put_u16 t (table_entry i + 28) start) (table_entry i + 30) count
