-- ===== src/Mem/Heap/Blocks.antt =====
-- The heap as a list of blocks, which lie one behind the other.
use osito_k.Base.{
  ℕ, ◌+◌, ◌*◌, ◌%◌, ◌≤◌, ◌<◌, ◌≡◌, ◌⊎◌, Bool, true, false, List, [], ◌∷◌, ◌++◌, Array, length,
  arith,
}
use osito_k.Mem.Heap.{Heap, u32, heap_size, blk_size, blk_used}

pub data Block : Type 0 where
  free : ℕ → Block
  used : ℕ → Block

abbrev pub size_of : Block → ℕ
size_of (free n) = n
size_of (used n) = n

abbrev pub is_used : Block → Bool
is_used (free n) = false
is_used (used n) = true

-- The header of a block: its size, which is a multiple of 4, and the flag.
abbrev pub info_of : Block → ℕ
info_of (free n) = n
info_of (used n) = n + 1

-- A block holds its header and at least one word.
pub record IsBlock (mem : Array ℕ) (h : ℕ) (b : Block) : Type 0 where
  pub header : mem h ≡ info_of b
  pub aligned : size_of b % 4 ≡ 0
  pub least : 8 ≤ size_of b

-- The blocks `bs` fill memory from `h` up to `stop`.
abbrev pub Tiles : Array ℕ → ℕ → List Block → ℕ → Type 0
Tiles mem h [] stop = h ≡ stop
Tiles mem h (b ∷ bs) stop = IsBlock mem h b × Tiles mem (h + size_of b) bs stop

abbrev pub total : List Block → ℕ
total [] = 0
total (b ∷ bs) = size_of b + total bs

-- The heap lies below 2 ^ 32 and not at 0, and `bs` are its blocks.
pub record IsHeap (p : Heap) (bs : List Block) : Type 0 where
  pub tiles : Tiles p.mem p.heap_start bs p.heap_end
  pub fits : p.heap_end < u32
  pub not_null : 0 < p.heap_start
  pub extent : p.heap_start + heap_size ≡ p.heap_end

pub Tiles-total :
    (mem : Array ℕ) (h : ℕ) (bs : List Block) (stop : ℕ)
    → Tiles mem h bs stop
    → (h + total bs ≡ stop) × (8 * length bs ≤ total bs)
Tiles-total mem h [] stop t = (omega (arith, t), omega arith)
Tiles-total mem h (b ∷ bs) stop t =
    let (e, l) = Tiles-total mem (h + size_of b) bs stop t.1 in
    (omega (arith, e), omega (arith, l, t.0.least))

-- Memory that agrees from `h` on shows the same blocks.
pub Tiles-above :
    (mem mem' : Array ℕ) (h : ℕ) (bs : List Block) (stop : ℕ)
    → ((a : ℕ) → h ≤ a → mem' a ≡ mem a)
    → Tiles mem h bs stop
    → Tiles mem' h bs stop
Tiles-above mem mem' h [] stop same t = t
Tiles-above mem mem' h (b ∷ bs) stop same t = (
  record {
    header = omega (arith, same h (omega arith), t.0.header);
    aligned = t.0.aligned;
    least = t.0.least;
  },
  Tiles-above mem mem' (h + size_of b) bs stop (λ a le. same a (omega arith)) t.1,
)

-- So does memory that agrees from `h` to `stop`.
pub Tiles-below :
    (mem mem' : Array ℕ) (h : ℕ) (bs : List Block) (stop : ℕ)
    → ((a : ℕ) → h ≤ a → a < stop → mem' a ≡ mem a)
    → Tiles mem h bs stop
    → Tiles mem' h bs stop
Tiles-below mem mem' h [] stop same t = t
Tiles-below mem mem' h (b ∷ bs) stop same t =
    let (e, l) = Tiles-total mem (h + size_of b) bs stop t.1 in
    (
      record {
        header = omega (arith, same h (omega arith) (omega (arith, e, t.0.least)), t.0.header);
        aligned = t.0.aligned;
        least = t.0.least;
      },
      Tiles-below mem mem' (h + size_of b) bs stop (λ a le lt. same a (omega arith) lt) t.1,
    )

pub Tiles-append :
    (mem : Array ℕ) (h mid : ℕ) (bs cs : List Block) (stop : ℕ)
    → Tiles mem h bs mid
    → Tiles mem mid cs stop
    → Tiles mem h (bs ++ cs) stop
Tiles-append mem h mid [] cs stop t u = rw t u
Tiles-append mem h mid (b ∷ bs) cs stop t u =
    (t.0, Tiles-append mem (h + size_of b) mid bs cs stop t.1 u)

pub Tiles-split :
    (mem : Array ℕ) (h : ℕ) (bs cs : List Block) (stop : ℕ)
    → Tiles mem h (bs ++ cs) stop
    → Tiles mem h bs (h + total bs) × Tiles mem (h + total bs) cs stop
Tiles-split mem h [] cs stop t = let e : h ≡ h + 0 = omega arith in (e, rw (← e) t)
Tiles-split mem h (b ∷ bs) cs stop t =
    let (x, y) = Tiles-split mem (h + size_of b) bs cs stop t.1 in
    let e : h + size_of b + total bs ≡ h + (size_of b + total bs) = omega arith in
    ((t.0, rw (← e) x), rw (← e) y)

-- Address `a` lies in a used block.
abbrev pub InUsed : ℕ → List Block → ℕ → Type 0
InUsed h [] a = ⊥
InUsed h (b ∷ bs) a =
    ((is_used b ≡ true) × (h ≤ a) × (a < h + size_of b)) ⊎ InUsed (h + size_of b) bs a

-- What the header of a block says.
pub header_reads :
    {mem : Array ℕ} {h : ℕ} (b : Block)
    → IsBlock mem h b
    → (blk_size mem h ≡ size_of b) × (blk_used mem h ≡ is_used b)
header_reads {mem} {h} (free n) v = (omega (arith, v), ground (arith, v))
header_reads {mem} {h} (used n) v = (omega (arith, v), ground (arith, v))
