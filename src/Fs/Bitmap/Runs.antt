-- ===== src/Fs/Bitmap/Runs.antt =====
-- `alloc_sectors` is first fit, and `build_bitmap` marks what the table holds.
use osito_k.Base.{
  ℕ, zero, suc, ◌+◌, ◌-◌, ◌≤◌, ◌<◌, ◌≡◌, ◌⊎◌, inl, inr, refl, Bool, true, false, ◌&&◌, Option, none,
  some, Array, update, ltb, leb, if◌then◌else◌, Bool-cases, arith, ◌∙◌,
}
use native.Mathlib.Decide.{dec_le, ℕ_discrete}
use osito_k.Fs.Flash.{fs_max_files, fs_data_sectors}
use osito_k.Fs.Table.{entry_free, start_sector, sector_count}
use osito_k.Fs.Bitmap.{mark, mark_files, build_bitmap, find_run, alloc_sectors}

-- The `count` sectors from `s` on are free.
abbrev pub AllFree : Array Bool → ℕ → ℕ → Type 0
AllFree bmap s count = (d : ℕ) → s ≤ d → d < s + count → bmap d ≡ false

-- The first run of `count` free sectors below `hi`.
abbrev pub FirstRun : Array Bool → ℕ → ℕ → Option ℕ → Type 0
FirstRun bmap count hi none = (s : ℕ) → s + count ≤ hi → ¬ AllFree bmap s count
FirstRun bmap count hi (some s) =
    (s + count ≤ hi) × AllFree bmap s count × ((r : ℕ) → r < s → ¬ AllFree bmap r count)

-- What holds before the round of `i`.
record Sought (bmap : Array Bool) (count i run start : ℕ) : Type 0 where
  behind : start + run ≡ i
  short : run < count
  free_run : AllFree bmap start run
  bounded : (start ≡ 0) ⊎ (bmap (start - 1) ≡ true)
  none_before : (s : ℕ) → s + count ≤ i → ¬ AllFree bmap s count

module _ {bmap : Array Bool} {count i run start : ℕ} (v : Sought bmap count i run start) where
  -- A sector in use ends the run.
  taken-Sought : bmap i ≡ true → Sought bmap count (i + 1) 0 (i + 1)
  taken-Sought t = record {
    behind = omega arith;
    short = let h = v.short in omega arith;
    free_run = λ d lo hi. absurd (omega arith);
    bounded = let q : i + 1 - 1 ≡ i = omega arith in inr (rw q t);
    none_before = λ s h all. elim (dec_le (s + count) i) [
      | yes le ↦ v.none_before s le all
      | no nle ↦
          let x : bmap i ≡ false = all i (let r = v.short in omega arith) (omega arith) in cc (t, x)
    ];
  }

  longer_run : bmap i ≡ false → AllFree bmap start (run + 1)
  longer_run f d lo hi = elim (ℕ_discrete d i) [
    | yes e ↦ rw e f
    | no ne ↦ v.free_run d lo (let b = v.behind in omega arith)
  ]

  -- A free one makes it longer.
  free-Sought :
      bmap i ≡ false → leb count (run + 1) ≡ false → Sought bmap count (i + 1) (run + 1) start
  free-Sought f short = record {
    behind = let b = v.behind in omega arith;
    short = ground arith;
    free_run = longer_run f;
    bounded = v.bounded;
    none_before = λ s h all. elim (dec_le (s + count) i) [
      | yes le ↦ v.none_before s le all
      | no nle ↦
          let more : run + 1 < count = ground arith in
          let b = v.behind in
          elim v.bounded [
            | inl z ↦ omega arith
            | inr t ↦ elim (ℕ_discrete start 0) [
              | yes z ↦ omega arith
              | no nz ↦
                  let x : bmap (start - 1) ≡ false = all (start - 1) (omega arith) (omega arith) in
                  cc (t, x)
            ]
          ]
    ];
  }

  found-FirstRun :
      (hi : ℕ)
      → i < hi
      → bmap i ≡ false
      → leb count (run + 1) ≡ true
      → FirstRun bmap count hi (some start)
  found-FirstRun hi lt f enough =
      let e : count ≡ run + 1 = let h = v.short in ground arith in
      let b = v.behind in (omega arith, rw e (longer_run f), λ r h. v.none_before r (omega arith))

find_run-FirstRun :
    (n : ℕ) (bmap : Array Bool) (count i run start hi : ℕ)
    → i + n ≡ hi
    → Sought bmap count i run start
    → FirstRun bmap count hi (find_run n bmap count i run start)
unfolding find_run
find_run-FirstRun zero bmap count i run start hi e v = λ s h. v.none_before s (omega arith)
find_run-FirstRun (suc n) bmap count i run start hi e v = elim (Bool-cases (bmap i)) [
  | inl t ↦
      rw t (find_run-FirstRun n bmap count (i + 1) 0 (i + 1) hi (omega arith) (taken-Sought v t))
  | inr f ↦ elim (Bool-cases (leb count (run + 1))) [
    | inl enough ↦ rw (f, enough) (found-FirstRun v hi (omega arith) f enough)
    | inr short ↦
        rw (f, short)
          (find_run-FirstRun n bmap count (i + 1) (run + 1) start hi (omega arith)
            (free-Sought v f short))
  ]
]

-- `alloc_sectors` of at least one sector finds the first run of so many free sectors of the data area,
-- and fails only if there is none.
pub alloc_sectors-FirstRun :
    (bmap : Array Bool) (count : ℕ)
    → 0 < count
    → FirstRun bmap count fs_data_sectors (alloc_sectors bmap count)
unfolding alloc_sectors
alloc_sectors-FirstRun bmap count pos =
    find_run-FirstRun fs_data_sectors bmap count 0 0 0 fs_data_sectors (omega arith) (record {
      behind = omega arith;
      short = pos;
      free_run = λ d lo hi. absurd (omega arith);
      bounded = inl refl;
      none_before = λ s h all. omega arith;
    })

-- File `i` of the table `t` holds sector `b`.
abbrev pub Holds : Array ℕ → ℕ → ℕ → Type 0
Holds t i b =
    (entry_free t i ≡ false) × (start_sector t i ≤ b) × (b < start_sector t i + sector_count t i)

mark_lem :
    (k : ℕ) (bmap : Array Bool) (bit b : ℕ)
    → b < fs_data_sectors
    → mark k bmap bit b ≡ (if leb bit b && ltb b (bit + k) then true else bmap b)
unfolding mark
mark_lem zero bmap bit b h = ground arith
mark_lem (suc k) bmap bit b h =
    mark_lem k (if ltb bit fs_data_sectors then update bmap bit true else bmap) (bit + 1) b h
    ∙ ground arith

-- The bitmap after the round of entry `i`.
abbrev round : Array ℕ → ℕ → Array Bool → Array Bool
round t i bmap = if entry_free t i then bmap else mark (sector_count t i) bmap (start_sector t i)

round_free :
    (t : Array ℕ) (i : ℕ) (bmap : Array Bool) (b : ℕ)
    → b < fs_data_sectors
    → round t i bmap b ≡ false
    → (bmap b ≡ false) × ¬ Holds t i b
round_free t i bmap b h e = elim (Bool-cases (entry_free t i)) [
  | inl z ↦ (rw z at e, λ k. cc (z, k.0))
  | inr nz ↦
      let m = mark_lem (sector_count t i) bmap (start_sector t i) b h in
      let x = rw nz at e in (ground arith, λ k. ground arith)
]

round_used :
    (t : Array ℕ) (i : ℕ) (bmap : Array Bool) (b : ℕ)
    → b < fs_data_sectors
    → round t i bmap b ≡ true
    → (bmap b ≡ true) ⊎ Holds t i b
round_used t i bmap b h e = elim (Bool-cases (entry_free t i)) [
  | inl z ↦ inl (rw z at e)
  | inr nz ↦
      let m = mark_lem (sector_count t i) bmap (start_sector t i) b h in
      let x = rw nz at e in
      elim (Bool-cases (leb (start_sector t i) b && ltb b (start_sector t i + sector_count t i))) [
        | inl y ↦ inr (nz, ground arith, ground arith)
        | inr n ↦ inl (ground arith)
      ]
]

mark_files_free :
    (n : ℕ) (t : Array ℕ) (i : ℕ) (bmap : Array Bool) (b : ℕ)
    → b < fs_data_sectors
    → mark_files n t i bmap b ≡ false
    → (bmap b ≡ false) × ((j : ℕ) → i ≤ j → j < i + n → ¬ Holds t j b)
unfolding mark_files
mark_files_free zero t i bmap b h e = (e, λ j lo hi. absurd (omega arith))
mark_files_free (suc n) t i bmap b h e =
    let (f, rest) = mark_files_free n t (i + 1) (round t i bmap) b h e in
    let (g, here) = round_free t i bmap b h f in
    (
      g,
      λ j lo hi. elim (ℕ_discrete j i) [
        | yes q ↦ rw q here
        | no ne ↦ rest j (omega arith) (omega arith)
      ],
    )

mark_files_used :
    (n : ℕ) (t : Array ℕ) (i : ℕ) (bmap : Array Bool) (b : ℕ)
    → b < fs_data_sectors
    → mark_files n t i bmap b ≡ true
    → (bmap b ≡ true) ⊎ ((j : ℕ) × (j < i + n) × Holds t j b)
unfolding mark_files
mark_files_used zero t i bmap b h e = inl e
mark_files_used (suc n) t i bmap b h e = elim (mark_files_used n t (i + 1) (round t i bmap) b h e) [
  | inl f ↦ elim (round_used t i bmap b h f) [ inl g ↦ inl g | inr k ↦ inr (i, omega arith, k) ]
  | inr (j, lt, k) ↦ inr (j, omega arith, k)
]

-- The bitmap that `build_bitmap` makes of a table is clear exactly at the data sectors that no file
-- of the table holds.
pub build_bitmap_lem :
    (t : Array ℕ) (b : ℕ)
    → b < fs_data_sectors
    → (build_bitmap t b ≡ false → (j : ℕ) → j < fs_max_files → ¬ Holds t j b)
      × (build_bitmap t b ≡ true → (j : ℕ) × (j < fs_max_files) × Holds t j b)
unfolding build_bitmap
build_bitmap_lem t b h = (
  λ e j lt. (mark_files_free fs_max_files t 0 (λ _. false) b h e).1 j (omega arith) lt,
  λ e. elim (mark_files_used fs_max_files t 0 (λ _. false) b h e) [
    | inl f ↦ cc f
    | inr (j, lt, k) ↦ (j, lt, k)
  ],
)
