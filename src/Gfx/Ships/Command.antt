-- ===== src/Gfx/Ships/Command.antt =====
-- Which ship the command draws, and that its edges join its vertices.
use osito_k.Base.{
  ℕ, zero, suc, ◌*◌, ◌<◌, ◌≡◌, ◌≢◌, ◌⊎◌, inl, inr, refl, ap, ap₂, ◌∙◌, Bool, true, ◌&&◌, Option,
  none, some, List, [], ◌∷◌, Array, length, element, first_index, First, first_index-First, ltb,
  ◌==◌, Bool-cases, arith,
}
use osito_k.Gfx.Wire.{clamped_nv}
use osito_k.Gfx.Ships.Tables.{
  ship_count, ship_list, ship_names, cobra_edges, sidewinder_edges, viper_edges, coriolis_edges,
}
use osito_k.Gfx.Ships.{str_eq, skip_spaces, ship_picture, picture_of, ship_named, cmd_ship}

all_below : ℕ → List ℕ → Bool
all_below n [] = true
all_below n (x ∷ xs) = ltb x n && all_below n xs

element-below :
    (n : ℕ) (xs : List ℕ) (i : ℕ) → all_below n xs ≡ true → i < length xs → element xs i < n
unfolding all_below
element-below n [] i all h = absurd (omega arith)
element-below n (x ∷ xs) zero all h = ground arith
element-below n (x ∷ xs) (suc i) all h = element-below n xs i (ground arith) (omega arith)

-- The ends of every edge of a ship are vertices of it, so that `wire_render` leaves out no edge whose
-- ends are visible, and reads no vertex that the table lacks.
pub ship_edges_lem :
    (s i : ℕ)
    → s < ship_count
    → i < (ship_list s).ne * 2
    → (ship_list s).edges i < clamped_nv (ship_list s)
unfolding all_below
ship_edges_lem zero i hs h = element-below 28 cobra_edges i refl h
ship_edges_lem (suc zero) i hs h = element-below 10 sidewinder_edges i refl h
ship_edges_lem (suc (suc zero)) i hs h = element-below 15 viper_edges i refl h
ship_edges_lem (suc (suc (suc s))) i hs h = element-below 16 coriolis_edges i refl h

str_eq-same : (xs ys : List ℕ) → str_eq xs ys ≡ true → xs ≡ ys
unfolding str_eq
str_eq-same [] [] h = refl
str_eq-same [] (b ∷ ys) h = cc h
str_eq-same (a ∷ xs) [] h = cc h
str_eq-same (a ∷ xs) (b ∷ ys) h = elim (Bool-cases (a == b)) [
  | inl y ↦ let e : a ≡ b = ground arith in ap₂ (λ x zs. x ∷ zs) e (str_eq-same xs ys (rw y at h))
  | inr n ↦ cc (rw n at h)
]

str_eq_self : (xs : List ℕ) → str_eq xs xs ≡ true
unfolding str_eq
str_eq_self [] = refl
str_eq_self (a ∷ xs) = let e : (a == a) ≡ true = ground arith in rw e (str_eq_self xs)

module _ (fb : Array ℕ) (name : List ℕ) where
  -- What the command does with the argument `name`.
  abbrev Shows : Option (Array ℕ) → Type 0
  Shows r =
      ((i : ℕ) × (i < ship_count) × (name ≡ ship_names i) × (r ≡ some (ship_picture fb i)))
      ⊎ (((i : ℕ) → i < ship_count → name ≢ ship_names i) × (r ≡ none))

  found_lem :
      (r : Option ℕ)
      → First (λ i. str_eq name (ship_names i)) 0 ship_count r
      → Shows (picture_of fb r)
  unfolding picture_of
  found_lem none all = inr (
    (λ i h e.
        let eq : str_eq name (ship_names i) ≡ true =
          ap (λ n. str_eq n (ship_names i)) e ∙ str_eq_self (ship_names i) in
        cc (all i (omega arith) h, eq)),
    refl,
  )
  found_lem (some i) (lo, hi, same, before) =
      inl (i, hi, str_eq-same name (ship_names i) same, refl)

named_lem : (fb : Array ℕ) (name : List ℕ) → Shows fb name (ship_named fb name)
unfolding ship_named
named_lem fb [] = inr ((λ i h e. no_name i e), refl)
  where
    no_name : (i : ℕ) → [] ≢ ship_names i
    no_name zero e = cc e
    no_name (suc zero) e = cc e
    no_name (suc (suc zero)) e = cc e
    no_name (suc (suc (suc i))) e = cc e
named_lem fb (c ∷ cs) =
    found_lem fb (c ∷ cs) (first_index ship_count (λ i. str_eq (c ∷ cs) (ship_names i)) 0) (
      first_index-First ship_count (λ i. str_eq (c ∷ cs) (ship_names i)) 0 ship_count (omega arith))

-- `cmd_ship`: it draws the first ship whose name stands behind the spaces, if there is one, and
-- otherwise no picture is sent.
pub cmd_ship_lem :
    (fb : Array ℕ) (args : List ℕ)
    → ((i : ℕ) × (i < ship_count)
        × (skip_spaces args ≡ ship_names i)
        × (cmd_ship fb args ≡ some (ship_picture fb i)))
      ⊎ (((i : ℕ) → i < ship_count → skip_spaces args ≢ ship_names i) × (cmd_ship fb args ≡ none))
unfolding cmd_ship
cmd_ship_lem fb args = named_lem fb (skip_spaces args)
