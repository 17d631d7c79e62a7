-- ===== src/Gfx/Wire/Render.antt =====
-- What `wire_render` draws.
use osito_k.Base.{
  ℕ, zero, suc, ◌+◌, ◌*◌, ◌-◌, ◌^◌, ◌≤◌, ◌<◌, ◌≡◌, ◌≢◌, ◌⊎◌, ◌↔◌, inl, inr, refl, sym, subst, true,
  ◌&&◌, ◌||◌, Option, none, some, Array, ltb, leb, Bool-cases, arith,
}
use mathlib.Core.Option.{some-injective}
use native.Mathlib.Decide.{ℕ_discrete}
use osito_k.Math.Fixed.{is_negative, fix16_half, fix_add, fix_sub, fix_mul, fix_div}
use osito_k.Math.Matrix.{Vec3, Mat3, vec3_add, mat3_transform, fix16_round, project}
use osito_k.Drivers.Video.{int_sub}
use osito_k.Drivers.Video.Pixels.{pixel, on_screen}
use osito_k.Drivers.Video.Points.{line_point, line_steps, Meets}
use osito_k.Drivers.Video.Line.{fb_line_lem}
use osito_k.Gfx.Wire.{
  WireModel, clamped_nv, projected, draw_visible, draw_edge, draw_edges, wire_render,
}

-- A coordinate of less than 2 ^ 16 pixels.
abbrev IsNear : ℕ → Type 0
IsNear a = (a < 2 ^ 32) × ((a < 2 ^ 16) ⊎ (2 ^ 32 - 2 ^ 16 ≤ a))

fix16_round_range :
    (x : ℕ)
    → (fix16_round x < 2 ^ 15) ⊎ ((2 ^ 32 - 2 ^ 15 ≤ fix16_round x) × (fix16_round x < 2 ^ 32))
fix16_round_range x =
    let y = fix_add x fix16_half in
    elim (Bool-cases (is_negative y)) [
      | inl neg ↦ rw neg (inr (ground arith, ground arith))
      | inr pos ↦ rw pos (inl (ground arith))
    ]

centred-IsNear :
    (r : ℕ)
    → (r < 2 ^ 15) ⊎ ((2 ^ 32 - 2 ^ 15 ≤ r) × (r < 2 ^ 32))
    → IsNear (fix_add 64 r) × IsNear (fix_sub 32 r)
centred-IsNear r (inl h) = ground arith
centred-IsNear r (inr (lo, hi)) = ground arith

near_apart : (a b : ℕ) → IsNear a → IsNear b → int_sub a b ≢ 2 ^ 31
near_apart a b (ha, inl x) (hb, inl y) = λ e. omega (arith, e)
near_apart a b (ha, inl x) (hb, inr y) = λ e. omega (arith, e)
near_apart a b (ha, inr x) (hb, inl y) = λ e. omega (arith, e)
near_apart a b (ha, inr x) (hb, inr y) = λ e. omega (arith, e)

project-IsNear :
    (v : Vec3) (focal : ℕ) (p : ℕ × ℕ) → project v focal ≡ some p → IsNear p.0 × IsNear p.1
unfolding project
project-IsNear v focal p e = elim (Bool-cases (is_negative v.z || leb v.z fix16_half)) [
  | inl behind ↦ cc (rw behind at e)
  | inr seen ↦
      let inv_z = fix_div focal v.z in
      let x = fix16_round_range (fix_mul v.x inv_z) in
      let y = fix16_round_range (fix_mul v.y inv_z) in
      let q = some-injective _ _ (rw seen at e) in
      subst (λ r. IsNear r.0 × IsNear r.1) q ((centred-IsNear _ x).0, (centred-IsNear _ y).1)
]

-- The line between two projected ends goes through `(x, y)`.
abbrev pub Crosses : Option (ℕ × ℕ) → Option (ℕ × ℕ) → ℕ → ℕ → Type 0
Crosses a b x y =
    (p q : ℕ × ℕ) × (a ≡ some p)
    × (b ≡ some q)
    × Meets (line_point p.0 p.1 q.0 q.1) 0 (line_steps p.0 p.1 q.0 q.1 + 1) x y

module _ (x y : ℕ) (on : on_screen x y ≡ true) where
  -- Visible ends have coordinates that `fb_line` takes.
  abbrev AllNear : Option (ℕ × ℕ) → Type 0
  AllNear a = (p : ℕ × ℕ) → a ≡ some p → IsNear p.0 × IsNear p.1

  abbrev Draws : Array ℕ → Array ℕ → Type 0 → Type 0
  Draws fb fb' P = (pixel fb' x y ≡ true) ↔ ((pixel fb x y ≡ true) ⊎ P)

  same_line :
      {p p' q q' : ℕ × ℕ}
      → p ≡ p'
      → q ≡ q'
      → Meets (line_point p'.0 p'.1 q'.0 q'.1) 0 (line_steps p'.0 p'.1 q'.0 q'.1 + 1) x y
      → Meets (line_point p.0 p.1 q.0 q.1) 0 (line_steps p.0 p.1 q.0 q.1 + 1) x y
  same_line {p} {p'} {q} {q'} e e' m =
      subst (λ r. Meets (line_point r.0 r.1 q.0 q.1) 0 (line_steps r.0 r.1 q.0 q.1 + 1) x y) (sym e)
        (subst (λ r. Meets (line_point p'.0 p'.1 r.0 r.1) 0 (line_steps p'.0 p'.1 r.0 r.1 + 1) x y)
          (sym e') m)

  draw_visible_lem :
      (a b : Option (ℕ × ℕ)) (fb : Array ℕ)
      → AllNear a
      → AllNear b
      → Draws fb (draw_visible a b fb) (Crosses a b x y)
  unfolding draw_visible
  draw_visible_lem none b fb na nb =
      (λ h. inl h, λ m. elim m [ inl h ↦ h | inr (p, q, e, _, _) ↦ cc e ])
  draw_visible_lem (some p) none fb na nb =
      (λ h. inl h, λ m. elim m [ inl h ↦ h | inr (p', q, _, e, _) ↦ cc e ])
  draw_visible_lem (some p) (some q) fb na nb =
      let (px, py) = na p refl in
      let (qx, qy) = nb q refl in
      let (lit, _, _, _) =
        fb_line_lem fb p.0 p.1 q.0 q.1 px.0 py.0 qx.0 qy.0 (near_apart q.0 p.0 qx px)
          (near_apart q.1 p.1 qy py) in
      let (f, g) = lit x y on in
      (
        λ h. elim (f h) [ inl before ↦ inl before | inr m ↦ inr (p, q, refl, refl, m) ],
        λ m. elim m [
          | inl before ↦ g (inl before)
          | inr (p', q', e, e', m) ↦
              g (inr (same_line (some-injective _ _ e) (some-injective _ _ e') m))
        ],
      )

  -- The edge from vertex `a` to vertex `b` is drawn through `(x, y)`.
  abbrev EdgeCrosses : ℕ → Array (Option (ℕ × ℕ)) → ℕ → ℕ → Type 0
  EdgeCrosses nv ends a b = (a < nv) × (b < nv) × Crosses (ends a) (ends b) x y

  draw_edge_lem :
      (nv : ℕ) (ends : Array (Option (ℕ × ℕ))) (a b : ℕ) (fb : Array ℕ)
      → ((i : ℕ) → AllNear (ends i))
      → Draws fb (draw_edge nv ends a b fb) (EdgeCrosses nv ends a b)
  unfolding draw_edge
  draw_edge_lem nv ends a b fb near = elim (Bool-cases (ltb a nv && ltb b nv)) [
    | inl y' ↦
        let (f, g) = draw_visible_lem (ends a) (ends b) fb (near a) (near b) in
        rw y' (
          λ h. elim (f h) [ inl before ↦ inl before | inr c ↦ inr (ground arith, ground arith, c) ],
          λ m. elim m [ inl before ↦ g (inl before) | inr (_, _, c) ↦ g (inr c) ],
        )
    | inr n ↦ rw n (λ h. inl h, λ m. elim m [ inl h ↦ h | inr (ha, hb, _) ↦ absurd (ground arith) ])
  ]

  -- One of the edges with the numbers `i` to `i + n - 1`.
  abbrev Drawn : ℕ → ℕ → WireModel → Array (Option (ℕ × ℕ)) → Type 0
  Drawn i n model ends =
      (j : ℕ) × (i ≤ j)
      × (j < i + n)
      × EdgeCrosses (clamped_nv model) ends (model.edges (j * 2)) (model.edges (j * 2 + 1))

  draw_edges_lem :
      (n i : ℕ) (model : WireModel) (ends : Array (Option (ℕ × ℕ))) (fb : Array ℕ)
      → ((k : ℕ) → AllNear (ends k))
      → Draws fb (draw_edges n i model ends fb) (Drawn i n model ends)
  unfolding draw_edges
  draw_edges_lem zero i model ends fb near =
      (λ h. inl h, λ m. elim m [ inl h ↦ h | inr (j, lo, hi, _) ↦ absurd (omega arith) ])
  draw_edges_lem (suc n) i model ends fb near =
      let a = model.edges (i * 2) in
      let b = model.edges (i * 2 + 1) in
      let fb' = draw_edge (clamped_nv model) ends a b fb in
      let (f, g) = draw_edges_lem n (i + 1) model ends fb' near in
      let (f', g') = draw_edge_lem (clamped_nv model) ends a b fb near in
      (
        λ h. elim (f h) [
          | inl h' ↦ elim (f' h') [
            | inl before ↦ inl before
            | inr c ↦ inr (i, omega arith, omega arith, c)
          ]
          | inr (j, lo, hi, c) ↦ inr (j, omega arith, omega arith, c)
        ],
        λ m. elim m [
          | inl before ↦ g (inl (g' (inl before)))
          | inr (j, lo, hi, c) ↦ elim (ℕ_discrete j i) [
            | yes e ↦ g (
                inl (
                  g' (
                    inr (
                      subst
                        (λ k.
                          EdgeCrosses (clamped_nv model) ends (model.edges (k * 2))
                            (model.edges (k * 2 + 1)))
                        e c))))
            | no ne ↦ g (inr (j, omega arith, omega arith, c))
          ]
        ],
      )

-- `wire_render`: on the screen those pixels are lit that were, and those on the line of an edge whose
-- two vertices exist and are visible. The vertices are turned, moved and projected first.
pub wire_render_lem :
    (fb : Array ℕ) (model : WireModel) (rot : Mat3) (pos : Vec3) (focal x y : ℕ)
    → on_screen x y ≡ true
    → let ends = projected model rot pos focal in
      (pixel (wire_render fb model rot pos focal) x y ≡ true) ↔ (
        (pixel fb x y ≡ true)
        ⊎ ((j : ℕ) × (j < model.ne)
            × (model.edges (j * 2) < clamped_nv model)
            × (model.edges (j * 2 + 1) < clamped_nv model)
            × Crosses (ends (model.edges (j * 2))) (ends (model.edges (j * 2 + 1))) x y))
unfolding wire_render
wire_render_lem fb model rot pos focal x y on =
    let ends = projected model rot pos focal in
    let (f, g) =
      draw_edges_lem x y on model.ne 0 model ends fb
        (λ k p e. project-IsNear (vec3_add (mat3_transform rot (model.verts k)) pos) focal p e) in
    (
      λ h. elim (f h) [
        | inl before ↦ inl before
        | inr (j, _, hi, (ha, hb, c)) ↦ inr (j, omega arith, ha, hb, c)
      ],
      λ m. elim m [
        | inl before ↦ g (inl before)
        | inr (j, hi, ha, hb, c) ↦ g (inr (j, omega arith, omega arith, (ha, hb, c)))
      ],
    )
