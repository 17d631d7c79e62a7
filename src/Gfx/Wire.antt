-- ===== src/Gfx/Wire.antt =====
-- The wireframe renderer: src/gfx/wire3d.cpp and wire3d.h. The buffers of the projected vertices are
-- the function `projected`; `none` stands for a vertex that is not visible.
pub mod Render
mod Tests
use osito_k.Base.{
  ℕ, zero, suc, ◌+◌, ◌*◌, ◌-◌, ◌/◌, ◌%◌, ◌^◌, Bool, true, false, not, ◌&&◌, Option, none, some,
  List, [], ◌∷◌, Array, ltb, element, if◌then◌else◌,
}
use osito_k.Math.Fixed.{fix16_one, fix_neg}
use osito_k.Math.Matrix.{Vec3, Mat3, vec3_add, mat3_transform, mat3_identity, project}
use osito_k.Drivers.Video.{fb_clear, fb_line, fb_text_puts}

abbrev pub wire_max_verts : ℕ
wire_max_verts = 64

-- `wire_model_t`
pub record WireModel : Type 0 where
  pub verts : Array Vec3
  pub edges : Array ℕ
  pub nv : ℕ
  pub ne : ℕ

abbrev pub clamped_nv : WireModel → ℕ
clamped_nv model = if ltb wire_max_verts model.nv then wire_max_verts else model.nv

abbrev pub projected : WireModel → Mat3 → Vec3 → ℕ → ℕ → Option (ℕ × ℕ)
projected model rot pos focal i = project (vec3_add (mat3_transform rot (model.verts i)) pos) focal

-- An edge is drawn if both its ends are visible.
unfoldable pub draw_visible : Option (ℕ × ℕ) → Option (ℕ × ℕ) → Array ℕ → Array ℕ
draw_visible (some p) (some q) fb = fb_line fb p.0 p.1 q.0 q.1
draw_visible (some p) none fb = fb
draw_visible none q fb = fb

unfoldable pub draw_edge : ℕ → Array (Option (ℕ × ℕ)) → ℕ → ℕ → Array ℕ → Array ℕ
draw_edge nv ends a b fb = if ltb a nv && ltb b nv then draw_visible (ends a) (ends b) fb else fb

unfoldable pub draw_edges : ℕ → ℕ → WireModel → Array (Option (ℕ × ℕ)) → Array ℕ → Array ℕ
draw_edges zero i model ends fb = fb
draw_edges (suc n) i model ends fb =
    draw_edges n (i + 1) model ends
      (draw_edge (clamped_nv model) ends (model.edges (i * 2)) (model.edges (i * 2 + 1)) fb)

unfoldable pub wire_render : Array ℕ → WireModel → Mat3 → Vec3 → ℕ → Array ℕ
wire_render fb model rot pos focal = draw_edges model.ne 0 model (projected model rot pos focal) fb

abbrev pub one : ℕ
one = fix16_one

abbrev pub minus_one : ℕ
minus_one = fix_neg fix16_one

abbrev pub no_vertex : Vec3
no_vertex = record { x = 0; y = 0; z = 0 }

abbrev pub vertex_of : List Vec3 → ℕ → Vec3
vertex_of [] i = no_vertex
vertex_of (v ∷ vs) zero = v
vertex_of (v ∷ vs) (suc i) = vertex_of vs i

abbrev pub cube_verts : List Vec3
cube_verts =
    record { x = minus_one; y = minus_one; z = minus_one }
    ∷ record { x = one; y = minus_one; z = minus_one }
    ∷ record { x = one; y = one; z = minus_one }
    ∷ record { x = minus_one; y = one; z = minus_one }
    ∷ record { x = minus_one; y = minus_one; z = one }
    ∷ record { x = one; y = minus_one; z = one }
    ∷ record { x = one; y = one; z = one }
    ∷ record { x = minus_one; y = one; z = one }
    ∷ []

abbrev pub cube_edges : List ℕ
cube_edges =
    0 ∷ 1 ∷ 1 ∷ 2 ∷ 2 ∷ 3 ∷ 3 ∷ 0 ∷ 4 ∷ 5 ∷ 5 ∷ 6 ∷ 6 ∷ 7 ∷ 7 ∷ 4 ∷ 0 ∷ 4 ∷ 1 ∷ 5 ∷ 2 ∷ 6 ∷ 3 ∷ 7
    ∷ []

abbrev pub wire_cube : WireModel
wire_cube = record { verts = vertex_of cube_verts; edges = element cube_edges; nv = 8; ne = 12 }

-- The framebuffer that `wire_test` sends.
unfoldable pub wire_test : Array ℕ → Array ℕ
wire_test fb =
    let pos : Vec3 = record { x = 0; y = 0; z = 5 * fix16_one } in
    let drawn = wire_render (fb_clear fb) wire_cube mat3_identity pos (64 * fix16_one) in
    fb_text_puts drawn 0 0 (119 ∷ 105 ∷ 114 ∷ 101 ∷ 116 ∷ 101 ∷ 115 ∷ 116 ∷ [])
