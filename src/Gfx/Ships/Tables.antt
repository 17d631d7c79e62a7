-- ===== src/Gfx/Ships/Tables.antt =====
-- The vertices and edges of the ships. A coordinate is given by its magnitude in the units of the
-- original game, 80 of which are 1.
use osito_k.Base.{ℕ, zero, suc, ◌+◌, ◌*◌, ◌/◌, List, [], ◌∷◌, element}
use osito_k.Math.Fixed.{fix_neg}
use osito_k.Math.Matrix.{Vec3}
use osito_k.Gfx.Wire.{WireModel, vertex_of}

-- `SHIP_SCALE` of a number that is not negative: `FIX16_C (v / 80.0)`, which rounds to the nearest.
abbrev plus : ℕ → ℕ
plus v = (v * 65536 * 2 + 80) / 160

-- The same of a negative number.
abbrev minus : ℕ → ℕ
minus v = fix_neg (plus v)

abbrev vertex : ℕ → ℕ → ℕ → Vec3
vertex x y z = record { x = x; y = y; z = z }

abbrev pub cobra_verts : List Vec3
cobra_verts =
    vertex (plus 32) (plus 0) (plus 76)
    ∷ vertex (minus 32) (plus 0) (plus 76)
    ∷ vertex (plus 0) (plus 26) (plus 24)
    ∷ vertex (minus 120) (minus 3) (minus 8)
    ∷ vertex (plus 120) (minus 3) (minus 8)
    ∷ vertex (minus 88) (plus 16) (minus 40)
    ∷ vertex (plus 88) (plus 16) (minus 40)
    ∷ vertex (plus 128) (minus 8) (minus 40)
    ∷ vertex (minus 128) (minus 8) (minus 40)
    ∷ vertex (plus 0) (plus 26) (minus 40)
    ∷ vertex (minus 32) (minus 24) (minus 40)
    ∷ vertex (plus 32) (minus 24) (minus 40)
    ∷ vertex (minus 36) (plus 8) (minus 40)
    ∷ vertex (minus 8) (plus 12) (minus 40)
    ∷ vertex (plus 8) (plus 12) (minus 40)
    ∷ vertex (plus 36) (plus 8) (minus 40)
    ∷ vertex (plus 36) (minus 12) (minus 40)
    ∷ vertex (plus 8) (minus 16) (minus 40)
    ∷ vertex (minus 8) (minus 16) (minus 40)
    ∷ vertex (minus 36) (minus 12) (minus 40)
    ∷ vertex (plus 0) (plus 0) (plus 76)
    ∷ vertex (plus 0) (plus 0) (plus 90)
    ∷ vertex (minus 80) (minus 6) (minus 40)
    ∷ vertex (minus 80) (plus 6) (minus 40)
    ∷ vertex (minus 88) (plus 0) (minus 40)
    ∷ vertex (plus 80) (plus 6) (minus 40)
    ∷ vertex (plus 88) (plus 0) (minus 40)
    ∷ vertex (plus 80) (minus 6) (minus 40)
    ∷ []

abbrev pub cobra_edges : List ℕ
cobra_edges =
    0 ∷ 1 ∷ 0 ∷ 4 ∷ 1 ∷ 3 ∷ 3 ∷ 8 ∷ 4 ∷ 7 ∷ 6 ∷ 7 ∷ 6 ∷ 9 ∷ 5 ∷ 9 ∷ 5 ∷ 8 ∷ 2 ∷ 5 ∷ 2 ∷ 6 ∷ 3 ∷ 5
    ∷ 4 ∷ 6 ∷ 1 ∷ 2 ∷ 0 ∷ 2 ∷ 8 ∷ 10 ∷ 10 ∷ 11 ∷ 7 ∷ 11 ∷ 1 ∷ 10 ∷ 0 ∷ 11 ∷ 1 ∷ 5 ∷ 0 ∷ 6 ∷ 20 ∷ 21
    ∷ 12 ∷ 13 ∷ 18 ∷ 19 ∷ 14 ∷ 15 ∷ 16 ∷ 17 ∷ 15 ∷ 16 ∷ 14 ∷ 17 ∷ 13 ∷ 18 ∷ 12 ∷ 19 ∷ 2 ∷ 9 ∷ 22
    ∷ 24 ∷ 23 ∷ 24 ∷ 22 ∷ 23 ∷ 25 ∷ 26 ∷ 26 ∷ 27 ∷ 25 ∷ 27 ∷ []

abbrev pub ship_cobra : WireModel
ship_cobra = record { verts = vertex_of cobra_verts; edges = element cobra_edges; nv = 28; ne = 38 }

abbrev pub sidewinder_verts : List Vec3
sidewinder_verts =
    vertex (minus 32) (plus 0) (plus 36)
    ∷ vertex (plus 32) (plus 0) (plus 36)
    ∷ vertex (plus 64) (plus 0) (minus 28)
    ∷ vertex (minus 64) (plus 0) (minus 28)
    ∷ vertex (plus 0) (plus 16) (minus 28)
    ∷ vertex (plus 0) (minus 16) (minus 28)
    ∷ vertex (minus 12) (plus 6) (minus 28)
    ∷ vertex (plus 12) (plus 6) (minus 28)
    ∷ vertex (plus 12) (minus 6) (minus 28)
    ∷ vertex (minus 12) (minus 6) (minus 28)
    ∷ []

abbrev pub sidewinder_edges : List ℕ
sidewinder_edges =
    0 ∷ 1 ∷ 1 ∷ 2 ∷ 1 ∷ 4 ∷ 0 ∷ 4 ∷ 0 ∷ 3 ∷ 3 ∷ 4 ∷ 2 ∷ 4 ∷ 3 ∷ 5 ∷ 2 ∷ 5 ∷ 1 ∷ 5 ∷ 0 ∷ 5 ∷ 6 ∷ 7
    ∷ 7 ∷ 8 ∷ 6 ∷ 9 ∷ 8 ∷ 9 ∷ []

abbrev pub ship_sidewinder : WireModel
ship_sidewinder = record {
  verts = vertex_of sidewinder_verts;
  edges = element sidewinder_edges;
  nv = 10;
  ne = 15;
}

abbrev pub viper_verts : List Vec3
viper_verts =
    vertex (plus 0) (plus 0) (plus 72)
    ∷ vertex (plus 0) (plus 16) (plus 24)
    ∷ vertex (plus 0) (minus 16) (plus 24)
    ∷ vertex (plus 48) (plus 0) (minus 24)
    ∷ vertex (minus 48) (plus 0) (minus 24)
    ∷ vertex (plus 24) (minus 16) (minus 24)
    ∷ vertex (minus 24) (minus 16) (minus 24)
    ∷ vertex (plus 24) (plus 16) (minus 24)
    ∷ vertex (minus 24) (plus 16) (minus 24)
    ∷ vertex (minus 32) (plus 0) (minus 24)
    ∷ vertex (plus 32) (plus 0) (minus 24)
    ∷ vertex (plus 8) (plus 8) (minus 24)
    ∷ vertex (minus 8) (plus 8) (minus 24)
    ∷ vertex (minus 8) (minus 8) (minus 24)
    ∷ vertex (plus 8) (minus 8) (minus 24)
    ∷ []

abbrev pub viper_edges : List ℕ
viper_edges =
    0 ∷ 3 ∷ 0 ∷ 1 ∷ 0 ∷ 2 ∷ 0 ∷ 4 ∷ 1 ∷ 7 ∷ 1 ∷ 8 ∷ 2 ∷ 5 ∷ 2 ∷ 6 ∷ 7 ∷ 8 ∷ 5 ∷ 6 ∷ 4 ∷ 8 ∷ 4 ∷ 6
    ∷ 3 ∷ 7 ∷ 3 ∷ 5 ∷ 9 ∷ 12 ∷ 9 ∷ 13 ∷ 10 ∷ 11 ∷ 10 ∷ 14 ∷ 11 ∷ 14 ∷ 12 ∷ 13 ∷ []

abbrev pub ship_viper : WireModel
ship_viper = record { verts = vertex_of viper_verts; edges = element viper_edges; nv = 15; ne = 20 }

abbrev pub coriolis_verts : List Vec3
coriolis_verts =
    vertex (plus 160) (plus 0) (plus 160)
    ∷ vertex (plus 0) (plus 160) (plus 160)
    ∷ vertex (minus 160) (plus 0) (plus 160)
    ∷ vertex (plus 0) (minus 160) (plus 160)
    ∷ vertex (plus 160) (minus 160) (plus 0)
    ∷ vertex (plus 160) (plus 160) (plus 0)
    ∷ vertex (minus 160) (plus 160) (plus 0)
    ∷ vertex (minus 160) (minus 160) (plus 0)
    ∷ vertex (plus 160) (plus 0) (minus 160)
    ∷ vertex (plus 0) (plus 160) (minus 160)
    ∷ vertex (minus 160) (plus 0) (minus 160)
    ∷ vertex (plus 0) (minus 160) (minus 160)
    ∷ vertex (plus 10) (minus 30) (plus 160)
    ∷ vertex (plus 10) (plus 30) (plus 160)
    ∷ vertex (minus 10) (plus 30) (plus 160)
    ∷ vertex (minus 10) (minus 30) (plus 160)
    ∷ []

abbrev pub coriolis_edges : List ℕ
coriolis_edges =
    0 ∷ 3 ∷ 0 ∷ 1 ∷ 1 ∷ 2 ∷ 2 ∷ 3 ∷ 3 ∷ 4 ∷ 0 ∷ 4 ∷ 0 ∷ 5 ∷ 5 ∷ 1 ∷ 1 ∷ 6 ∷ 2 ∷ 6 ∷ 2 ∷ 7 ∷ 3 ∷ 7
    ∷ 8 ∷ 11 ∷ 8 ∷ 9 ∷ 9 ∷ 10 ∷ 10 ∷ 11 ∷ 4 ∷ 11 ∷ 4 ∷ 8 ∷ 5 ∷ 8 ∷ 5 ∷ 9 ∷ 6 ∷ 9 ∷ 6 ∷ 10 ∷ 7 ∷ 10
    ∷ 7 ∷ 11 ∷ 12 ∷ 13 ∷ 13 ∷ 14 ∷ 14 ∷ 15 ∷ 15 ∷ 12 ∷ []

abbrev pub ship_coriolis : WireModel
ship_coriolis = record {
  verts = vertex_of coriolis_verts;
  edges = element coriolis_edges;
  nv = 16;
  ne = 28;
}

abbrev pub ship_count : ℕ
ship_count = 4

-- `ship_list`, at an index below `ship_count`.
abbrev pub ship_list : ℕ → WireModel
ship_list zero = ship_cobra
ship_list (suc zero) = ship_sidewinder
ship_list (suc (suc zero)) = ship_viper
ship_list (suc (suc (suc i))) = ship_coriolis

abbrev pub ship_names : ℕ → List ℕ
ship_names zero = 99 ∷ 111 ∷ 98 ∷ 114 ∷ 97 ∷ []
ship_names (suc zero) = 115 ∷ 105 ∷ 100 ∷ 101 ∷ 119 ∷ 105 ∷ 110 ∷ 100 ∷ 101 ∷ 114 ∷ []
ship_names (suc (suc zero)) = 118 ∷ 105 ∷ 112 ∷ 101 ∷ 114 ∷ []
ship_names (suc (suc (suc i))) = 99 ∷ 111 ∷ 114 ∷ 105 ∷ 111 ∷ 108 ∷ 105 ∷ 115 ∷ []
