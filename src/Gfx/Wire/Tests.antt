-- ===== src/Gfx/Wire/Tests.antt =====
-- The cube, as `wire_test` shows it.
use osito_k.Base.{ℕ, ◌+◌, ◌*◌, ◌<◌, ◌≡◌, ◌⊎◌, ◌↔◌, refl, true, Array}
use osito_k.Math.Fixed.{fix16_one}
use osito_k.Math.Matrix.{Vec3, mat3_identity}
use osito_k.Drivers.Video.Pixels.{pixel}
use osito_k.Gfx.Wire.{clamped_nv, projected, wire_render, wire_cube}
use osito_k.Gfx.Wire.Render.{Crosses, wire_render_lem}

abbrev dark : Array ℕ
dark = λ _. 0

abbrev pos : Vec3
pos = record { x = 0; y = 0; z = 5 * fix16_one }

wire_render_lem_example :
    let ends = projected wire_cube mat3_identity pos (64 * fix16_one) in
    (pixel (wire_render dark wire_cube mat3_identity pos (64 * fix16_one)) 48 48 ≡ true) ↔ (
      (pixel dark 48 48 ≡ true)
      ⊎ ((j : ℕ) × (j < wire_cube.ne)
          × (wire_cube.edges (j * 2) < clamped_nv wire_cube)
          × (wire_cube.edges (j * 2 + 1) < clamped_nv wire_cube)
          × Crosses (ends (wire_cube.edges (j * 2))) (ends (wire_cube.edges (j * 2 + 1))) 48 48))
wire_render_lem_example =
    wire_render_lem dark wire_cube mat3_identity pos (64 * fix16_one) 48 48 refl
