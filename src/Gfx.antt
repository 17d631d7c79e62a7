-- ===== src/Gfx.antt =====
-- The wireframe graphics of src/gfx.
pub mod Wire
pub mod Ships
