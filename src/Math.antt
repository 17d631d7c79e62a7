-- ===== src/Math.antt =====
-- The arithmetic of src/math.
pub mod Fixed
pub mod Matrix
