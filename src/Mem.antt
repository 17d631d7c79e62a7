-- ===== src/Mem.antt =====
-- The allocators of src/mem.
pub mod Pool
pub mod Heap
