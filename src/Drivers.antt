-- ===== src/Drivers.antt =====
-- The drivers of src/drivers.
pub mod Ring
pub mod Uart
pub mod Input
pub mod Video
