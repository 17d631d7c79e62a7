-- ===== src/Fs.antt =====
-- OsitoFS: src/fs/ositofs.cpp and ositofs.h, a flat file system on SPI flash.
pub mod Flash
pub mod Transfer
pub mod Table
pub mod Bitmap
pub mod Calls
pub mod Disk
pub mod Update
pub mod Upload
pub mod Samples
mod Tests
