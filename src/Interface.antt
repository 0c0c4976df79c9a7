-- ===== src/Interface.antt =====
-- The interfaces to devices: files, MTD partitions and EFI variables.
pub mod Files
pub mod File
pub mod Efi
pub mod Mtd
pub mod Machine
