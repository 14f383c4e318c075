-- ===== src/Addressd.antt =====
-- The daemon that gives the programs of a host their addresses: hcanaddressd/main.c.
pub mod State
pub mod Leases
pub mod Unique
