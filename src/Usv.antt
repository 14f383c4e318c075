-- ===== src/Usv.antt =====
-- The uninterruptible supply: firmwares/usv-modul/usvstatemachine.c.
pub mod State
pub mod Machine
pub mod Dwell
pub mod Extrema
