-- ===== src/Timeservice.antt =====
-- The time service of a board: firmwares/controllerboard-1612-v01/timeservice.c and timeservice.h.
pub mod State
pub mod Bus
pub mod Leader
pub mod Alone
