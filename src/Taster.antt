-- ===== src/Taster.antt =====
-- A push button: firmwares/controllerboard-1612-v01/taster.c and taster.h.
pub mod State
pub mod Press
