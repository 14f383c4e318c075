-- ===== src/Tempsensor.antt =====
-- A temperature sensor on the 1-wire bus: firmwares/controllerboard-1612-v01/tempsensor.c and tempsensor.h.
pub mod State
pub mod Period
