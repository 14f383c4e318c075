-- ===== src/Schalter.antt =====
-- A switch on an input: firmwares/controllerboard-1612-v01/schalter.c and schalter.h.
pub mod State
pub mod Debounce
