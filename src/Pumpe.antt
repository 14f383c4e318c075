-- ===== src/Pumpe.antt =====
-- The pump of the central heating: firmwares/controllerboard-1612-v01/zentralheizungspumpe.c and .h.
-- `State` has the device, `Store` its table of the heaters' demand, `Mean` what it switches.
pub mod State
pub mod Store
pub mod Mean
