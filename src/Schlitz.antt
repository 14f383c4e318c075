-- ===== src/Schlitz.antt =====
-- The shutter's gap for airing: firmwares/controllerboard-1612-v01/rolladenSchlitzpos.c and its header.
pub mod State
pub mod Query
pub mod Pairing
