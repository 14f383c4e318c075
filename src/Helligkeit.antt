-- ===== src/Helligkeit.antt =====
-- The brightness sensor of a board: firmwares/controllerboard-1612-v01/helligkeitssensor.c and the
-- floating mean of floatingAverage.c.
pub mod State
pub mod Mean
