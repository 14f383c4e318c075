-- ===== src/Multitaster.antt =====
-- A push button whose group a potentiometer selects: firmwares/controllerboard-1612-v01/multitaster.c, and
-- the potentiometer, poti.c.
pub mod State
pub mod Poti
pub mod Position
pub mod Select
pub mod Streak
