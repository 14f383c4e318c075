-- ===== src/Heizung.antt =====
-- Heating: firmwares/controllerboard-1612-v01/heizung.c and heizung.h. `State` has the data and the PWM,
-- `Control` the choice of the rate and the timer handler, `Callback` the reaction to frames.
pub mod State
pub mod Control
pub mod Callback
pub mod Duty
pub mod Stop
pub mod Lines
pub mod TwoPoint
