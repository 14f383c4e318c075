-- ===== src/Rolladen.antt =====
-- Roller shutters: firmwares/controllerboard-1612-v01/rolladen.c and rolladen.h.
-- `State` has the device's data and its positions, `Lowlevel` the relay state machine that the
-- timer drives every 100 ms, `Callback` the reaction to frames; the other children are proofs.
pub mod State
pub mod Lowlevel
pub mod Callback
pub mod Relays
pub mod Timing
pub mod Halt
pub mod Position
