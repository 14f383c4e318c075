-- ===== src/Lichtzone.antt =====
-- Light zones: firmwares/controllerboard-1612-v01/lichtzone.c and lichtzone.h. `State` has the data and
-- the frames between the devices of a board, `Callback` and `Timer` the two handlers.
pub mod State
pub mod Callback
pub mod Timer
pub mod Inform
pub mod Presses
