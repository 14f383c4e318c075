-- ===== src/Powerport.antt =====
-- Power ports: firmwares/controllerboard-1612-v01/powerport.c and powerport.h. `State` has the data and
-- the relay, `Handlers` the timer handler and the reaction to frames. `Automat` is powerportAutomat.c,
-- which passes the commands for one group on to another.
pub mod State
pub mod Handlers
pub mod Timer
pub mod Groups
pub mod Automat
pub mod Bright
