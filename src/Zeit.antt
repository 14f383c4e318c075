-- ===== src/Zeit.antt =====
-- What depends on the time of day: firmwares/controllerboard-1612-v01/zeitzone.c (`Zeitzone`), the time
-- switch zeitschaltuhr.c (`Schaltuhr`) and the shutter by time and brightness rolladenAutomat.c
-- (`Automat`). `Port` has the time switch and a power port (powerport.c) of its group.
pub mod Zeitzone
pub mod Schaltuhr
pub mod Automat
pub mod Follow
pub mod Once
pub mod Port
pub mod Commands
pub mod Switched
pub mod Details
