-- ===== src/Devices.antt =====
-- The devices of a controller board: firmwares/controllerboard-1612-v01/devices.c (`Load`), which puts
-- them into the RAM from the blocks of the EEPROM, and timer.c (`Timer`), which calls their handlers.
pub mod Load
pub mod Layout
pub mod Refusal
pub mod Timer
pub mod Schedule
