-- ===== src/Serial.antt =====
-- The serial line between the CAN adapter (firmwares/hostinterface-v02/main.c) and the host's daemon
-- (hcanhid/main.c). A frame goes as `C`, hexadecimal bytes, `F`.
pub mod Hex
pub mod Interface
pub mod Daemon
pub mod Digits
pub mod Writes
pub mod Frames
pub mod ToBus
pub mod ToHost
pub mod Bounds
