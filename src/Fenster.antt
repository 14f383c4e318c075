-- ===== src/Fenster.antt =====
-- The window contact (firmwares/controllerboard-1612-v01/reedkontakt.c) and the socket of the kitchen
-- hood (dunstabzugport.c), which is on only while a window is open. `Reedkontakt` and `Dunstabzug` have
-- the devices, `Strecke` both of them and the bus between them.
pub mod Reedkontakt
pub mod Dunstabzug
pub mod Strecke
pub mod Offen
pub mod Others
pub mod Stays
pub mod Timeout
