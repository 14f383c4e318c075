-- ===== src/Canix.antt =====
-- The CANIX framework (canix/): CAN identifiers, the receive queue, the callback table, the clock
-- and the real time service.
pub mod Ident
pub mod Queue
pub mod Conservation
pub mod Delivery
pub mod Filters
pub mod Hms
pub mod Eeprom
pub mod Transmit
pub mod Wire
pub mod Clock
pub mod Day
pub mod Zones
pub mod Tick
