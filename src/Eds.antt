-- ===== src/Eds.antt =====
-- The EEPROM data system EDS: canix/eds.c and canix/eds.h. `Space` has the operations, `Callback` the
-- service on the bus; `Chain` says how blocks tile the space.
pub mod Space
pub mod Callback
pub mod Chain
pub mod Alloc
pub mod Format
pub mod Fuel
pub mod Merge
pub mod Compact
pub mod Free
pub mod Search
