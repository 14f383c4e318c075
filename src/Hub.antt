-- ===== src/Hub.antt =====
-- The daemon hcand (hcand/main.c), which passes each frame on to all its peers. `Table` has the peers and
-- the handlers.
pub mod Table
pub mod Deliver
pub mod Expiry
