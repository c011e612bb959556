-- ===== src/Hmap.antt =====
-- lib/hmap: the hash map of prefix and key strings.
pub mod State
pub mod Ops
pub mod Null
pub mod Create
pub mod Probe
pub mod Find
pub mod Keys
pub mod Slots
pub mod Valid
pub mod Lookup
pub mod Insert
pub mod Refill
pub mod Grow
pub mod Add
pub mod Counts
pub mod Change
pub mod Full
pub mod Refine
pub mod Reach
pub mod Values
pub mod Arrays
pub mod Getters
pub mod Typed
pub mod ArrayTrip
pub mod Listing
pub mod Order
mod Tests
