-- ===== src/Random.antt =====
-- app/pktgen-random.c: random bit fields in packets.
pub mod State
pub mod Masks
pub mod Memory
pub mod Apply
pub mod Field
mod Tests
