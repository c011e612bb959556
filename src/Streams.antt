-- ===== src/Streams.antt =====
-- The search for the stream of an address in app/pktgen.c.
pub mod State
pub mod Mask
pub mod Match
pub mod Tests
