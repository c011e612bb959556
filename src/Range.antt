-- ===== src/Range.antt =====
-- app/pktgen-range.c: the packet of the range mode.
pub mod State
pub mod Counter
pub mod Tcp
pub mod Ipv4
pub mod Ipv6
pub mod Ctor
pub mod Fields4
pub mod Bounds4
pub mod Fields6
pub mod Bounds6
pub mod Safety
pub mod Cycle
pub mod Steps4
pub mod Run
pub mod Setup
mod Tests
