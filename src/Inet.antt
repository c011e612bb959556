-- ===== src/Inet.antt =====
-- lib/common/pg_inet.h: Ethernet and IPv6 addresses as numbers.
pub mod Mac
pub mod Addr6
mod Tests
