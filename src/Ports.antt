-- ===== src/Ports.antt =====
-- lib/utils/portlist.c and the functions of lib/common/pg_strings.c that it uses.
pub mod Text
pub mod State
pub mod Bits
pub mod Parse
pub mod Numbers
pub mod Tokens
pub mod Listing
pub mod Tests
