-- ===== src/Cksum.antt =====
-- lib/common/cksum.c: the Internet checksum.
pub mod Sum
pub mod Words
pub mod Fold
pub mod Pseudo
mod Tests
