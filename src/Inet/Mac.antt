-- ===== src/Inet/Mac.antt =====
-- inet_mtoh64 and inet_h64tom of lib/common/pg_inet.h: a MAC address as a host number.
use pktgen_dpdk.Base.{ℕ, ◌+◌, ◌*◌, ◌/◌, ◌%◌, ◌^◌, ◌<◌, ◌≡◌, arith}

-- `addr_bytes[0]` to `addr_bytes[5]`, each a byte.
pub record EtherAddr : Type 0 where
  pub b0 : ℕ
  pub b1 : ℕ
  pub b2 : ℕ
  pub b3 : ℕ
  pub b4 : ℕ
  pub b5 : ℕ

-- Every byte is below 256.
pub record IsEtherAddr (m : EtherAddr) : Type 0 where
  pub b0_lt : m.b0 < 256
  pub b1_lt : m.b1 < 256
  pub b2_lt : m.b2 < 256
  pub b3_lt : m.b3 < 256
  pub b4_lt : m.b4 < 256
  pub b5_lt : m.b5 < 256

-- The sums of shifted bytes stay below 2 ^ 48, so no `uint64_t` addition wraps.
unfoldable pub inet_mtoh64 : EtherAddr → ℕ
inet_mtoh64 m = m.b5 + m.b4 * 2 ^ 8 + m.b3 * 2 ^ 16 + m.b2 * 2 ^ 24 + m.b1 * 2 ^ 32 + m.b0 * 2 ^ 40

-- `(value >> k) & 0xFF` is the byte `value / 2 ^ k % 256`.
unfoldable pub inet_h64tom : ℕ → EtherAddr
inet_h64tom value = record {
  b0 = value / 2 ^ 40 % 256;
  b1 = value / 2 ^ 32 % 256;
  b2 = value / 2 ^ 24 % 256;
  b3 = value / 2 ^ 16 % 256;
  b4 = value / 2 ^ 8 % 256;
  b5 = value % 256;
}

pub inet_h64tom-IsEtherAddr : (v : ℕ) → IsEtherAddr (inet_h64tom v)
unfolding inet_h64tom
inet_h64tom-IsEtherAddr v = omega arith

-- The number of the address of a number is its low 48 bits.
pub inet_mtoh64-inet_h64tom : (v : ℕ) → inet_mtoh64 (inet_h64tom v) ≡ v % 2 ^ 48
unfolding inet_mtoh64 inet_h64tom
inet_mtoh64-inet_h64tom v = omega arith

-- The address of the number of an address is that address.
pub inet_h64tom-inet_mtoh64 : (m : EtherAddr) → IsEtherAddr m → inet_h64tom (inet_mtoh64 m) ≡ m
unfolding inet_mtoh64 inet_h64tom
inet_h64tom-inet_mtoh64 m v = ground arith

pub inet_mtoh64-lt : (m : EtherAddr) → IsEtherAddr m → inet_mtoh64 m < 2 ^ 48
unfolding inet_mtoh64
inet_mtoh64-lt m v = omega arith
