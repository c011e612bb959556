-- ===== src/Inet/Tests.antt =====
-- Runs of the address functions, and the theorems at addresses that meet their hypotheses.
use pktgen_dpdk.Base.{ℕ, ◌+◌, ◌%◌, ◌^◌, ◌≡◌, refl, List, [], ◌∷◌, arith, ltb}
use pktgen_dpdk.Inet.Mac.{EtherAddr}
use pktgen_dpdk.Inet.Addr6.{
  addr_value, inet6_addr_add, addr_value-inet6_addr_add, memcmp_lt, memcmp_lt_lem,
}

abbrev mac : EtherAddr
mac = record { b0 = 2; b1 = 0; b2 = 0; b3 = 0; b4 = 1; b5 = 254 }

-- 2001:db8::ffff and 1
abbrev addr : List ℕ
addr = 0x20 ∷ 0x01 ∷ 0x0d ∷ 0xb8 ∷ 0 ∷ 0 ∷ 0 ∷ 0 ∷ 0 ∷ 0 ∷ 0 ∷ 0 ∷ 0 ∷ 0 ∷ 0xff ∷ 0xff ∷ []

abbrev one : List ℕ
one = 0 ∷ 0 ∷ 0 ∷ 0 ∷ 0 ∷ 0 ∷ 0 ∷ 0 ∷ 0 ∷ 0 ∷ 0 ∷ 0 ∷ 0 ∷ 0 ∷ 0 ∷ 1 ∷ []

add_run :
    inet6_addr_add addr one
    ≡ 0x20 ∷ 0x01 ∷ 0x0d ∷ 0xb8 ∷ 0 ∷ 0 ∷ 0 ∷ 0 ∷ 0 ∷ 0 ∷ 0 ∷ 0 ∷ 0 ∷ 1 ∷ 0 ∷ 0 ∷ []
unfolding inet6_addr_add
add_run = refl

addr_value-inet6_addr_add_example :
    addr_value (inet6_addr_add addr one) ≡ (addr_value addr + addr_value one) % 256 ^ 16
addr_value-inet6_addr_add_example =
    addr_value-inet6_addr_add addr one refl (omega arith) (omega arith)

memcmp_lt_lem_example : memcmp_lt one addr ≡ ltb (addr_value one) (addr_value addr)
memcmp_lt_lem_example = memcmp_lt_lem one addr refl (omega arith) (omega arith)
