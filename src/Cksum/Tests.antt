-- ===== src/Cksum/Tests.antt =====
-- Runs of the checksum.
use pktgen_dpdk.Base.{ℕ, ◌+◌, ◌*◌, ◌≡◌, arith, u32}
use pktgen_dpdk.Cksum.Sum.{cksum_update, cksum_done, pseudo_ipv6_checksum}
use pktgen_dpdk.Cksum.Words.{cksum_update_lem}
use pktgen_dpdk.Cksum.Fold.{cksum_done_lem}
use pktgen_dpdk.Cksum.Pseudo.{pseudo_ipv6_header, pseudo_ipv6_checksum_lem}

-- Every byte is 1.
abbrev ones : ℕ → ℕ
ones i = 1

-- 67 bytes: two steps of the unrolled loop, one more word, and an odd byte.
cksum_update_lem_example : cksum_update ones 67 5 ≡ 5 + 33 * 257 + 1
cksum_update_lem_example = cksum_update_lem ones 67 5 (omega arith)

-- A sum whose first fold has a carry again.
abbrev carried : ℕ
carried = 0x2ddf0

cksum_done_lem_example : cksum_done (carried + cksum_done carried) ≡ 0
cksum_done_lem_example = cksum_done_lem carried (omega arith)

pseudo_ipv6_checksum_lem_example :
    u32 (pseudo_ipv6_checksum ones ones 17 20 0 + 255 * 17)
    ≡ cksum_update (pseudo_ipv6_header ones ones 17 20) 40 0
pseudo_ipv6_checksum_lem_example =
    pseudo_ipv6_checksum_lem ones ones 17 20 0 (omega arith) (omega arith) (omega arith)
