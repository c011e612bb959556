-- ===== src/Streams/Tests.antt =====
-- The search for streams of app/pktgen.c at concrete addresses.
use pktgen_dpdk.Base.{ℕ, ◌≡◌, ◌+◌, refl, some}
use pktgen_dpdk.Streams.State.{PortInfo, size_to_mask, mask_bits, pktgen_find_matching_ipsrc}
use pktgen_dpdk.Streams.Mask.{IsMask}
use Prim.Native.Nat.{bit_and}
use pktgen_dpdk.Streams.Match.{IsSource, pktgen_find_matching_ipsrc_lem}
use pktgen_dpdk.Base.{arith, ◌*◌, ◌==◌, u32}

abbrev host_order : ℕ → ℕ
host_order n = n

abbrev two_streams : PortInfo
two_streams = record {
  seq_cnt = 2;
  ip_src_addr = λ i. 100 + i;
  ip_dst_addr = λ i. 200 + i;
  src_prefixlen = λ i. 24;
}

mask_test : size_to_mask 12 ≡ 4293918720
unfolding size_to_mask mask_bits
mask_test = refl

pktgen_find_matching_ipsrc_lem_example :
    (i m : ℕ) × IsMask 24 m
    × (pktgen_find_matching_ipsrc host_order two_streams 101 ≡ some i)
    × IsSource two_streams 101 (bit_and 101 m == u32 (216 * m)) i
pktgen_find_matching_ipsrc_lem_example =
    pktgen_find_matching_ipsrc_lem host_order two_streams 101 (omega arith)
