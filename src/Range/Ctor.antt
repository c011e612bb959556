-- ===== src/Range/Ctor.antt =====
-- pktgen_range_ctor of app/pktgen-range.c: the whole step of a packet.
use pktgen_dpdk.Base.{ℕ, Bool, ◌||◌, ◌==◌, if◌then◌else◌}
use pktgen_dpdk.Range.State.{RangeInfo, PktSeq, FirstSteps}
use pktgen_dpdk.Range.Tcp.{pg_ipproto_tcp, step_tcp}
use pktgen_dpdk.Range.Ipv4.{
  step_gtpu4, step_sport4, step_dport4, step_ttl4, step_src_ip4, step_dst_ip4, step_vlan4,
  step_cos4, step_tos4, step_pkt_size4, step_src_mac4, step_dst_mac4, step_vxlan_gid4,
  step_vxlan_vid4,
}
use pktgen_dpdk.Range.Ipv6.{
  step_sport6, step_dport6, step_hop_limits6, step_src_ipv6, step_dst_ipv6, step_vlan6, step_cos6,
  step_traffic_class6, step_pkt_size6, step_src_mac6, step_dst_mac6,
}

abbrev pub ether_type_ipv4 : ℕ
ether_type_ipv4 = 0x0800

abbrev pub ether_type_ipv6 : ℕ
ether_type_ipv6 = 0x86dd

abbrev pub pg_ipproto_udp : ℕ
pg_ipproto_udp = 17

abbrev pub is_tcp_or_udp : ℕ → Bool
is_tcp_or_udp proto = proto == pg_ipproto_tcp || proto == pg_ipproto_udp

-- The fields of the IPv4 case, in the code's order.
unfoldable pub range_ipv4 : RangeInfo → FirstSteps → PktSeq → FirstSteps × PktSeq
range_ipv4 range fs pkt =
    let pkt1 = step_dst_ip4 range (
      step_src_ip4 range
        (step_ttl4 range (step_dport4 range (step_sport4 range (step_gtpu4 range pkt))))) in
    let (fs', pkt2) = step_tos4 range (step_cos4 range (step_vlan4 range (fs, pkt1))) in
    (
      fs',
      step_vxlan_vid4 range (
          step_vxlan_gid4 range
            (step_dst_mac4 range (step_src_mac4 range (step_pkt_size4 range pkt2)))),
    )

-- The fields of the IPv6 case, in the code's order.
unfoldable pub range_ipv6 : RangeInfo → FirstSteps → PktSeq → FirstSteps × PktSeq
range_ipv6 range fs pkt =
    let pkt1 =
      step_dst_ipv6 range (
        step_src_ipv6 range (step_hop_limits6 range (step_dport6 range (step_sport6 range pkt)))) in
    let (fs', pkt2) = step_traffic_class6 range (step_cos6 range (step_vlan6 range (fs, pkt1))) in
    (fs', step_dst_mac6 range (step_src_mac6 range (step_pkt_size6 range pkt2)))

-- The log lines of the default cases change nothing.
unfoldable pub pktgen_range_ctor : RangeInfo → FirstSteps → PktSeq → FirstSteps × PktSeq
pktgen_range_ctor range fs pkt =
    let pkt' = step_tcp range pkt in
    if pkt'.eth_type == ether_type_ipv4
    then if is_tcp_or_udp pkt'.ip_proto then range_ipv4 range fs pkt' else (fs, pkt')
    else if pkt'.eth_type == ether_type_ipv6
    then if is_tcp_or_udp pkt'.ip_proto then range_ipv6 range fs pkt' else (fs, pkt')
    else (fs, pkt')
