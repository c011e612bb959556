-- ===== src/Range/Fields6.antt =====
-- Each field of a stepped IPv6 packet is what its own step makes of the packet before.
use pktgen_dpdk.Range.State.{RangeInfo, PktSeq, FirstSteps}
use pktgen_dpdk.Range.Ipv6.{
  step_sport6, step_dport6, step_hop_limits6, step_src_ipv6, step_dst_ipv6, step_vlan6, step_cos6,
  step_traffic_class6, step_pkt_size6, step_src_mac6, step_dst_mac6,
}
use pktgen_dpdk.Range.Ctor.{range_ipv6}
use pktgen_dpdk.Base.{◌≡◌, refl}

pub record Fields6 (r : RangeInfo) (fs : FirstSteps) (p q : PktSeq) : Type 0 where
  pub sport_eq : q.sport ≡ (step_sport6 r p).sport
  pub dport_eq : q.dport ≡ (step_dport6 r p).dport
  pub ttl_eq : q.ttl ≡ (step_hop_limits6 r p).ttl
  pub vlanid_eq : q.vlanid ≡ (step_vlan6 r (fs, p)).1.vlanid
  pub cos_eq : q.cos ≡ (step_cos6 r (fs, p)).1.cos
  pub tos_eq : q.tos ≡ (step_traffic_class6 r (fs, p)).1.tos
  pub pkt_size_eq : q.pkt_size ≡ (step_pkt_size6 r p).pkt_size
  pub eth_src_addr_eq : q.eth_src_addr ≡ (step_src_mac6 r p).eth_src_addr
  pub ip_src_ipv6_eq : q.ip_src_ipv6 ≡ (step_src_ipv6 r p).ip_src_ipv6
  pub eth_dst_addr_eq : q.eth_dst_addr ≡ (step_dst_mac6 r p).eth_dst_addr
  pub ip_dst_ipv6_eq : q.ip_dst_ipv6 ≡ (step_dst_ipv6 r p).ip_dst_ipv6
  pub kind_eq : (q.eth_type ≡ p.eth_type) × (q.ip_proto ≡ p.ip_proto)
  pub tcp_eq : (q.tcp_seq ≡ p.tcp_seq) × (q.tcp_ack ≡ p.tcp_ack)

pub range_ipv6-Fields6 :
    (r : RangeInfo) (fs : FirstSteps) (p : PktSeq) → Fields6 r fs p (range_ipv6 r fs p).1
unfolding range_ipv6 step_sport6 step_dport6 step_hop_limits6 step_src_ipv6 step_dst_ipv6 step_vlan6
    step_cos6 step_traffic_class6 step_pkt_size6 step_src_mac6 step_dst_mac6
range_ipv6-Fields6 r fs p = record {
  sport_eq = refl;
  dport_eq = refl;
  ttl_eq = refl;
  vlanid_eq = refl;
  cos_eq = refl;
  tos_eq = refl;
  pkt_size_eq = refl;
  eth_src_addr_eq = refl;
  ip_src_ipv6_eq = refl;
  eth_dst_addr_eq = refl;
  ip_dst_ipv6_eq = refl;
  kind_eq = (refl, refl);
  tcp_eq = (refl, refl);
}
