-- ===== src/Range/Fields4.antt =====
-- Each field of a stepped IPv4 packet is what its own step makes of the packet before.
use pktgen_dpdk.Base.{◌≡◌, refl}
use pktgen_dpdk.Range.State.{RangeInfo, PktSeq, FirstSteps}
use pktgen_dpdk.Range.Ipv4.{
  step_gtpu4, step_sport4, step_dport4, step_ttl4, step_src_ip4, step_dst_ip4, step_vlan4,
  step_cos4, step_tos4, step_pkt_size4, step_src_mac4, step_dst_mac4, step_vxlan_gid4,
  step_vxlan_vid4,
}
use pktgen_dpdk.Range.Ctor.{range_ipv4}

abbrev steps4 : RangeInfo → FirstSteps → PktSeq → PktSeq
steps4 r fs p = (range_ipv4 r fs p).1

pub record Fields4 (r : RangeInfo) (fs : FirstSteps) (p q : PktSeq) : Type 0 where
  pub gtpu_teid_eq : q.gtpu_teid ≡ (step_gtpu4 r p).gtpu_teid
  pub sport_eq : q.sport ≡ (step_sport4 r p).sport
  pub dport_eq : q.dport ≡ (step_dport4 r p).dport
  pub ttl_eq : q.ttl ≡ (step_ttl4 r p).ttl
  pub ip_src_addr_eq : q.ip_src_addr ≡ (step_src_ip4 r p).ip_src_addr
  pub ip_dst_addr_eq : q.ip_dst_addr ≡ (step_dst_ip4 r p).ip_dst_addr
  pub vlanid_eq : q.vlanid ≡ (step_vlan4 r (fs, p)).1.vlanid
  pub cos_eq : q.cos ≡ (step_cos4 r (fs, p)).1.cos
  pub tos_eq : q.tos ≡ (step_tos4 r (fs, p)).1.tos
  pub pkt_size_eq : q.pkt_size ≡ (step_pkt_size4 r p).pkt_size
  pub eth_src_addr_eq : q.eth_src_addr ≡ (step_src_mac4 r p).eth_src_addr
  pub eth_dst_addr_eq : q.eth_dst_addr ≡ (step_dst_mac4 r p).eth_dst_addr
  pub group_id_eq : q.group_id ≡ (step_vxlan_vid4 r (step_vxlan_gid4 r p)).group_id
  pub vxlan_id_eq : q.vxlan_id ≡ (step_vxlan_vid4 r p).vxlan_id
  pub kind_eq : (q.eth_type ≡ p.eth_type) × (q.ip_proto ≡ p.ip_proto)
  pub tcp_eq : (q.tcp_seq ≡ p.tcp_seq) × (q.tcp_ack ≡ p.tcp_ack)

pub range_ipv4-Fields4 :
    (r : RangeInfo) (fs : FirstSteps) (p : PktSeq) → Fields4 r fs p (range_ipv4 r fs p).1
unfolding range_ipv4 step_gtpu4 step_sport4 step_dport4 step_ttl4 step_src_ip4 step_dst_ip4
    step_vlan4 step_cos4 step_tos4 step_pkt_size4 step_src_mac4 step_dst_mac4 step_vxlan_gid4
    step_vxlan_vid4
range_ipv4-Fields4 r fs p = record {
  gtpu_teid_eq = refl;
  sport_eq = refl;
  dport_eq = refl;
  ttl_eq = refl;
  ip_src_addr_eq = refl;
  ip_dst_addr_eq = refl;
  vlanid_eq = refl;
  cos_eq = refl;
  tos_eq = refl;
  pkt_size_eq = refl;
  eth_src_addr_eq = refl;
  eth_dst_addr_eq = refl;
  group_id_eq = refl;
  vxlan_id_eq = refl;
  kind_eq = (refl, refl);
  tcp_eq = (refl, refl);
}
