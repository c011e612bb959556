-- ===== src/Range/Tests.antt =====
-- Runs of the range mode on a port with the default ranges, and the theorems at such inputs.
use pktgen_dpdk.Base.{ℕ, ◌≡◌, refl, List, [], ◌∷◌, false, arith}
use pktgen_dpdk.Inet.Mac.{EtherAddr, inet_mtoh64, inet_h64tom}
use pktgen_dpdk.Range.State.{RangeInfo, PktSeq, FirstSteps}
use pktgen_dpdk.Range.Counter.{advance, advance_if}
use pktgen_dpdk.Range.Tcp.{step_tcp, step_tcp_seq, step_tcp_ack}
use pktgen_dpdk.Range.Counter.{advance, advance_if}
use pktgen_dpdk.Range.Ipv4.{
  step_gtpu4, step_sport4, step_dport4, step_ttl4, step_src_ip4, step_dst_ip4, step_vlan4,
  step_cos4, step_tos4, step_pkt_size4, step_src_mac4, step_dst_mac4, step_vxlan_gid4,
  step_vxlan_vid4,
}
use pktgen_dpdk.Range.Ctor.{pktgen_range_ctor, range_ipv4}
use pktgen_dpdk.Range.Setup.{EtherLens, pktgen_range_setup, pktgen_range_setup-IsValidRange}
use pktgen_dpdk.Range.Bounds4.{IsValidRange, InRange4}
use pktgen_dpdk.Range.Bounds6.{InRange6}
use pktgen_dpdk.Range.Safety.{pktgen_range_ctor-InRange4, pktgen_range_ctor-InRange6}
use pktgen_dpdk.Range.Run.{range_run, range_run_ports4, range_run_addrs4}

abbrev zeros : List ℕ
zeros = 0 ∷ 0 ∷ 0 ∷ 0 ∷ 0 ∷ 0 ∷ 0 ∷ 0 ∷ 0 ∷ 0 ∷ 0 ∷ 0 ∷ 0 ∷ 0 ∷ 0 ∷ 0 ∷ []

abbrev lens : EtherLens
lens = record { min_len = 64; max_len = 1518; jumbo_len = 9600; crc_len = 4 }

abbrev blank : RangeInfo
blank = record {
  src_ip_inc = 0;
  dst_ip_inc = 0;
  src_ipv6_inc = zeros;
  dst_ipv6_inc = zeros;
  src_port_inc = 0;
  dst_port_inc = 0;
  vlan_id_inc = 0;
  tcp_seq_inc = 0;
  tcp_ack_inc = 0;
  tos_inc = 0;
  cos_inc = 0;
  pkt_size_inc = 0;
  src_mac_inc = 0;
  dst_mac_inc = 0;
  ttl_inc = 0;
  src_ip = 0;
  src_ip_min = 0;
  src_ip_max = 0;
  src_ipv6 = zeros;
  src_ipv6_min = zeros;
  src_ipv6_max = zeros;
  dst_ip = 0;
  dst_ip_min = 0;
  dst_ip_max = 0;
  dst_ipv6 = zeros;
  dst_ipv6_min = zeros;
  dst_ipv6_max = zeros;
  ip_proto = 0;
  src_port = 0;
  src_port_min = 0;
  src_port_max = 0;
  dst_port = 0;
  dst_port_min = 0;
  dst_port_max = 0;
  tcp_flags = 0;
  tcp_seq = 0;
  tcp_seq_min = 0;
  tcp_seq_max = 0;
  tcp_ack = 0;
  tcp_ack_min = 0;
  tcp_ack_max = 0;
  vlan_id = 0;
  vlan_id_min = 0;
  vlan_id_max = 0;
  cos = 0;
  cos_min = 0;
  cos_max = 0;
  tos = 0;
  tos_min = 0;
  tos_max = 0;
  pkt_size = 0;
  pkt_size_min = 0;
  pkt_size_max = 0;
  dst_mac = 0;
  dst_mac_min = 0;
  dst_mac_max = 0;
  src_mac = 0;
  src_mac_min = 0;
  src_mac_max = 0;
  ttl = 0;
  ttl_min = 0;
  ttl_max = 0;
  gtpu_teid = 0;
  gtpu_teid_inc = 0;
  gtpu_teid_min = 0;
  gtpu_teid_max = 0;
  vxlan_gid = 0;
  vxlan_gid_inc = 0;
  vxlan_gid_min = 0;
  vxlan_gid_max = 0;
  vxlan_vid = 0;
  vxlan_vid_inc = 0;
  vxlan_vid_min = 0;
  vxlan_vid_max = 0;
  vni_flags = 0;
}

abbrev mac : EtherAddr
mac = record { b0 = 2; b1 = 0; b2 = 0; b3 = 0; b4 = 1; b5 = 254 }

abbrev single : PktSeq
single = record {
  eth_dst_addr = mac;
  eth_src_addr = mac;
  ip_src_addr = 0xc0a80001;
  ip_src_ipv6 = zeros;
  ip_src_prefixlen = 24;
  ip_dst_addr = 0xc0a80101;
  ip_dst_ipv6 = zeros;
  ip_dst_prefixlen = 32;
  ip_mask = 0;
  sport = 0;
  dport = 0;
  eth_type = 2048;
  ip_proto = 6;
  vlanid = 1;
  cos = 0;
  tos = 0;
  ether_hdr_size = 0;
  tcp_seq = 4660;
  tcp_ack = 22136;
  tcp_flags = 0;
  mpls_entry = 0;
  qinq_outerid = 0;
  qinq_innerid = 0;
  gre_key = 0;
  pkt_size = 60;
  seq_enabled = 0;
  ttl = 64;
  gtpu_teid = 0;
  vni_flags = 0;
  group_id = 0;
  vxlan_id = 0;
  ol_flags = 0;
}

abbrev fresh : FirstSteps
fresh = record {
  min_vlan_set4 = 0;
  min_cos_set4 = 0;
  min_tos_set4 = 0;
  min_vlan_set6 = 0;
  min_cos_set6 = 0;
  min_traffic_class_set6 = 0;
}

abbrev default : RangeInfo
unfolding pktgen_range_setup inet_mtoh64
default = (pktgen_range_setup lens blank single 0 0 false).0

pktgen_range_setup-IsValidRange_example :
    IsValidRange (pktgen_range_setup lens blank single 0 0 false).0
pktgen_range_setup-IsValidRange_example =
    pktgen_range_setup-IsValidRange lens blank single 0 0 false (omega arith) (omega arith)
      (omega arith)

-- VLAN identifiers from 10 to 12, and MAC addresses over a byte's end.
abbrev vlans : RangeInfo
vlans = record blank {
  src_port_max = 65535;
  dst_port_min = 100;
  dst_port = 100;
  dst_port_max = 200;
  dst_port_inc = 50;
  src_port_inc = 1;
  src_ip_inc = 1;
  src_ip_min = 0xc0a80001;
  src_ip = 0xc0a80001;
  src_ip_max = 0xc0a800fe;
  dst_ip_inc = 2;
  dst_ip_min = 0xc0a80101;
  dst_ip = 0xc0a80101;
  dst_ip_max = 0xc0a801fe;
  vlan_id_inc = 1;
  vlan_id_min = 1;
  vlan_id = 1;
  vlan_id_max = 12;
  src_mac_inc = 4;
  src_mac_min = 2;
  src_mac = 2;
  src_mac_max = 0x0200000002ff;
  tcp_seq_max = 5000;
  tcp_seq_inc = 500;
}

vlans-IsValidRange : IsValidRange vlans
vlans-IsValidRange = omega arith

pktgen_range_ctor-InRange4_example : InRange4 vlans (pktgen_range_ctor vlans fresh single).1
pktgen_range_ctor-InRange4_example =
    pktgen_range_ctor-InRange4 vlans fresh single vlans-IsValidRange refl refl

-- The first VLAN step from 1 stays at 1; the sequence number wraps.
ctor_run :
    let q = (pktgen_range_ctor vlans fresh single).1 in
    (q.vlanid ≡ 1) × (q.tcp_seq ≡ 0) × (q.eth_src_addr.b4 ≡ 2) × (q.eth_src_addr.b5 ≡ 2)
unfolding pktgen_range_ctor step_tcp step_tcp_seq step_tcp_ack advance_if advance range_ipv4
    step_sport4 step_dport4 step_ttl4 step_src_ip4 step_dst_ip4 step_gtpu4 step_vlan4 step_cos4
    step_tos4 step_pkt_size4 step_src_mac4 step_dst_mac4 step_vxlan_gid4 step_vxlan_vid4 inet_mtoh64
    inet_h64tom
ctor_run = (refl, refl, refl, refl)

abbrev single6 : PktSeq
single6 = record single { eth_type = 0x86dd; sport = 65535 }

abbrev stepped6 : RangeInfo
stepped6 = record vlans {
  src_port_min = 1000;
  src_port = 1000;
  src_ipv6_max = 255 ∷ 0 ∷ 0 ∷ 0 ∷ 0 ∷ 0 ∷ 0 ∷ 0 ∷ 0 ∷ 0 ∷ 0 ∷ 0 ∷ 0 ∷ 0 ∷ 0 ∷ 0 ∷ [];
  src_ipv6_inc = 0 ∷ 0 ∷ 0 ∷ 0 ∷ 0 ∷ 0 ∷ 0 ∷ 0 ∷ 0 ∷ 0 ∷ 0 ∷ 0 ∷ 0 ∷ 0 ∷ 0 ∷ 1 ∷ [];
}

pktgen_range_ctor-InRange6_example : InRange6 stepped6 (pktgen_range_ctor stepped6 fresh single6).1
pktgen_range_ctor-InRange6_example =
    pktgen_range_ctor-InRange6 stepped6 fresh single6 (omega arith)
      (record {
        src_ok = omega arith;
        dst_ok = omega arith;
        src_inc_ok = omega arith;
        dst_inc_ok = omega arith;
        src_addr_ok = omega arith;
        dst_addr_ok = omega arith;
      })
      refl refl

range_run_ports4_example :
    let q = (range_run vlans 4 (fresh, record single { dport = 100 })).1 in
    (q.sport ≡ 4) × (q.dport ≡ 150)
range_run_ports4_example =
    range_run_ports4 vlans 4 fresh (record single { dport = 100 }) (refl, refl) (omega arith)
      (omega arith) (omega arith) (omega arith) refl refl

range_run_addrs4_example :
    let q = (range_run vlans 255 (fresh, single)).1 in
    (q.ip_src_addr ≡ 0xc0a80002) × (q.ip_dst_addr ≡ 0xc0a80103)
range_run_addrs4_example =
    range_run_addrs4 vlans 255 fresh single (refl, refl) (omega arith) (omega arith) refl refl

abbrev vxlan : RangeInfo
vxlan = record vlans { vxlan_vid_inc = 1; vxlan_vid_min = 7; vxlan_vid_max = 9 }
