-- ===== src/Range/State.antt =====
-- range_info_t of app/pktgen-range.h and the fields of pkt_seq_t of app/pktgen-seq.h.
-- A union of an IPv4 and an IPv6 member is two fields here: a packet's Ethernet type decides which
-- of them its code reads and writes. `tos` and `ttl` also stand for `traffic_class` and
-- `hop_limits`, the same bytes under another name.
use pktgen_dpdk.Base.{ℕ, List}
use pktgen_dpdk.Inet.Mac.{EtherAddr}

-- `uint8_t`, `uint16_t`, `uint32_t` and `uint64_t` fields are numbers below the type's modulus;
-- an IPv6 address is its 16 bytes.
pub record RangeInfo : Type 0 where
  pub src_ip_inc : ℕ
  pub dst_ip_inc : ℕ
  pub src_ipv6_inc : List ℕ
  pub dst_ipv6_inc : List ℕ
  pub src_port_inc : ℕ
  pub dst_port_inc : ℕ
  pub vlan_id_inc : ℕ
  pub tcp_seq_inc : ℕ
  pub tcp_ack_inc : ℕ
  pub tos_inc : ℕ
  pub cos_inc : ℕ
  pub pkt_size_inc : ℕ
  pub src_mac_inc : ℕ
  pub dst_mac_inc : ℕ
  pub ttl_inc : ℕ
  pub src_ip : ℕ
  pub src_ip_min : ℕ
  pub src_ip_max : ℕ
  pub src_ipv6 : List ℕ
  pub src_ipv6_min : List ℕ
  pub src_ipv6_max : List ℕ
  pub dst_ip : ℕ
  pub dst_ip_min : ℕ
  pub dst_ip_max : ℕ
  pub dst_ipv6 : List ℕ
  pub dst_ipv6_min : List ℕ
  pub dst_ipv6_max : List ℕ
  pub ip_proto : ℕ
  pub src_port : ℕ
  pub src_port_min : ℕ
  pub src_port_max : ℕ
  pub dst_port : ℕ
  pub dst_port_min : ℕ
  pub dst_port_max : ℕ
  pub tcp_flags : ℕ
  pub tcp_seq : ℕ
  pub tcp_seq_min : ℕ
  pub tcp_seq_max : ℕ
  pub tcp_ack : ℕ
  pub tcp_ack_min : ℕ
  pub tcp_ack_max : ℕ
  pub vlan_id : ℕ
  pub vlan_id_min : ℕ
  pub vlan_id_max : ℕ
  pub cos : ℕ
  pub cos_min : ℕ
  pub cos_max : ℕ
  pub tos : ℕ
  pub tos_min : ℕ
  pub tos_max : ℕ
  pub pkt_size : ℕ
  pub pkt_size_min : ℕ
  pub pkt_size_max : ℕ
  pub dst_mac : ℕ
  pub dst_mac_min : ℕ
  pub dst_mac_max : ℕ
  pub src_mac : ℕ
  pub src_mac_min : ℕ
  pub src_mac_max : ℕ
  pub ttl : ℕ
  pub ttl_min : ℕ
  pub ttl_max : ℕ
  pub gtpu_teid : ℕ
  pub gtpu_teid_inc : ℕ
  pub gtpu_teid_min : ℕ
  pub gtpu_teid_max : ℕ
  pub vxlan_gid : ℕ
  pub vxlan_gid_inc : ℕ
  pub vxlan_gid_min : ℕ
  pub vxlan_gid_max : ℕ
  pub vxlan_vid : ℕ
  pub vxlan_vid_inc : ℕ
  pub vxlan_vid_min : ℕ
  pub vxlan_vid_max : ℕ
  pub vni_flags : ℕ

-- Without `hdr`, the pointer to the header bytes. Of `cmdline_ipaddr` the address and the length
-- of its prefix.
pub record PktSeq : Type 0 where
  pub eth_dst_addr : EtherAddr
  pub eth_src_addr : EtherAddr
  pub ip_src_addr : ℕ
  pub ip_src_ipv6 : List ℕ
  pub ip_src_prefixlen : ℕ
  pub ip_dst_addr : ℕ
  pub ip_dst_ipv6 : List ℕ
  pub ip_dst_prefixlen : ℕ
  pub ip_mask : ℕ
  pub sport : ℕ
  pub dport : ℕ
  pub eth_type : ℕ
  pub ip_proto : ℕ
  pub vlanid : ℕ
  pub cos : ℕ
  pub tos : ℕ
  pub ether_hdr_size : ℕ
  pub tcp_seq : ℕ
  pub tcp_ack : ℕ
  pub tcp_flags : ℕ
  pub mpls_entry : ℕ
  pub qinq_outerid : ℕ
  pub qinq_innerid : ℕ
  pub gre_key : ℕ
  pub pkt_size : ℕ
  pub seq_enabled : ℕ
  pub ttl : ℕ
  pub gtpu_teid : ℕ
  pub vni_flags : ℕ
  pub group_id : ℕ
  pub vxlan_id : ℕ
  pub ol_flags : ℕ

-- The `static uint8_t` flags of pktgen_range_ctor, one for each block that declares it: whether the
-- first step from the least value was made. They are shared by all ports.
pub record FirstSteps : Type 0 where
  pub min_vlan_set4 : ℕ
  pub min_cos_set4 : ℕ
  pub min_tos_set4 : ℕ
  pub min_vlan_set6 : ℕ
  pub min_cos_set6 : ℕ
  pub min_traffic_class_set6 : ℕ
