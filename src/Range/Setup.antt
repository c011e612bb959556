-- ===== src/Range/Setup.antt =====
-- pktgen_range_setup of app/pktgen-range.c: the default ranges of a port.
use pktgen_dpdk.Base.{
  true, false, ℕ, ◌+◌, ◌*◌, ◌-◌, ◌/◌, ◌%◌, ◌^◌, ◌≤◌, ◌<◌, List, ◌∷◌, drop, Bool, arith,
  if◌then◌else◌,
}
use pktgen_dpdk.Inet.Mac.{inet_mtoh64}
use pktgen_dpdk.Range.State.{RangeInfo, PktSeq}
use pktgen_dpdk.Range.Bounds4.{IsValidRange}

-- The macro `IPv4(a, b, c, d)`; the four bytes do not overlap, so `|` is a sum.
abbrev pub ipv4_of_bytes : ℕ → ℕ → ℕ → ℕ → ℕ
ipv4_of_bytes a b c d = a % 256 * 2 ^ 24 + b % 256 * 2 ^ 16 + c % 256 * 2 ^ 8 + d % 256

-- MAX_TCP_SEQ_NUMBER and MAX_TCP_ACK_NUMBER
abbrev pub max_tcp_number : ℕ
max_tcp_number = (2 ^ 32 - 1) / 8

-- RTE_ETHER_MIN_LEN, RTE_ETHER_MAX_LEN, RTE_ETHER_MAX_JUMBO_FRAME_LEN and RTE_ETHER_CRC_LEN of DPDK
-- are the parameters `min_len`, `max_len`, `jumbo_len` and `crc_len`.
pub record EtherLens : Type 0 where
  pub min_len : ℕ
  pub max_len : ℕ
  pub jumbo_len : ℕ
  pub crc_len : ℕ

-- The documented sizes: a minimal frame holds a check sum, and the longer frames fit in 16 bits.
pub record IsEtherLens (l : EtherLens) : Type 0 where
  pub crc_le : l.crc_len ≤ l.min_len
  pub min_le : l.min_len ≤ l.max_len
  pub max_le : l.max_len ≤ l.jumbo_len
  pub jumbo_lt : l.jumbo_len < 65536

-- An IPv4 address in the first four bytes of the union with an IPv6 address, the low byte first.
abbrev pub overlay : ℕ → List ℕ → List ℕ
overlay n bytes = n % 256 ∷ n / 2 ^ 8 % 256 ∷ n / 2 ^ 16 % 256 ∷ n / 2 ^ 24 % 256 ∷ drop 4 bytes

-- `single` is `seq_pkt[SINGLE_PKT]`, `jumbo` the test of JUMBO_PKTS_FLAG. `range` is what the record
-- held before: the fields for GTP-U are not written, and of those for IPv6 only the first four bytes,
-- which share the memory of those for IPv4. The second result is the new
-- `seq_pkt[RANGE_PKT].pkt_size`.
unfoldable pub pktgen_range_setup :
    EtherLens → RangeInfo → PktSeq → (pid vni_flags : ℕ) → (jumbo : Bool) → RangeInfo × ℕ
pktgen_range_setup l range single pid vni_flags jumbo = (
  record range {
    ip_proto = single.ip_proto;
    dst_ip = ipv4_of_bytes 192 168 (pid + 1) 1;
    dst_ip_min = ipv4_of_bytes 192 168 (pid + 1) 1;
    dst_ip_max = ipv4_of_bytes 192 168 (pid + 1) 254;
    dst_ip_inc = 1;
    dst_ipv6 = overlay (ipv4_of_bytes 192 168 (pid + 1) 1) range.dst_ipv6;
    dst_ipv6_min = overlay (ipv4_of_bytes 192 168 (pid + 1) 1) range.dst_ipv6_min;
    dst_ipv6_max = overlay (ipv4_of_bytes 192 168 (pid + 1) 254) range.dst_ipv6_max;
    dst_ipv6_inc = overlay 1 range.dst_ipv6_inc;
    src_ip = ipv4_of_bytes 192 168 pid 1;
    src_ip_min = ipv4_of_bytes 192 168 pid 1;
    src_ip_max = ipv4_of_bytes 192 168 pid 254;
    src_ip_inc = 0;
    src_ipv6 = overlay (ipv4_of_bytes 192 168 pid 1) range.src_ipv6;
    src_ipv6_min = overlay (ipv4_of_bytes 192 168 pid 1) range.src_ipv6_min;
    src_ipv6_max = overlay (ipv4_of_bytes 192 168 pid 254) range.src_ipv6_max;
    src_ipv6_inc = overlay 0 range.src_ipv6_inc;
    dst_port = single.dport;
    dst_port_inc = 1;
    dst_port_min = 0;
    dst_port_max = 65535;
    src_port = single.sport;
    src_port_inc = 1;
    src_port_min = 0;
    src_port_max = 65535;
    ttl = single.ttl;
    ttl_inc = 0;
    ttl_min = 0;
    ttl_max = 255;
    vlan_id = single.vlanid;
    vlan_id_inc = 0;
    vlan_id_min = 1;
    vlan_id_max = 4095;
    cos = single.cos;
    cos_inc = 0;
    cos_min = 0;
    cos_max = 7;
    tos = single.tos;
    tos_inc = 0;
    tos_min = 0;
    tos_max = 255;
    pkt_size = l.min_len - l.crc_len;
    pkt_size_inc = 0;
    pkt_size_min = l.min_len - l.crc_len;
    pkt_size_max = (if jumbo then l.jumbo_len else l.max_len) - l.crc_len;
    vxlan_gid = single.group_id;
    vxlan_gid_inc = 0;
    vxlan_gid_min = 0;
    vxlan_gid_max = 65535;
    vxlan_vid = single.vxlan_id;
    vxlan_vid_inc = 0;
    vxlan_vid_min = 0;
    vxlan_vid_max = 65535;
    vni_flags = vni_flags;
    tcp_flags = single.tcp_flags % 256;
    tcp_seq = single.tcp_seq;
    tcp_seq_inc = 0;
    tcp_seq_min = 0;
    tcp_seq_max = max_tcp_number;
    tcp_ack = single.tcp_ack;
    tcp_ack_inc = 0;
    tcp_ack_min = 0;
    tcp_ack_max = max_tcp_number;
    dst_mac = inet_mtoh64 single.eth_dst_addr;
    dst_mac_inc = 0;
    dst_mac_min = 0;
    dst_mac_max = 0;
    src_mac = inet_mtoh64 single.eth_src_addr;
    src_mac_inc = 0;
    src_mac_min = 0;
    src_mac_max = 0;
  },
  l.min_len - l.crc_len,
)

-- A single packet whose fields fit their types, whose VLAN, CoS and TCP numbers are in the ranges
-- that the program allows.
pub record IsValidSingle (p : PktSeq) : Type 0 where
  pub sport_lt : p.sport < 65536
  pub dport_lt : p.dport < 65536
  pub ttl_lt : p.ttl < 256
  pub vlanid_in : (1 ≤ p.vlanid) × (p.vlanid ≤ 4095)
  pub cos_le : p.cos ≤ 7
  pub tos_lt : p.tos < 256
  pub group_id_lt : p.group_id < 65536
  pub seq_le : p.tcp_seq ≤ max_tcp_number
  pub ack_le : p.tcp_ack ≤ max_tcp_number

-- In the default ranges of every port the starting ports, time to live, IPv4 addresses, VLAN, CoS,
-- ToS, packet size, VxLAN group and TCP numbers lie between their bounds, which fit the packet's
-- fields, for a single packet whose fields are in the limits of the program and frame sizes that are in
-- order and fit 16 bits. The GTP-U range is not written, and must be a range before. Nothing is said of
-- MAC addresses, which the defaults do not step, and of the VxLAN identifier.
pub pktgen_range_setup-IsValidRange :
    (l : EtherLens) (range : RangeInfo) (single : PktSeq) (pid vni_flags : ℕ) (jumbo : Bool)
    → IsEtherLens l
    → IsValidSingle single
    → (range.gtpu_teid_min ≤ range.gtpu_teid)
      × (range.gtpu_teid ≤ range.gtpu_teid_max)
      × (range.gtpu_teid_max < 2 ^ 32)
    → IsValidRange (pktgen_range_setup l range single pid vni_flags jumbo).0
unfolding pktgen_range_setup
pktgen_range_setup-IsValidRange l range single pid vni_flags true lok ok g = omega arith
pktgen_range_setup-IsValidRange l range single pid vni_flags false lok ok g = omega arith
