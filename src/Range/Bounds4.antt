-- ===== src/Range/Bounds4.antt =====
-- A stepped IPv4 packet stays in the configured ranges.
use pktgen_dpdk.Base.{ℕ, ◌%◌, ◌^◌, ◌&&◌, arith, ◌==◌, if◌then◌else◌, ◌<◌}
use pktgen_dpdk.Inet.Mac.{inet_mtoh64, inet_mtoh64-inet_h64tom}
use pktgen_dpdk.Range.State.{RangeInfo, PktSeq, FirstSteps}
use pktgen_dpdk.Range.Counter.{field-Within, Within, IsRange, advance_if-eq-advance}
use pktgen_dpdk.Range.Ipv4.{
  step_sport4, step_dport4, step_ttl4, step_src_ip4, step_dst_ip4, step_vlan4, step_cos4, step_tos4,
  step_pkt_size4, step_src_mac4, step_dst_mac4,
}
use pktgen_dpdk.Range.Ctor.{range_ipv4}
use pktgen_dpdk.Range.Fields4.{range_ipv4-Fields4}

-- Each field starts in its range, and the range fits in the packet's field.
pub record IsValidRange (r : RangeInfo) : Type 0 where
  pub src_port_ok : IsRange 65536 r.src_port_min r.src_port r.src_port_max
  pub dst_port_ok : IsRange 65536 r.dst_port_min r.dst_port r.dst_port_max
  pub ttl_ok : IsRange 256 r.ttl_min r.ttl r.ttl_max
  pub src_ip_ok : IsRange (2 ^ 32) r.src_ip_min r.src_ip r.src_ip_max
  pub dst_ip_ok : IsRange (2 ^ 32) r.dst_ip_min r.dst_ip r.dst_ip_max
  pub vlan_id_ok : IsRange 65536 r.vlan_id_min r.vlan_id r.vlan_id_max
  pub cos_ok : IsRange 256 r.cos_min r.cos r.cos_max
  pub tos_ok : IsRange 256 r.tos_min r.tos r.tos_max
  pub pkt_size_ok : IsRange 65536 r.pkt_size_min r.pkt_size r.pkt_size_max
  pub src_mac_ok : 0 < r.src_mac_inc → IsRange (2 ^ 48) r.src_mac_min r.src_mac r.src_mac_max
  pub dst_mac_ok : 0 < r.dst_mac_inc → IsRange (2 ^ 48) r.dst_mac_min r.dst_mac r.dst_mac_max
  pub vxlan_gid_ok : IsRange 65536 r.vxlan_gid_min r.vxlan_gid r.vxlan_gid_max
  pub tcp_seq_ok : IsRange (2 ^ 32) r.tcp_seq_min r.tcp_seq r.tcp_seq_max
  pub tcp_ack_ok : IsRange (2 ^ 32) r.tcp_ack_min r.tcp_ack r.tcp_ack_max
  pub gtpu_teid_ok : IsRange (2 ^ 32) r.gtpu_teid_min r.gtpu_teid r.gtpu_teid_max

-- The fields that both kinds of packet share.
pub record InRange (r : RangeInfo) (q : PktSeq) : Type 0 where
  pub sport_in : Within r.src_port_min r.src_port_max q.sport
  pub dport_in : Within r.dst_port_min r.dst_port_max q.dport
  pub ttl_in : Within r.ttl_min r.ttl_max q.ttl
  pub vlanid_in : Within r.vlan_id_min r.vlan_id_max q.vlanid
  pub cos_in : Within r.cos_min r.cos_max q.cos
  pub tos_in : Within r.tos_min r.tos_max q.tos
  pub pkt_size_in : Within r.pkt_size_min r.pkt_size_max q.pkt_size
  pub src_mac_in :
      0 < r.src_mac_inc → Within r.src_mac_min r.src_mac_max (inet_mtoh64 q.eth_src_addr)
  pub dst_mac_in :
      0 < r.dst_mac_inc → Within r.dst_mac_min r.dst_mac_max (inet_mtoh64 q.eth_dst_addr)

pub record InRange4 (r : RangeInfo) (q : PktSeq) : Type 0 where
  pub shared : InRange r q
  pub src_ip_in : Within r.src_ip_min r.src_ip_max q.ip_src_addr
  pub dst_ip_in : Within r.dst_ip_min r.dst_ip_max q.ip_dst_addr

-- A value in a range of 48 bits is not changed by the cut to a MAC address.
pub low_bits :
    (lo start hi x : ℕ) → Within lo hi x → IsRange (2 ^ 48) lo start hi → Within lo hi (x % 2 ^ 48)
low_bits lo start hi x h ok = omega arith

module _ (r : RangeInfo) (ok : IsValidRange r) (p : PktSeq) where
  step_sport4-Within : Within r.src_port_min r.src_port_max (step_sport4 r p).sport
  unfolding step_sport4
  step_sport4-Within =
      rw (advance_if-eq-advance (2 ^ 32) r.src_port_inc r.src_port_min r.src_port_max p.sport)
        (field-Within (2 ^ 32) 65536 r.src_port_inc _ _ _ p.sport ok.src_port_ok).1

  step_dport4-Within : Within r.dst_port_min r.dst_port_max (step_dport4 r p).dport
  unfolding step_dport4
  step_dport4-Within =
      rw (advance_if-eq-advance (2 ^ 32) r.dst_port_inc r.dst_port_min r.dst_port_max p.dport)
        (field-Within (2 ^ 32) 65536 r.dst_port_inc _ _ _ p.dport ok.dst_port_ok).1

  step_ttl4-Within : Within r.ttl_min r.ttl_max (step_ttl4 r p).ttl
  unfolding step_ttl4
  step_ttl4-Within =
      rw (advance_if-eq-advance 65536 r.ttl_inc r.ttl_min r.ttl_max p.ttl)
        (field-Within 65536 256 r.ttl_inc _ _ _ p.ttl ok.ttl_ok).1

  step_vlan4-Within :
      (fs : FirstSteps) → Within r.vlan_id_min r.vlan_id_max (step_vlan4 r (fs, p)).1.vlanid
  unfolding step_vlan4
  step_vlan4-Within fs =
      (field-Within (2 ^ 32) 65536 r.vlan_id_inc _ _ _
        (if p.vlanid == 1 && fs.min_vlan_set4 == 0 then 0 else p.vlanid) ok.vlan_id_ok).1

  step_cos4-Within : (fs : FirstSteps) → Within r.cos_min r.cos_max (step_cos4 r (fs, p)).1.cos
  unfolding step_cos4
  step_cos4-Within fs =
      (field-Within (2 ^ 32) 256 r.cos_inc _ _ _
        (if p.cos == 0 && fs.min_cos_set4 == 0 then 0 else p.cos) ok.cos_ok).1

  step_tos4-Within : (fs : FirstSteps) → Within r.tos_min r.tos_max (step_tos4 r (fs, p)).1.tos
  unfolding step_tos4
  step_tos4-Within fs =
      (field-Within (2 ^ 32) 256 r.tos_inc _ _ _
        (if p.tos == 0 && fs.min_tos_set4 == 0 then 0 else p.tos) ok.tos_ok).1

  step_pkt_size4-Within : Within r.pkt_size_min r.pkt_size_max (step_pkt_size4 r p).pkt_size
  unfolding step_pkt_size4
  step_pkt_size4-Within =
      (field-Within (2 ^ 32) 65536 r.pkt_size_inc _ _ _ p.pkt_size ok.pkt_size_ok).1

  step_src_mac4-Within :
      0 < r.src_mac_inc
      → Within r.src_mac_min r.src_mac_max (inet_mtoh64 (step_src_mac4 r p).eth_src_addr)
  unfolding step_src_mac4
  step_src_mac4-Within h = rw inet_mtoh64-inet_h64tom (
      low_bits _ _ _ _
        (field-Within (2 ^ 64) (2 ^ 48) r.src_mac_inc _ _ _ (inet_mtoh64 p.eth_src_addr)
          (ok.src_mac_ok h)).0
        (ok.src_mac_ok h))

  step_src_ip4-Within : Within r.src_ip_min r.src_ip_max (step_src_ip4 r p).ip_src_addr
  unfolding step_src_ip4
  step_src_ip4-Within =
      (field-Within (2 ^ 32) (2 ^ 32) r.src_ip_inc _ _ _ p.ip_src_addr ok.src_ip_ok).0

  step_dst_mac4-Within :
      0 < r.dst_mac_inc
      → Within r.dst_mac_min r.dst_mac_max (inet_mtoh64 (step_dst_mac4 r p).eth_dst_addr)
  unfolding step_dst_mac4
  step_dst_mac4-Within h = rw inet_mtoh64-inet_h64tom (
      low_bits _ _ _ _
        (field-Within (2 ^ 64) (2 ^ 48) r.dst_mac_inc _ _ _ (inet_mtoh64 p.eth_dst_addr)
          (ok.dst_mac_ok h)).0
        (ok.dst_mac_ok h))

  step_dst_ip4-Within : Within r.dst_ip_min r.dst_ip_max (step_dst_ip4 r p).ip_dst_addr
  unfolding step_dst_ip4
  step_dst_ip4-Within =
      (field-Within (2 ^ 32) (2 ^ 32) r.dst_ip_inc _ _ _ p.ip_dst_addr ok.dst_ip_ok).0

pub range_ipv4-InRange4 :
    (r : RangeInfo) (fs : FirstSteps) (p : PktSeq)
    → IsValidRange r
    → InRange4 r (range_ipv4 r fs p).1
range_ipv4-InRange4 r fs p ok =
    let e = range_ipv4-Fields4 r fs p in
    record {
      shared = record {
        sport_in = rw e.sport_eq (step_sport4-Within r ok p);
        dport_in = rw e.dport_eq (step_dport4-Within r ok p);
        ttl_in = rw e.ttl_eq (step_ttl4-Within r ok p);
        vlanid_in = rw e.vlanid_eq (step_vlan4-Within r ok p fs);
        cos_in = rw e.cos_eq (step_cos4-Within r ok p fs);
        tos_in = rw e.tos_eq (step_tos4-Within r ok p fs);
        pkt_size_in = rw e.pkt_size_eq (step_pkt_size4-Within r ok p);
        src_mac_in = λ h. rw e.eth_src_addr_eq (step_src_mac4-Within r ok p h);
        dst_mac_in = λ h. rw e.eth_dst_addr_eq (step_dst_mac4-Within r ok p h);
      };
      src_ip_in = rw e.ip_src_addr_eq (step_src_ip4-Within r ok p);
      dst_ip_in = rw e.ip_dst_addr_eq (step_dst_ip4-Within r ok p);
    }
