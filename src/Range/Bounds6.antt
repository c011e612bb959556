-- ===== src/Range/Bounds6.antt =====
-- A stepped IPv6 packet stays in the configured ranges.
use pktgen_dpdk.Range.State.{RangeInfo, PktSeq, FirstSteps}
use pktgen_dpdk.Range.Ipv6.{
  step_sport6, step_dport6, step_hop_limits6, step_src_ipv6, step_dst_ipv6, step_vlan6, step_cos6,
  step_traffic_class6, step_pkt_size6, step_src_mac6, step_dst_mac6,
}
use pktgen_dpdk.Range.Ipv6.{advance6}
use pktgen_dpdk.Range.Ctor.{range_ipv6}
use pktgen_dpdk.Range.Fields6.{range_ipv6-Fields6}
use pktgen_dpdk.Range.Counter.{Within, field-Within, advance_if-eq-advance}
use pktgen_dpdk.Range.Bounds4.{IsValidRange, InRange, low_bits}
use pktgen_dpdk.Inet.Addr6.{addr_value, AllBytes, memcmp_lt_lem}
use pktgen_dpdk.Inet.Addr6.{
  inet6_addr_is_unspecified, inet6_addr_add, inet6_addr_add-AllBytes, length-inet6_addr_add,
}
use pktgen_dpdk.Base.{
  ℕ, List, Bool, true, false, length, sym, ◌∙◌, ◌≡◌, ◌≤◌, arith, if◌then◌else◌, ◌==◌, ◌&&◌, ◌^◌,
  ◌<◌,
}
use pktgen_dpdk.Inet.Mac.{inet_mtoh64, inet_mtoh64-inet_h64tom}

-- The bytes of an address that starts between the least and the greatest.
pub record IsRange6 (lo start hi : List ℕ) : Type 0 where
  pub lo_bytes : AllBytes lo
  pub start_bytes : AllBytes start
  pub hi_bytes : AllBytes hi
  pub lo_length : length lo ≡ 16
  pub start_length : length start ≡ 16
  pub hi_length : length hi ≡ 16
  pub lo_le : addr_value lo ≤ addr_value start
  pub start_le : addr_value start ≤ addr_value hi

pub record IsAddr6 (a : List ℕ) : Type 0 where
  pub bytes : AllBytes a
  pub size : length a ≡ 16

pub record InRange6 (r : RangeInfo) (q : PktSeq) : Type 0 where
  pub shared : InRange r q
  pub src_ipv6_in :
      Within (addr_value r.src_ipv6_min) (addr_value r.src_ipv6_max) (addr_value q.ip_src_ipv6)
  pub dst_ipv6_in :
      Within (addr_value r.dst_ipv6_min) (addr_value r.dst_ipv6_max) (addr_value q.ip_dst_ipv6)

-- The two addresses of a range, the increments and the packet's addresses have 16 bytes each.
pub record IsValidRange6 (r : RangeInfo) (p : PktSeq) : Type 0 where
  pub src_ok : IsRange6 r.src_ipv6_min r.src_ipv6 r.src_ipv6_max
  pub dst_ok : IsRange6 r.dst_ipv6_min r.dst_ipv6 r.dst_ipv6_max
  pub src_inc_ok : IsAddr6 r.src_ipv6_inc
  pub dst_inc_ok : IsAddr6 r.dst_ipv6_inc
  pub src_addr_ok : IsAddr6 p.ip_src_ipv6
  pub dst_addr_ok : IsAddr6 p.ip_dst_ipv6

advance6-Within :
    (inc lo start hi cur : List ℕ)
    → IsRange6 lo start hi
    → IsAddr6 inc
    → IsAddr6 cur
    → Within (addr_value lo) (addr_value hi) (addr_value (advance6 inc lo hi cur))
unfolding advance6
advance6-Within inc lo start hi cur ok i c =
    let p = inet6_addr_add cur inc in
    let len : length p ≡ 16 =
      length-inet6_addr_add cur inc (c.size ∙ sym i.size) c.bytes i.bytes ∙ c.size in
    let by = inet6_addr_add-AllBytes cur inc in
    ground (
      arith,
      memcmp_lt_lem p lo (len ∙ sym ok.lo_length) by ok.lo_bytes,
      memcmp_lt_lem hi p (ok.hi_length ∙ sym len) ok.hi_bytes by,
      ok.lo_le,
      ok.start_le,
    )

-- A field that stays at its starting value when the increment is zero.
field6-Within :
    (b : Bool) (inc lo start hi cur : List ℕ)
    → IsRange6 lo start hi
    → IsAddr6 inc
    → IsAddr6 cur
    → Within
        (addr_value lo)
        (addr_value hi)
        (addr_value (if b then start else advance6 inc lo hi cur))
field6-Within true inc lo start hi cur ok i c = (ok.lo_le, ok.start_le)
field6-Within false inc lo start hi cur ok i c = advance6-Within inc lo start hi cur ok i c

module _ (r : RangeInfo) (ok : IsValidRange r) (p : PktSeq) where
  step_sport6-Within : Within r.src_port_min r.src_port_max (step_sport6 r p).sport
  unfolding step_sport6
  step_sport6-Within =
      rw (advance_if-eq-advance 65536 r.src_port_inc r.src_port_min r.src_port_max p.sport)
        (field-Within 65536 65536 r.src_port_inc _ _ _ p.sport ok.src_port_ok).0

  step_dport6-Within : Within r.dst_port_min r.dst_port_max (step_dport6 r p).dport
  unfolding step_dport6
  step_dport6-Within =
      rw (advance_if-eq-advance 65536 r.dst_port_inc r.dst_port_min r.dst_port_max p.dport)
        (field-Within 65536 65536 r.dst_port_inc _ _ _ p.dport ok.dst_port_ok).0

  step_hop_limits6-Within : Within r.ttl_min r.ttl_max (step_hop_limits6 r p).ttl
  unfolding step_hop_limits6
  step_hop_limits6-Within =
      rw (advance_if-eq-advance 256 r.ttl_inc r.ttl_min r.ttl_max p.ttl)
        (field-Within 256 256 r.ttl_inc _ _ _ p.ttl ok.ttl_ok).0

  step_vlan6-Within :
      (fs : FirstSteps) → Within r.vlan_id_min r.vlan_id_max (step_vlan6 r (fs, p)).1.vlanid
  unfolding step_vlan6
  step_vlan6-Within fs =
      (field-Within (2 ^ 32) 65536 r.vlan_id_inc _ _ _
        (if p.vlanid == 1 && fs.min_vlan_set6 == 0 then 0 else p.vlanid) ok.vlan_id_ok).1

  step_cos6-Within : (fs : FirstSteps) → Within r.cos_min r.cos_max (step_cos6 r (fs, p)).1.cos
  unfolding step_cos6
  step_cos6-Within fs =
      (field-Within (2 ^ 32) 256 r.cos_inc _ _ _
        (if p.cos == 0 && fs.min_cos_set6 == 0 then 0 else p.cos) ok.cos_ok).1

  step_traffic_class6-Within :
      (fs : FirstSteps) → Within r.tos_min r.tos_max (step_traffic_class6 r (fs, p)).1.tos
  unfolding step_traffic_class6
  step_traffic_class6-Within fs =
      (field-Within (2 ^ 32) 256 r.tos_inc _ _ _
        (if p.tos == 0 && fs.min_traffic_class_set6 == 0 then 0 else p.tos) ok.tos_ok).1

  step_pkt_size6-Within : Within r.pkt_size_min r.pkt_size_max (step_pkt_size6 r p).pkt_size
  unfolding step_pkt_size6
  step_pkt_size6-Within =
      (field-Within (2 ^ 32) 65536 r.pkt_size_inc _ _ _ p.pkt_size ok.pkt_size_ok).1

  step_src_mac6-Within :
      0 < r.src_mac_inc
      → Within r.src_mac_min r.src_mac_max (inet_mtoh64 (step_src_mac6 r p).eth_src_addr)
  unfolding step_src_mac6
  step_src_mac6-Within h = rw inet_mtoh64-inet_h64tom (
      low_bits _ _ _ _
        (field-Within (2 ^ 64) (2 ^ 48) r.src_mac_inc _ _ _ (inet_mtoh64 p.eth_src_addr)
          (ok.src_mac_ok h)).0
        (ok.src_mac_ok h))

  step_src_ipv6-Within :
      IsValidRange6 r p
      → Within
          (addr_value r.src_ipv6_min)
          (addr_value r.src_ipv6_max)
          (addr_value (step_src_ipv6 r p).ip_src_ipv6)
  unfolding step_src_ipv6
  step_src_ipv6-Within v =
      field6-Within (inet6_addr_is_unspecified r.src_ipv6_inc) _ _ _ _ _ v.src_ok v.src_inc_ok
        v.src_addr_ok

  step_dst_mac6-Within :
      0 < r.dst_mac_inc
      → Within r.dst_mac_min r.dst_mac_max (inet_mtoh64 (step_dst_mac6 r p).eth_dst_addr)
  unfolding step_dst_mac6
  step_dst_mac6-Within h = rw inet_mtoh64-inet_h64tom (
      low_bits _ _ _ _
        (field-Within (2 ^ 64) (2 ^ 48) r.dst_mac_inc _ _ _ (inet_mtoh64 p.eth_dst_addr)
          (ok.dst_mac_ok h)).0
        (ok.dst_mac_ok h))

  step_dst_ipv6-Within :
      IsValidRange6 r p
      → Within
          (addr_value r.dst_ipv6_min)
          (addr_value r.dst_ipv6_max)
          (addr_value (step_dst_ipv6 r p).ip_dst_ipv6)
  unfolding step_dst_ipv6
  step_dst_ipv6-Within v =
      field6-Within (inet6_addr_is_unspecified r.dst_ipv6_inc) _ _ _ _ _ v.dst_ok v.dst_inc_ok
        v.dst_addr_ok

pub range_ipv6-InRange6 :
    (r : RangeInfo) (fs : FirstSteps) (p : PktSeq)
    → IsValidRange r
    → IsValidRange6 r p
    → InRange6 r (range_ipv6 r fs p).1
range_ipv6-InRange6 r fs p ok v =
    let e = range_ipv6-Fields6 r fs p in
    record {
      shared = record {
        sport_in = rw e.sport_eq (step_sport6-Within r ok p);
        dport_in = rw e.dport_eq (step_dport6-Within r ok p);
        ttl_in = rw e.ttl_eq (step_hop_limits6-Within r ok p);
        vlanid_in = rw e.vlanid_eq (step_vlan6-Within r ok p fs);
        cos_in = rw e.cos_eq (step_cos6-Within r ok p fs);
        tos_in = rw e.tos_eq (step_traffic_class6-Within r ok p fs);
        pkt_size_in = rw e.pkt_size_eq (step_pkt_size6-Within r ok p);
        src_mac_in = λ h. rw e.eth_src_addr_eq (step_src_mac6-Within r ok p h);
        dst_mac_in = λ h. rw e.eth_dst_addr_eq (step_dst_mac6-Within r ok p h);
      };
      src_ipv6_in = rw e.ip_src_ipv6_eq (step_src_ipv6-Within r ok p v);
      dst_ipv6_in = rw e.ip_dst_ipv6_eq (step_dst_ipv6-Within r ok p v);
    }
