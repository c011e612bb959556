-- ===== src/Range/Safety.antt =====
-- pktgen_range_ctor as a whole: every kind of packet, and what stays as it was.
use pktgen_dpdk.Range.State.{RangeInfo, PktSeq, FirstSteps}
use pktgen_dpdk.Range.Counter.{Within, field-Within, advance_if-eq-advance}
use pktgen_dpdk.Base.{◌≡◌, true, arith, false, ◌^◌}
use pktgen_dpdk.Range.Tcp.{pg_ipproto_tcp, step_tcp, step_tcp_seq, step_tcp_ack}
use pktgen_dpdk.Range.Ctor.{
  ether_type_ipv4, ether_type_ipv6, is_tcp_or_udp, range_ipv4, range_ipv6, pktgen_range_ctor,
}
use pktgen_dpdk.Range.Fields4.{range_ipv4-Fields4}
use pktgen_dpdk.Range.Fields6.{range_ipv6-Fields6}
use pktgen_dpdk.Range.Bounds4.{IsValidRange, InRange4, range_ipv4-InRange4}
use pktgen_dpdk.Range.Bounds6.{IsValidRange6, InRange6, range_ipv6-InRange6}

-- The TCP step leaves what the later steps read.
record KeepsRest (p q : PktSeq) : Type 0 where
  kind : (q.eth_type ≡ p.eth_type) × (q.ip_proto ≡ p.ip_proto)
  addr6 : (q.ip_src_ipv6 ≡ p.ip_src_ipv6) × (q.ip_dst_ipv6 ≡ p.ip_dst_ipv6)

step_tcp-KeepsRest : (r : RangeInfo) (p : PktSeq) → KeepsRest p (step_tcp r p)
unfolding step_tcp step_tcp_seq step_tcp_ack
step_tcp-KeepsRest r p = ground arith

step_tcp-IsValidRange6 :
    (r : RangeInfo) (p : PktSeq) → IsValidRange6 r p → IsValidRange6 r (step_tcp r p)
step_tcp-IsValidRange6 r p v =
    let k = step_tcp-KeepsRest r p in
    record {
      src_ok = v.src_ok;
      dst_ok = v.dst_ok;
      src_inc_ok = v.src_inc_ok;
      dst_inc_ok = v.dst_inc_ok;
      src_addr_ok = rw k.addr6.0 v.src_addr_ok;
      dst_addr_ok = rw k.addr6.1 v.dst_addr_ok;
    }

pub ctor_ipv4 :
    (r : RangeInfo) (fs : FirstSteps) (p : PktSeq)
    → p.eth_type ≡ ether_type_ipv4
    → is_tcp_or_udp p.ip_proto ≡ true
    → pktgen_range_ctor r fs p ≡ range_ipv4 r fs (step_tcp r p)
unfolding pktgen_range_ctor
ctor_ipv4 r fs p e t = let k = step_tcp-KeepsRest r p in rw (k.kind.0, k.kind.1, e, t)

pub ctor_ipv6 :
    (r : RangeInfo) (fs : FirstSteps) (p : PktSeq)
    → p.eth_type ≡ ether_type_ipv6
    → is_tcp_or_udp p.ip_proto ≡ true
    → pktgen_range_ctor r fs p ≡ range_ipv6 r fs (step_tcp r p)
unfolding pktgen_range_ctor
ctor_ipv6 r fs p e t = let k = step_tcp-KeepsRest r p in rw (k.kind.0, k.kind.1, e, t)

-- An IPv4 packet of TCP or UDP leaves pktgen_range_ctor with ports, time to live, VLAN, CoS, ToS,
-- size, MAC and IP addresses between their least and greatest values, whatever the packet and the
-- increments were, if every field's starting value lies in its range and the range fits the field.
pub pktgen_range_ctor-InRange4 :
    (r : RangeInfo) (fs : FirstSteps) (p : PktSeq)
    → IsValidRange r
    → p.eth_type ≡ ether_type_ipv4
    → is_tcp_or_udp p.ip_proto ≡ true
    → InRange4 r (pktgen_range_ctor r fs p).1
pktgen_range_ctor-InRange4 r fs p ok e t =
    rw (ctor_ipv4 r fs p e t) (range_ipv4-InRange4 r fs (step_tcp r p) ok)

-- An IPv6 packet of TCP or UDP leaves pktgen_range_ctor with the shared fields in their ranges and its
-- addresses, as 128-bit numbers, between their least and greatest values, if every starting value lies
-- in its range, the range fits the field (those of the MAC addresses where they are stepped), and the
-- addresses of the ranges, their increments and the addresses of the packet have 16 bytes each.
pub pktgen_range_ctor-InRange6 :
    (r : RangeInfo) (fs : FirstSteps) (p : PktSeq)
    → IsValidRange r
    → IsValidRange6 r p
    → p.eth_type ≡ ether_type_ipv6
    → is_tcp_or_udp p.ip_proto ≡ true
    → InRange6 r (pktgen_range_ctor r fs p).1
pktgen_range_ctor-InRange6 r fs p ok v e t =
    rw (ctor_ipv6 r fs p e t)
      (range_ipv6-InRange6 r fs (step_tcp r p) ok (step_tcp-IsValidRange6 r p v))

step_tcp-Within :
    (r : RangeInfo) (p : PktSeq)
    → IsValidRange r
    → p.ip_proto ≡ pg_ipproto_tcp
    → Within r.tcp_seq_min r.tcp_seq_max (step_tcp r p).tcp_seq
      × Within r.tcp_ack_min r.tcp_ack_max (step_tcp r p).tcp_ack
unfolding step_tcp step_tcp_seq step_tcp_ack
step_tcp-Within r p ok e =
    rw
      (
        e,
        advance_if-eq-advance (2 ^ 32) r.tcp_seq_inc r.tcp_seq_min r.tcp_seq_max p.tcp_seq,
        advance_if-eq-advance (2 ^ 32) r.tcp_ack_inc r.tcp_ack_min r.tcp_ack_max p.tcp_ack,
      )
      (
        (field-Within (2 ^ 32) (2 ^ 32) r.tcp_seq_inc _ _ _ p.tcp_seq ok.tcp_seq_ok).0,
        (field-Within (2 ^ 32) (2 ^ 32) r.tcp_ack_inc _ _ _ p.tcp_ack ok.tcp_ack_ok).0,
      )

ctor_tcp :
    (r : RangeInfo) (fs : FirstSteps) (p : PktSeq)
    → ((pktgen_range_ctor r fs p).1.tcp_seq ≡ (step_tcp r p).tcp_seq)
      × ((pktgen_range_ctor r fs p).1.tcp_ack ≡ (step_tcp r p).tcp_ack)
unfolding pktgen_range_ctor
ctor_tcp r fs p =
    let q = step_tcp r p in
    ground (arith, (range_ipv4-Fields4 r fs q).tcp_eq, (range_ipv6-Fields6 r fs q).tcp_eq)

-- A TCP packet of any Ethernet type leaves pktgen_range_ctor with sequence and acknowledgement
-- numbers in their ranges.
pub pktgen_range_ctor_tcp :
    (r : RangeInfo) (fs : FirstSteps) (p : PktSeq)
    → IsValidRange r
    → p.ip_proto ≡ pg_ipproto_tcp
    → Within r.tcp_seq_min r.tcp_seq_max (pktgen_range_ctor r fs p).1.tcp_seq
      × Within r.tcp_ack_min r.tcp_ack_max (pktgen_range_ctor r fs p).1.tcp_ack
pktgen_range_ctor_tcp r fs p ok e =
    rw ((ctor_tcp r fs p).0, (ctor_tcp r fs p).1) (step_tcp-Within r p ok e)

-- A packet that is neither TCP nor UDP is left as it was, and so are the flags of the first steps.
pub pktgen_range_ctor_other :
    (r : RangeInfo) (fs : FirstSteps) (p : PktSeq)
    → is_tcp_or_udp p.ip_proto ≡ false
    → pktgen_range_ctor r fs p ≡ (fs, p)
unfolding pktgen_range_ctor step_tcp
pktgen_range_ctor_other r fs p e = ground arith
