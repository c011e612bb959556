-- ===== src/Range/Steps4.antt =====
-- What one call of pktgen_range_ctor of app/pktgen-range.c does to the ports and addresses of an IPv4 packet.
use pktgen_dpdk.Range.State.{RangeInfo, PktSeq, FirstSteps}
use pktgen_dpdk.Range.Counter.{advance, advance_if-eq-advance}
use pktgen_dpdk.Range.Tcp.{step_tcp, step_tcp_seq, step_tcp_ack}
use pktgen_dpdk.Range.Ipv4.{step_sport4, step_dport4, step_src_ip4, step_dst_ip4}
use pktgen_dpdk.Range.Ctor.{
  ether_type_ipv4, ether_type_ipv6, is_tcp_or_udp, range_ipv4, pktgen_range_ctor,
}
use pktgen_dpdk.Range.Fields4.{range_ipv4-Fields4}
use pktgen_dpdk.Range.Safety.{ctor_ipv4}
use pktgen_dpdk.Base.{◌∙◌, ◌^◌, ◌<◌, ◌≡◌, true, arith, u16, ap}

abbrev pub IsIpv4 : PktSeq → Type 0
IsIpv4 p = (p.eth_type ≡ ether_type_ipv4) × (is_tcp_or_udp p.ip_proto ≡ true)

abbrev pub IsIpv6 : PktSeq → Type 0
IsIpv6 p = (p.eth_type ≡ ether_type_ipv6) × (is_tcp_or_udp p.ip_proto ≡ true)

-- What one call makes of the fields below.
pub record Step4 (r : RangeInfo) (p q : PktSeq) : Type 0 where
  pub kind : IsIpv4 q
  pub sport_eq :
      0 < r.src_port_inc
      → q.sport ≡ u16 (advance (2 ^ 32) r.src_port_inc r.src_port_min r.src_port_max p.sport)
  pub dport_eq :
      0 < r.dst_port_inc
      → q.dport ≡ u16 (advance (2 ^ 32) r.dst_port_inc r.dst_port_min r.dst_port_max p.dport)
  pub src_ip_eq :
      0 < r.src_ip_inc
      → q.ip_src_addr ≡ advance (2 ^ 32) r.src_ip_inc r.src_ip_min r.src_ip_max p.ip_src_addr
  pub dst_ip_eq :
      0 < r.dst_ip_inc
      → q.ip_dst_addr ≡ advance (2 ^ 32) r.dst_ip_inc r.dst_ip_min r.dst_ip_max p.ip_dst_addr

pub record TcpKeeps (p q : PktSeq) : Type 0 where
  pub kind_eq : (q.eth_type ≡ p.eth_type) × (q.ip_proto ≡ p.ip_proto)
  pub ports_eq : (q.sport ≡ p.sport) × (q.dport ≡ p.dport)
  pub addrs_eq : (q.ip_src_addr ≡ p.ip_src_addr) × (q.ip_dst_addr ≡ p.ip_dst_addr)
  pub vxlan_eq : (q.vxlan_id ≡ p.vxlan_id) × (q.group_id ≡ p.group_id)

pub step_tcp-TcpKeeps : (r : RangeInfo) (p : PktSeq) → TcpKeeps p (step_tcp r p)
unfolding step_tcp step_tcp_seq step_tcp_ack
step_tcp-TcpKeeps r p = ground arith

pub range_ipv4-Step4 :
    (r : RangeInfo) (fs : FirstSteps) (p : PktSeq) → IsIpv4 p → Step4 r p (range_ipv4 r fs p).1
unfolding step_sport4 step_dport4 step_src_ip4 step_dst_ip4
range_ipv4-Step4 r fs p k =
    let f = range_ipv4-Fields4 r fs p in
    record {
      kind = rw (f.kind_eq.0, f.kind_eq.1) k;
      sport_eq = λ h. ground (
        arith,
        f.sport_eq,
        advance_if-eq-advance (2 ^ 32) r.src_port_inc r.src_port_min r.src_port_max p.sport,
      );
      dport_eq = λ h. ground (
        arith,
        f.dport_eq,
        advance_if-eq-advance (2 ^ 32) r.dst_port_inc r.dst_port_min r.dst_port_max p.dport,
      );
      src_ip_eq = λ h. ground (arith, f.ip_src_addr_eq);
      dst_ip_eq = λ h. ground (arith, f.ip_dst_addr_eq);
    }

pub ctor-Step4 :
    (r : RangeInfo) (fs : FirstSteps) (p : PktSeq)
    → IsIpv4 p
    → Step4 r p (pktgen_range_ctor r fs p).1
ctor-Step4 r fs p k =
    let t = step_tcp-TcpKeeps r p in
    let s = range_ipv4-Step4 r fs (step_tcp r p) (rw (t.kind_eq.0, t.kind_eq.1) k) in
    rw (ctor_ipv4 r fs p k.0 k.1) (record {
      kind = s.kind;
      sport_eq = λ h.
          s.sport_eq h
          ∙ ap (λ x. u16 (advance (2 ^ 32) r.src_port_inc r.src_port_min r.src_port_max x))
              t.ports_eq.0;
      dport_eq = λ h.
          s.dport_eq h
          ∙ ap (λ x. u16 (advance (2 ^ 32) r.dst_port_inc r.dst_port_min r.dst_port_max x))
              t.ports_eq.1;
      src_ip_eq = λ h.
          s.src_ip_eq h
          ∙ ap (λ x. advance (2 ^ 32) r.src_ip_inc r.src_ip_min r.src_ip_max x) t.addrs_eq.0;
      dst_ip_eq = λ h.
          s.dst_ip_eq h
          ∙ ap (λ x. advance (2 ^ 32) r.dst_ip_inc r.dst_ip_min r.dst_ip_max x) t.addrs_eq.1;
    })
