-- ===== src/Range/Run.antt =====
-- The packets that repeated calls of pktgen_range_ctor make, one from the other.
use pktgen_dpdk.Range.State.{RangeInfo, PktSeq, FirstSteps}
use pktgen_dpdk.Range.Counter.{advance, advance_if, advance_bounds}
use pktgen_dpdk.Range.Tcp.{step_tcp}
use pktgen_dpdk.Range.Ipv4.{step_vxlan_vid4, step_vxlan_gid4}
use pktgen_dpdk.Range.Ipv6.{step_sport6}
use pktgen_dpdk.Range.Ctor.{pktgen_range_ctor}
use pktgen_dpdk.Range.Fields4.{range_ipv4-Fields4}
use pktgen_dpdk.Range.Fields6.{range_ipv6-Fields6}
use pktgen_dpdk.Range.Safety.{ctor_ipv4, ctor_ipv6}
use pktgen_dpdk.Range.Cycle.{advance_n, period, advance_n_lem}
use native.Mathlib.Nat.{mod-eq_of_lt}
use pktgen_dpdk.Base.{◌∙◌, ℕ, zero, suc, ◌+◌, ◌*◌, ◌^◌, ◌%◌, ◌≤◌, ◌<◌, ◌≡◌, arith}
use pktgen_dpdk.Range.Steps4.{IsIpv4, IsIpv6, step_tcp-TcpKeeps, ctor-Step4}

-- The state after `n` packets.
unfoldable pub range_run : RangeInfo → ℕ → FirstSteps × PktSeq → FirstSteps × PktSeq
range_run r zero s = s
range_run r (suc n) s = let (fs, p) = range_run r n s in pktgen_range_ctor r fs p

pub range_run-IsIpv4 :
    (r : RangeInfo) (n : ℕ) (fs : FirstSteps) (p : PktSeq)
    → IsIpv4 p
    → IsIpv4 (range_run r n (fs, p)).1
unfolding range_run
range_run-IsIpv4 r zero fs p k = k
range_run-IsIpv4 r (suc n) fs p k =
    (ctor-Step4 r (range_run r n (fs, p)).0 (range_run r n (fs, p)).1
      (range_run-IsIpv4 r n fs p k)).kind

-- A field that takes `advance` at each packet is `advance_n` after `n` packets.
iterates :
    (f : PktSeq → ℕ) (r : RangeInfo) (inc lo hi w : ℕ)
    → lo ≤ hi
    → hi < w
    → ((fs : FirstSteps) (p : PktSeq)
        → IsIpv4 p
        → f (pktgen_range_ctor r fs p).1 ≡ advance (2 ^ 32) inc lo hi (f p) % w)
    → (n : ℕ) (fs : FirstSteps) (p : PktSeq) → IsIpv4 p
    → f p ≡ lo
    → f (range_run r n (fs, p)).1 ≡ advance_n (2 ^ 32) inc lo hi n lo
unfolding range_run
iterates f r inc lo hi w h hw st zero fs p k e = e
iterates f r inc lo hi w h hw st (suc n) fs p k e =
    let q = range_run r n (fs, p) in
    let b = advance_bounds (2 ^ 32) inc lo hi (advance_n (2 ^ 32) inc lo hi n lo) h in
    st q.0 q.1 (range_run-IsIpv4 r n fs p k)
    ∙ rw (iterates f r inc lo hi w h hw st n fs p k e) (mod-eq_of_lt (omega (arith, b)))

no_cut :
    (inc lo hi x : ℕ)
    → lo ≤ hi
    → hi < 2 ^ 32
    → advance (2 ^ 32) inc lo hi x ≡ advance (2 ^ 32) inc lo hi x % 2 ^ 32
no_cut inc lo hi x h hw = omega (arith, advance_bounds (2 ^ 32) inc lo hi x h)

-- The `n`th packet after one whose ports are the least has the ports `n` increments further on,
-- counted round the number of ports that the range has in steps of the increment: every port of
-- the range is sent, in order, and again from the first.
pub range_run_ports4 :
    (r : RangeInfo) (n : ℕ) (fs : FirstSteps) (p : PktSeq)
    → IsIpv4 p
    → (0 < r.src_port_inc) × (r.src_port_inc < 65536)
    → (0 < r.dst_port_inc) × (r.dst_port_inc < 65536)
    → (r.src_port_min ≤ r.src_port_max) × (r.src_port_max < 65536)
    → (r.dst_port_min ≤ r.dst_port_max) × (r.dst_port_max < 65536)
    → p.sport ≡ r.src_port_min
    → p.dport ≡ r.dst_port_min
    → let q = (range_run r n (fs, p)).1 in
      (q.sport
        ≡ r.src_port_min
          + r.src_port_inc * (n % period r.src_port_inc r.src_port_min r.src_port_max))
      × (q.dport
          ≡ r.dst_port_min
            + r.dst_port_inc * (n % period r.dst_port_inc r.dst_port_min r.dst_port_max))
range_run_ports4 r n fs p k si di s d es ed = (
  iterates (λ q. q.sport) r _ _ _ 65536 s.0 s.1 (λ fs p k. (ctor-Step4 r fs p k).sport_eq si.0) n fs
        p k es
      ∙ advance_n_lem (2 ^ 32) _ _ _ n si.0 s.0 (omega arith),
  iterates (λ q. q.dport) r _ _ _ 65536 d.0 d.1 (λ fs p k. (ctor-Step4 r fs p k).dport_eq di.0) n fs
        p k ed
      ∙ advance_n_lem (2 ^ 32) _ _ _ n di.0 d.0 (omega arith),
)

-- The same for the IPv4 addresses, if the increment added to the greatest address stays below 2³².
pub range_run_addrs4 :
    (r : RangeInfo) (n : ℕ) (fs : FirstSteps) (p : PktSeq)
    → IsIpv4 p
    → (0 < r.src_ip_inc) × (r.src_ip_min ≤ r.src_ip_max) × (r.src_ip_max + r.src_ip_inc < 2 ^ 32)
    → (0 < r.dst_ip_inc) × (r.dst_ip_min ≤ r.dst_ip_max) × (r.dst_ip_max + r.dst_ip_inc < 2 ^ 32)
    → p.ip_src_addr ≡ r.src_ip_min
    → p.ip_dst_addr ≡ r.dst_ip_min
    → let q = (range_run r n (fs, p)).1 in
      (q.ip_src_addr
        ≡ r.src_ip_min + r.src_ip_inc * (n % period r.src_ip_inc r.src_ip_min r.src_ip_max))
      × (q.ip_dst_addr
          ≡ r.dst_ip_min + r.dst_ip_inc * (n % period r.dst_ip_inc r.dst_ip_min r.dst_ip_max))
range_run_addrs4 r n fs p k s d es ed = (
  iterates (λ q. q.ip_src_addr) r _ _ _ (2 ^ 32) s.1 (omega arith)
        (λ fs p k.
          (ctor-Step4 r fs p k).src_ip_eq s.0
          ∙ no_cut r.src_ip_inc _ _ p.ip_src_addr s.1 (omega arith))
        n fs p k es
      ∙ advance_n_lem (2 ^ 32) _ _ _ n s.0 s.1 s.2,
  iterates (λ q. q.ip_dst_addr) r _ _ _ (2 ^ 32) d.1 (omega arith)
        (λ fs p k.
          (ctor-Step4 r fs p k).dst_ip_eq d.0
          ∙ no_cut r.dst_ip_inc _ _ p.ip_dst_addr d.1 (omega arith))
        n fs p k ed
      ∙ advance_n_lem (2 ^ 32) _ _ _ n d.0 d.1 d.2,
)

stuck_step :
    (r : RangeInfo) (fs : FirstSteps) (p : PktSeq)
    → IsIpv6 p
    → r.src_port_max ≡ 65535
    → (0 < r.src_port_inc) × (r.src_port_inc ≤ r.src_port_min) × (r.src_port_min ≤ 65535)
    → p.sport ≡ 65535
    → IsIpv6 (pktgen_range_ctor r fs p).1 × ((pktgen_range_ctor r fs p).1.sport ≡ 65535)
unfolding step_sport6 advance_if
stuck_step r fs p k m i e =
    let f = range_ipv6-Fields6 r fs (step_tcp r p) in
    let t = step_tcp-TcpKeeps r p in
    rw (ctor_ipv6 r fs p k.0 k.1) (
      rw (f.kind_eq.0, f.kind_eq.1, t.kind_eq.0, t.kind_eq.1) k,
      f.sport_eq ∙ rw (t.ports_eq.0, e, m) (ground arith),
    )

stuck :
    (r : RangeInfo) (n : ℕ) (fs : FirstSteps) (p : PktSeq)
    → IsIpv6 p
    → r.src_port_max ≡ 65535
    → (0 < r.src_port_inc) × (r.src_port_inc ≤ r.src_port_min) × (r.src_port_min ≤ 65535)
    → p.sport ≡ 65535
    → IsIpv6 (range_run r n (fs, p)).1 × ((range_run r n (fs, p)).1.sport ≡ 65535)
unfolding range_run
stuck r zero fs p k m i e = (k, e)
stuck r (suc n) fs p k m i e =
    let ih = stuck r n fs p k m i e in
    stuck_step r (range_run r n (fs, p)).0 (range_run r n (fs, p)).1 ih.0 m i ih.1

-- An IPv6 packet whose source port is 65535, the end of the range, keeps it for ever when the
-- increment is at most the least port: the 16-bit sum wraps below the least, which the code takes
-- for the greatest.
pub range_run_port_stuck6 :
    (r : RangeInfo) (n : ℕ) (fs : FirstSteps) (p : PktSeq)
    → IsIpv6 p
    → r.src_port_max ≡ 65535
    → (0 < r.src_port_inc) × (r.src_port_inc ≤ r.src_port_min) × (r.src_port_min ≤ 65535)
    → p.sport ≡ 65535
    → (range_run r n (fs, p)).1.sport ≡ 65535
range_run_port_stuck6 r n fs p k m i e = (stuck r n fs p k m i e).1

-- The VLAN range of VxLAN: a packet whose `vxlan_vid_inc` is not zero keeps its VxLAN identifier,
-- and its group identifier lies in the range of the VLAN identifiers.
pub pktgen_range_ctor_vxlan :
    (r : RangeInfo) (fs : FirstSteps) (p : PktSeq)
    → IsIpv4 p
    → 0 < r.vxlan_vid_inc
    → (r.vxlan_vid_min ≤ r.vxlan_vid_max) × (r.vxlan_vid_max < 65536)
    → let q = (pktgen_range_ctor r fs p).1 in
      (q.vxlan_id ≡ p.vxlan_id) × (r.vxlan_vid_min ≤ q.group_id) × (q.group_id ≤ r.vxlan_vid_max)
unfolding step_vxlan_vid4 step_vxlan_gid4
pktgen_range_ctor_vxlan r fs p k h m =
    let f = range_ipv4-Fields4 r fs (step_tcp r p) in
    let t = step_tcp-TcpKeeps r p in
    let b =
      advance_bounds (2 ^ 32) r.vxlan_gid_inc r.vxlan_vid_min r.vxlan_vid_max p.vxlan_id m.0 in
    rw (ctor_ipv4 r fs p k.0 k.1) (
      ground (
        arith,
        f.group_id_eq,
        f.vxlan_id_eq,
        t.vxlan_eq,
        b,
        mod-eq_of_lt
            {n = advance (2 ^ 32) r.vxlan_gid_inc r.vxlan_vid_min r.vxlan_vid_max p.vxlan_id}
            {m = 65536},
      ))
