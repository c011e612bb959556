-- ===== src/Range/Ipv6.antt =====
-- pktgen_range_ctor of app/pktgen-range.c: the fields of an IPv6 packet of TCP or UDP.
-- Here the ports are stepped in 16 bits and the hop limit in 8.
use pktgen_dpdk.Base.{ℕ, ◌^◌, ◌&&◌, List, ◌==◌, if◌then◌else◌, u8, u16}
use pktgen_dpdk.Inet.Mac.{inet_mtoh64, inet_h64tom}
use pktgen_dpdk.Inet.Addr6.{inet6_addr_add, inet6_addr_is_unspecified, memcmp_lt}
use pktgen_dpdk.Range.State.{RangeInfo, PktSeq, FirstSteps}
use pktgen_dpdk.Range.Counter.{advance, advance_if}

unfoldable pub step_sport6 : RangeInfo → PktSeq → PktSeq
step_sport6 range pkt = record pkt {
  sport =
      if range.src_port_inc == 0
      then range.src_port
      else advance_if 65536 range.src_port_inc range.src_port_min range.src_port_max pkt.sport;
}

unfoldable pub step_dport6 : RangeInfo → PktSeq → PktSeq
step_dport6 range pkt = record pkt {
  dport =
      if range.dst_port_inc == 0
      then range.dst_port
      else advance_if 65536 range.dst_port_inc range.dst_port_min range.dst_port_max pkt.dport;
}

unfoldable pub step_hop_limits6 : RangeInfo → PktSeq → PktSeq
step_hop_limits6 range pkt = record pkt {
  ttl =
      if range.ttl_inc == 0
      then range.ttl
      else advance_if 256 range.ttl_inc range.ttl_min range.ttl_max pkt.ttl;
}

-- One step of an IPv6 address: past either end it goes to the least address.
unfoldable pub advance6 : List ℕ → List ℕ → List ℕ → List ℕ → List ℕ
advance6 inc lo hi cur =
    let p = inet6_addr_add cur inc in
    if memcmp_lt p lo then lo else if memcmp_lt hi p then lo else p

unfoldable pub step_src_ipv6 : RangeInfo → PktSeq → PktSeq
step_src_ipv6 range pkt = record pkt {
  ip_src_ipv6 =
      if inet6_addr_is_unspecified range.src_ipv6_inc
      then range.src_ipv6
      else advance6 range.src_ipv6_inc range.src_ipv6_min range.src_ipv6_max pkt.ip_src_ipv6;
}

unfoldable pub step_dst_ipv6 : RangeInfo → PktSeq → PktSeq
step_dst_ipv6 range pkt = record pkt {
  ip_dst_ipv6 =
      if inet6_addr_is_unspecified range.dst_ipv6_inc
      then range.dst_ipv6
      else advance6 range.dst_ipv6_inc range.dst_ipv6_min range.dst_ipv6_max pkt.ip_dst_ipv6;
}

unfoldable pub step_vlan6 : RangeInfo → FirstSteps × PktSeq → FirstSteps × PktSeq
step_vlan6 range (fs, pkt) =
    let first = pkt.vlanid == 1 && fs.min_vlan_set6 == 0 in
    let p = if first then 0 else pkt.vlanid in
    let next = u16 (advance (2 ^ 32) range.vlan_id_inc range.vlan_id_min range.vlan_id_max p) in
    (
      record fs {
        min_vlan_set6 =
            if range.vlan_id_inc == 0
            then fs.min_vlan_set6
            else if first
            then 1
            else fs.min_vlan_set6;
      },
      record pkt { vlanid = if range.vlan_id_inc == 0 then range.vlan_id else next },
    )

unfoldable pub step_cos6 : RangeInfo → FirstSteps × PktSeq → FirstSteps × PktSeq
step_cos6 range (fs, pkt) =
    let first = pkt.cos == 0 && fs.min_cos_set6 == 0 in
    let p = if first then 0 else pkt.cos in
    let next = u8 (advance (2 ^ 32) range.cos_inc range.cos_min range.cos_max p) in
    (
      record fs {
        min_cos_set6 =
            if range.cos_inc == 0 then fs.min_cos_set6 else if first then 1 else fs.min_cos_set6;
      },
      record pkt { cos = if range.cos_inc == 0 then range.cos else next },
    )

unfoldable pub step_traffic_class6 : RangeInfo → FirstSteps × PktSeq → FirstSteps × PktSeq
step_traffic_class6 range (fs, pkt) =
    let first = pkt.tos == 0 && fs.min_traffic_class_set6 == 0 in
    let p = if first then 0 else pkt.tos in
    let next = u8 (advance (2 ^ 32) range.tos_inc range.tos_min range.tos_max p) in
    (
      record fs {
        min_traffic_class_set6 =
            if range.tos_inc == 0
            then fs.min_traffic_class_set6
            else if first
            then 1
            else fs.min_traffic_class_set6;
      },
      record pkt { tos = if range.tos_inc == 0 then range.tos else next },
    )

unfoldable pub step_pkt_size6 : RangeInfo → PktSeq → PktSeq
step_pkt_size6 range pkt = record pkt {
  pkt_size =
      if range.pkt_size_inc == 0
      then range.pkt_size
      else u16
          (advance (2 ^ 32) range.pkt_size_inc range.pkt_size_min range.pkt_size_max pkt.pkt_size);
}

unfoldable pub step_src_mac6 : RangeInfo → PktSeq → PktSeq
step_src_mac6 range pkt = record pkt {
  eth_src_addr = inet_h64tom (
      if range.src_mac_inc == 0
      then range.src_mac
      else advance (2 ^ 64) range.src_mac_inc range.src_mac_min range.src_mac_max
          (inet_mtoh64 pkt.eth_src_addr));
}

unfoldable pub step_dst_mac6 : RangeInfo → PktSeq → PktSeq
step_dst_mac6 range pkt = record pkt {
  eth_dst_addr = inet_h64tom (
      if range.dst_mac_inc == 0
      then range.dst_mac
      else advance (2 ^ 64) range.dst_mac_inc range.dst_mac_min range.dst_mac_max
          (inet_mtoh64 pkt.eth_dst_addr));
}
