-- ===== src/Range/Ipv4.antt =====
-- pktgen_range_ctor of app/pktgen-range.c: the fields of an IPv4 packet of TCP or UDP.
-- A function stands for each field, and changes that field alone.
use pktgen_dpdk.Base.{ℕ, ◌^◌, ◌&&◌, ◌==◌, if◌then◌else◌, u8, u16}
use pktgen_dpdk.Inet.Mac.{inet_mtoh64, inet_h64tom}
use pktgen_dpdk.Range.State.{RangeInfo, PktSeq, FirstSteps}
use pktgen_dpdk.Range.Counter.{advance, advance_if}

abbrev pg_ipproto_l4_gtpu_port : ℕ
pg_ipproto_l4_gtpu_port = 2152

-- The test reads the destination port that the packet had before the step.
unfoldable pub step_gtpu4 : RangeInfo → PktSeq → PktSeq
step_gtpu4 range pkt =
    let next =
      if range.gtpu_teid_inc == 0
      then range.gtpu_teid
      else advance_if (2 ^ 32) range.gtpu_teid_inc range.gtpu_teid_min range.gtpu_teid_max
          pkt.gtpu_teid in
    record pkt { gtpu_teid = if pkt.dport == pg_ipproto_l4_gtpu_port then next else pkt.gtpu_teid }

-- The sum is made in 32 bits, and cast to 16 in the end.
unfoldable pub step_sport4 : RangeInfo → PktSeq → PktSeq
step_sport4 range pkt = record pkt {
  sport =
      if range.src_port_inc == 0
      then range.src_port
      else u16
          (advance_if (2 ^ 32) range.src_port_inc range.src_port_min range.src_port_max pkt.sport);
}

unfoldable pub step_dport4 : RangeInfo → PktSeq → PktSeq
step_dport4 range pkt = record pkt {
  dport =
      if range.dst_port_inc == 0
      then range.dst_port
      else u16
          (advance_if (2 ^ 32) range.dst_port_inc range.dst_port_min range.dst_port_max pkt.dport);
}

-- The sum is made in 16 bits, and cast to 8.
unfoldable pub step_ttl4 : RangeInfo → PktSeq → PktSeq
step_ttl4 range pkt = record pkt {
  ttl =
      if range.ttl_inc == 0
      then range.ttl
      else u8 (advance_if (2 ^ 16) range.ttl_inc range.ttl_min range.ttl_max pkt.ttl);
}

unfoldable pub step_src_ip4 : RangeInfo → PktSeq → PktSeq
step_src_ip4 range pkt = record pkt {
  ip_src_addr =
      if range.src_ip_inc == 0
      then range.src_ip
      else advance (2 ^ 32) range.src_ip_inc range.src_ip_min range.src_ip_max pkt.ip_src_addr;
}

unfoldable pub step_dst_ip4 : RangeInfo → PktSeq → PktSeq
step_dst_ip4 range pkt = record pkt {
  ip_dst_addr =
      if range.dst_ip_inc == 0
      then range.dst_ip
      else advance (2 ^ 32) range.dst_ip_inc range.dst_ip_min range.dst_ip_max pkt.ip_dst_addr;
}

-- The first step from the least value starts at 0.
unfoldable pub step_vlan4 : RangeInfo → FirstSteps × PktSeq → FirstSteps × PktSeq
step_vlan4 range (fs, pkt) =
    let first = pkt.vlanid == 1 && fs.min_vlan_set4 == 0 in
    let p = if first then 0 else pkt.vlanid in
    let next = u16 (advance (2 ^ 32) range.vlan_id_inc range.vlan_id_min range.vlan_id_max p) in
    (
      record fs {
        min_vlan_set4 =
            if range.vlan_id_inc == 0
            then fs.min_vlan_set4
            else if first
            then 1
            else fs.min_vlan_set4;
      },
      record pkt { vlanid = if range.vlan_id_inc == 0 then range.vlan_id else next },
    )

unfoldable pub step_cos4 : RangeInfo → FirstSteps × PktSeq → FirstSteps × PktSeq
step_cos4 range (fs, pkt) =
    let first = pkt.cos == 0 && fs.min_cos_set4 == 0 in
    let p = if first then 0 else pkt.cos in
    let next = u8 (advance (2 ^ 32) range.cos_inc range.cos_min range.cos_max p) in
    (
      record fs {
        min_cos_set4 =
            if range.cos_inc == 0 then fs.min_cos_set4 else if first then 1 else fs.min_cos_set4;
      },
      record pkt { cos = if range.cos_inc == 0 then range.cos else next },
    )

unfoldable pub step_tos4 : RangeInfo → FirstSteps × PktSeq → FirstSteps × PktSeq
step_tos4 range (fs, pkt) =
    let first = pkt.tos == 0 && fs.min_tos_set4 == 0 in
    let p = if first then 0 else pkt.tos in
    let next = u8 (advance (2 ^ 32) range.tos_inc range.tos_min range.tos_max p) in
    (
      record fs {
        min_tos_set4 =
            if range.tos_inc == 0 then fs.min_tos_set4 else if first then 1 else fs.min_tos_set4;
      },
      record pkt { tos = if range.tos_inc == 0 then range.tos else next },
    )

unfoldable pub step_pkt_size4 : RangeInfo → PktSeq → PktSeq
step_pkt_size4 range pkt = record pkt {
  pkt_size =
      if range.pkt_size_inc == 0
      then range.pkt_size
      else u16
          (advance (2 ^ 32) range.pkt_size_inc range.pkt_size_min range.pkt_size_max pkt.pkt_size);
}

unfoldable pub step_src_mac4 : RangeInfo → PktSeq → PktSeq
step_src_mac4 range pkt = record pkt {
  eth_src_addr = inet_h64tom (
      if range.src_mac_inc == 0
      then range.src_mac
      else advance (2 ^ 64) range.src_mac_inc range.src_mac_min range.src_mac_max
          (inet_mtoh64 pkt.eth_src_addr));
}

unfoldable pub step_dst_mac4 : RangeInfo → PktSeq → PktSeq
step_dst_mac4 range pkt = record pkt {
  eth_dst_addr = inet_h64tom (
      if range.dst_mac_inc == 0
      then range.dst_mac
      else advance (2 ^ 64) range.dst_mac_inc range.dst_mac_min range.dst_mac_max
          (inet_mtoh64 pkt.eth_dst_addr));
}

unfoldable pub step_vxlan_gid4 : RangeInfo → PktSeq → PktSeq
step_vxlan_gid4 range pkt = record pkt {
  group_id =
      if range.vxlan_gid_inc == 0
      then u16 range.vxlan_gid
      else u16 (
          advance (2 ^ 32) range.vxlan_gid_inc range.vxlan_gid_min range.vxlan_gid_max
            pkt.group_id);
}

-- The step adds the increment of the group, and writes `group_id`; only the fixed value goes to
-- `vxlan_id`.
unfoldable pub step_vxlan_vid4 : RangeInfo → PktSeq → PktSeq
step_vxlan_vid4 range pkt =
    let vid =
      u16 (
        advance (2 ^ 32) range.vxlan_gid_inc range.vxlan_vid_min range.vxlan_vid_max
          pkt.vxlan_id) in
    record pkt {
      group_id = if range.vxlan_vid_inc == 0 then pkt.group_id else vid;
      vxlan_id = if range.vxlan_vid_inc == 0 then range.vxlan_vid else pkt.vxlan_id;
    }
