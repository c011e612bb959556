-- ===== src/Range/Tcp.antt =====
-- pktgen_range_ctor of app/pktgen-range.c: the TCP numbers, whatever the Ethernet type.
use pktgen_dpdk.Base.{ℕ, ◌^◌, ◌==◌, if◌then◌else◌}
use pktgen_dpdk.Range.State.{RangeInfo, PktSeq}
use pktgen_dpdk.Range.Counter.{advance_if}

unfoldable pub step_tcp_seq : RangeInfo → PktSeq → PktSeq
step_tcp_seq range pkt = record pkt {
  tcp_seq =
      if range.tcp_seq_inc == 0
      then range.tcp_seq
      else advance_if (2 ^ 32) range.tcp_seq_inc range.tcp_seq_min range.tcp_seq_max pkt.tcp_seq;
}

unfoldable pub step_tcp_ack : RangeInfo → PktSeq → PktSeq
step_tcp_ack range pkt = record pkt {
  tcp_ack =
      if range.tcp_ack_inc == 0
      then range.tcp_ack
      else advance_if (2 ^ 32) range.tcp_ack_inc range.tcp_ack_min range.tcp_ack_max pkt.tcp_ack;
}

abbrev pub pg_ipproto_tcp : ℕ
pg_ipproto_tcp = 6

unfoldable pub step_tcp : RangeInfo → PktSeq → PktSeq
step_tcp range pkt =
    if pkt.ip_proto == pg_ipproto_tcp then step_tcp_ack range (step_tcp_seq range pkt) else pkt
