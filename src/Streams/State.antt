-- ===== src/Streams/State.antt =====
-- pktgen_find_matching_ipsrc and pktgen_find_matching_ipdst of app/pktgen.c, and size_to_mask of
-- lib/common/pg_inet.h. ntohl of the C library is a parameter. The addresses of the packet templates
-- are functions of the index.
use pktgen_dpdk.Base.{
  ℕ, zero, suc, ◌+◌, ◌-◌, ◌*◌, ◌^◌, Bool, true, false, ◌&&◌, ◌||◌, Option, none, some, ◌==◌,
  if◌then◌else◌, u32,
}
use Prim.Native.Nat.{bit_and, bit_or}

abbrev pub single_pkt : ℕ
single_pkt = 16

abbrev pub range_pkt : ℕ
range_pkt = 18

-- The loop for the other lengths; `n` bits from bit `31 - i` downwards. Lengths are at most 32.
unfoldable pub mask_bits : (n i mask : ℕ) → ℕ
mask_bits zero i mask = mask
mask_bits (suc n) i mask = mask_bits n (i + 1) (bit_or mask (2 ^ (31 - i)))

unfoldable pub size_to_mask : (len : ℕ) → ℕ
size_to_mask len =
    if len == 0
    then 0
    else if len == 8
    then 4278190080
    else if len == 16
    then 4294901760
    else if len == 24
    then 4294967040
    else if len == 32
    then 4294967295
    else mask_bits len 0 0

-- The fields of port_info_t that the search reads.
pub record PortInfo : Type 0 where
  pub seq_cnt : ℕ
  pub ip_src_addr : ℕ → ℕ
  pub ip_dst_addr : ℕ → ℕ
  pub src_prefixlen : ℕ → ℕ

-- The loop over the sequence packets, for the `n` from `i` on; `none` is -1.
unfoldable pub find_seq : (ℕ → ℕ) → (addr n i : ℕ) → Option ℕ
find_seq ip_addr addr zero i = none
find_seq ip_addr addr (suc n) i =
    let rest = find_seq ip_addr addr n (i + 1) in if addr == ip_addr i then some i else rest

abbrev pub is_none : Option ℕ → Bool
is_none none = true
is_none (some i) = false

abbrev pub or_packet : PortInfo → (addr i : ℕ) → Option ℕ → Option ℕ
or_packet pinfo addr i ret = if is_none ret && addr == pinfo.ip_dst_addr i then some i else ret

module _ (ntohl : ℕ → ℕ) where
  unfoldable pub pktgen_find_matching_ipsrc : PortInfo → (addr : ℕ) → Option ℕ
  pktgen_find_matching_ipsrc pinfo addr =
      let ret = find_seq pinfo.ip_src_addr (ntohl addr) pinfo.seq_cnt 0 in
      let mask = size_to_mask (pinfo.src_prefixlen single_pkt) in
      if is_none ret || bit_and (ntohl addr) mask == u32 (pinfo.ip_dst_addr single_pkt * mask)
      then some single_pkt
      else ret

  unfoldable pub pktgen_find_matching_ipdst : PortInfo → (addr : ℕ) → Option ℕ
  pktgen_find_matching_ipdst pinfo addr =
      let ret = find_seq pinfo.ip_dst_addr (ntohl addr) pinfo.seq_cnt 0 in
      let ret = or_packet pinfo (ntohl addr) single_pkt ret in
      or_packet pinfo (ntohl addr) range_pkt ret
