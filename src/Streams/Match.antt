-- ===== src/Streams/Match.antt =====
-- Which stream the search of app/pktgen.c finds.
use pktgen_dpdk.Base.{
  ℕ, zero, suc, ◌+◌, ◌*◌, ◌<◌, ◌≤◌, ◌≡◌, ◌≢◌, refl, sym, ap, ◌∙◌, ◌⊎◌, inl, inr, subst, Bool, true,
  false, ◌||◌, Bool-cases, Option, none, some, ◌==◌, if◌then◌else◌, u32, taken, skipped, arith,
  ==_iff,
}
use Prim.Native.Nat.{bit_and}
use pktgen_dpdk.Streams.State.{
  PortInfo, single_pkt, range_pkt, size_to_mask, find_seq, is_none, or_packet,
  pktgen_find_matching_ipsrc, pktgen_find_matching_ipdst,
}
use pktgen_dpdk.Streams.Mask.{IsMask, size_to_mask-IsMask}

-- Where the loop ends: at the first of the `n` indices from `i` on with the address, if there is one.
pub IsFirst : (ip_addr : ℕ → ℕ) → (addr n i : ℕ) → Option ℕ → Type 0
IsFirst ip_addr addr n i none = (k : ℕ) → i ≤ k → k < i + n → ip_addr k ≢ addr
IsFirst ip_addr addr n i (some j) =
    (i ≤ j) × (j < i + n) × (ip_addr j ≡ addr) × ((k : ℕ) → i ≤ k → k < j → ip_addr k ≢ addr)

step-IsFirst :
    (ip_addr : ℕ → ℕ) (addr n i : ℕ) (r : Option ℕ)
    → ip_addr i ≢ addr
    → IsFirst ip_addr addr n (i + 1) r
    → IsFirst ip_addr addr (suc n) i r
unfolding IsFirst
step-IsFirst ip_addr addr n i none ne first = λ k le lt e. elim (Bool-cases (i == k)) [
  | inl same ↦ ne (ap ip_addr ((==_iff i k).0 same) ∙ e)
  | inr other ↦ first k (above i k le other) (within k lt) e
]
  where
    above : (i k : ℕ) → i ≤ k → (i == k) ≡ false → i + 1 ≤ k
    above i k le e = ground arith

    within : (k : ℕ) → k < i + suc n → k < (i + 1) + n
    within k lt = omega arith
step-IsFirst ip_addr addr n i (some j) ne (le, lt, e, before) = (
  lower j le,
  within j lt,
  e,
  λ k le' lt' e'. elim (Bool-cases (i == k)) [
    | inl same ↦ ne (ap ip_addr ((==_iff i k).0 same) ∙ e')
    | inr other ↦ before k (above i k le' other) lt' e'
  ],
)
  where
    above : (i k : ℕ) → i ≤ k → (i == k) ≡ false → i + 1 ≤ k
    above i k le e = ground arith

    lower : (j : ℕ) → i + 1 ≤ j → i ≤ j
    lower j le = omega arith

    within : (j : ℕ) → j < (i + 1) + n → j < i + suc n
    within j lt = omega arith

differ : (a b : ℕ) → (a == b) ≡ false → b ≢ a
differ a b e e' = ground arith

find_seq-IsFirst :
    (ip_addr : ℕ → ℕ) (addr n i : ℕ) → IsFirst ip_addr addr n i (find_seq ip_addr addr n i)
unfolding find_seq IsFirst
find_seq-IsFirst ip_addr addr zero i = λ k le lt e. none_left k le lt
  where
    none_left : (k : ℕ) → i ≤ k → k < i + 0 → ⊥
    none_left k le lt = omega arith
find_seq-IsFirst ip_addr addr (suc n) i = elim (Bool-cases (addr == ip_addr i)) [
  | inl e ↦
      subst (IsFirst ip_addr addr (suc n) i)
        (sym (taken _ (some i) (find_seq ip_addr addr n (i + 1)) e))
        (at_or_above i, in_range i n, sym ((==_iff _ _).0 e), λ k le lt e'. not_both k le lt)
  | inr e ↦
      subst (IsFirst ip_addr addr (suc n) i)
        (sym (skipped _ (some i) (find_seq ip_addr addr n (i + 1)) e))
        (step-IsFirst ip_addr addr n i (find_seq ip_addr addr n (i + 1)) (differ addr (ip_addr i) e)
          (find_seq-IsFirst ip_addr addr n (i + 1)))
]
  where
    at_or_above : (i : ℕ) → i ≤ i
    at_or_above i = omega arith

    in_range : (i n : ℕ) → i < i + suc n
    in_range i n = omega arith

    not_both : (k : ℕ) → i ≤ k → k < i → ⊥
    not_both k le lt = omega arith

-- What the search for a destination has to give.
pub IsDestination : PortInfo → (a : ℕ) → Option ℕ → Type 0
IsDestination pinfo a none =
    IsFirst pinfo.ip_dst_addr a pinfo.seq_cnt 0 none
    × (pinfo.ip_dst_addr single_pkt ≢ a)
    × (pinfo.ip_dst_addr range_pkt ≢ a)
IsDestination pinfo a (some i) =
    IsFirst pinfo.ip_dst_addr a pinfo.seq_cnt 0 (some i)
    ⊎ (((i ≡ single_pkt) ⊎ (i ≡ range_pkt))
        × (pinfo.ip_dst_addr i ≡ a)
        × IsFirst pinfo.ip_dst_addr a pinfo.seq_cnt 0 none)

packets_lem :
    (pinfo : PortInfo) (a : ℕ) (r : Option ℕ)
    → IsFirst pinfo.ip_dst_addr a pinfo.seq_cnt 0 r
    → IsDestination pinfo a (or_packet pinfo a range_pkt (or_packet pinfo a single_pkt r))
unfolding IsDestination
packets_lem pinfo a (some j) first = inl first
packets_lem pinfo a none first = elim (Bool-cases (a == pinfo.ip_dst_addr single_pkt)) [
  | inl e ↦
      subst (λ r. IsDestination pinfo a (or_packet pinfo a range_pkt r))
        (sym (taken _ (some single_pkt) none e)) (inr (inl refl, sym ((==_iff _ _).0 e), first))
  | inr e ↦
      subst (λ r. IsDestination pinfo a (or_packet pinfo a range_pkt r))
        (sym (skipped _ (some single_pkt) none e))
        (elim (Bool-cases (a == pinfo.ip_dst_addr range_pkt)) [
          | inl e' ↦
              subst (IsDestination pinfo a) (sym (taken _ (some range_pkt) none e'))
                (inr (inr refl, sym ((==_iff _ _).0 e'), first))
          | inr e' ↦ subst (IsDestination pinfo a) (sym (skipped _ (some range_pkt) none e')) (
            first,
            differ a (pinfo.ip_dst_addr single_pkt) e,
            differ a (pinfo.ip_dst_addr range_pkt) e',
          )
        ])
]

-- What the search for a source gives: the single packet, or the first of the sequence packets with the
-- address where one has it and the single packet does not match.
pub IsSource : PortInfo → (a : ℕ) → (matches : Bool) → (i : ℕ) → Type 0
IsSource pinfo a matches i =
    (IsFirst pinfo.ip_src_addr a pinfo.seq_cnt 0 none × (i ≡ single_pkt))
    ⊎ ((j : ℕ) × IsFirst pinfo.ip_src_addr a pinfo.seq_cnt 0 (some j)
        × (i ≡ (if matches then single_pkt else j)))

module _ (ntohl : ℕ → ℕ) where
  choose_lem :
      (pinfo : PortInfo) (a : ℕ) (ret : Option ℕ) (matches : Bool)
      → IsFirst pinfo.ip_src_addr a pinfo.seq_cnt 0 ret
      → (i : ℕ) × ((if is_none ret || matches then some single_pkt else ret) ≡ some i)
        × IsSource pinfo a matches i
  unfolding IsSource
  choose_lem pinfo a none matches first = (single_pkt, refl, inl (first, refl))
  choose_lem pinfo a (some j) true first = (single_pkt, refl, inr (j, first, refl))
  choose_lem pinfo a (some j) false first = (j, refl, inr (j, first, refl))

  -- pktgen_find_matching_ipsrc finds a stream for every address, if the prefix of the single packet has
  -- at most 32 bits: the single packet where no sequence packet has the source address, and where
  -- one has it, the single packet if the address under the mask of that prefix is the product of the
  -- single packet's destination address and the mask, modulo 2^32, and else the first of them.
  pub pktgen_find_matching_ipsrc_lem :
      (pinfo : PortInfo) (addr : ℕ)
      → pinfo.src_prefixlen single_pkt ≤ 32
      → (i m : ℕ) × IsMask (pinfo.src_prefixlen single_pkt) m
        × (pktgen_find_matching_ipsrc ntohl pinfo addr ≡ some i)
        × IsSource pinfo
            (ntohl addr)
            (bit_and (ntohl addr) m == u32 (pinfo.ip_dst_addr single_pkt * m))
            i
  unfolding pktgen_find_matching_ipsrc
  pktgen_find_matching_ipsrc_lem pinfo addr le =
      let m = size_to_mask (pinfo.src_prefixlen single_pkt) in
      let (i, done, source) =
        choose_lem pinfo (ntohl addr) (find_seq pinfo.ip_src_addr (ntohl addr) pinfo.seq_cnt 0)
          (bit_and (ntohl addr) m == u32 (pinfo.ip_dst_addr single_pkt * m))
          (find_seq-IsFirst pinfo.ip_src_addr (ntohl addr) pinfo.seq_cnt 0) in
      (i, m, size_to_mask-IsMask (pinfo.src_prefixlen single_pkt) le, done, source)

  -- pktgen_find_matching_ipdst finds the first of the sequence packets with the destination address,
  -- or the single packet or that of the range mode where it has the address and no sequence packet
  -- does, and nothing only where none of these has it.
  pub pktgen_find_matching_ipdst_lem :
      (pinfo : PortInfo) (addr : ℕ)
      → IsDestination pinfo (ntohl addr) (pktgen_find_matching_ipdst ntohl pinfo addr)
  unfolding pktgen_find_matching_ipdst
  pktgen_find_matching_ipdst_lem pinfo addr =
      packets_lem pinfo (ntohl addr) (find_seq pinfo.ip_dst_addr (ntohl addr) pinfo.seq_cnt 0)
        (find_seq-IsFirst pinfo.ip_dst_addr (ntohl addr) pinfo.seq_cnt 0)
