-- ===== src/Cksum/Pseudo.antt =====
-- pseudoIPv6Checksum of lib/common/cksum.c against the bytes of the pseudo header.
use pktgen_dpdk.Base.{
  ℕ, zero, suc, ◌+◌, ◌-◌, ◌*◌, ◌/◌, ◌%◌, ◌^◌, ◌<◌, ◌≡◌, arith, ◌∙◌, ◌==◌, if◌then◌else◌, u32, ltb,
  get_or, [], ◌∷◌,
}
use pktgen_dpdk.Cksum.Sum.{cksum_update, pseudo_ipv6_checksum, add_pairs, swap32}
use pktgen_dpdk.Cksum.Words.{word_sum, cksum_update_lem}

abbrev pair_sum : (src dst : ℕ → ℕ) → (i n : ℕ) → ℕ
pair_sum src dst i zero = 0
pair_sum src dst i (suc n) = src i + dst i + pair_sum src dst (i + 1) n

pairs_lem :
    (src dst : ℕ → ℕ) (i n s : ℕ)
    → s < 2 ^ 32
    → add_pairs src dst i n s ≡ u32 (s + pair_sum src dst i n)
unfolding add_pairs
pairs_lem src dst i zero s h = omega (arith, h)
pairs_lem src dst i (suc n) s h =
    pairs_lem src dst (i + 1) n (u32 (u32 (s + src i) + dst i)) (omega arith) ∙ omega arith

-- The byte at an offset of an array of words.
abbrev byte_of : (ℕ → ℕ) → ℕ → ℕ
byte_of words i = if i % 2 == 0 then words (i / 2) % 256 else words (i / 2) / 256

-- The 40 bytes of an IPv6 pseudo header: the addresses as they lie in memory, the length, three
-- zero bytes and the next header.
abbrev pub pseudo_ipv6_header : (src dst : ℕ → ℕ) → (next_hdr total_len : ℕ) → ℕ → ℕ
pseudo_ipv6_header src dst next_hdr len i =
    if ltb i 16
    then byte_of src i
    else if ltb i 32
    then byte_of dst (i - 16)
    else get_or
        (len / 16777216
          ∷ len / 65536 % 256
          ∷ len / 256 % 256
          ∷ len % 256
          ∷ 0
          ∷ 0
          ∷ 0
          ∷ next_hdr
          ∷ [])
        (i - 32) 0

split : (n : ℕ) → n % 256 + 256 * (n / 256) ≡ n
split n = omega arith

len_words :
    (len : ℕ)
    → len < 2 ^ 32
    → len / 16777216 + 256 * (len / 65536 % 256) + (len / 256 % 256 + 256 * (len % 256))
      ≡ swap32 len % 65536 + swap32 len / 65536
len_words len h = omega arith

header_sum :
    (src dst : ℕ → ℕ) (next_hdr len : ℕ)
    → len < 2 ^ 32
    → word_sum (pseudo_ipv6_header src dst next_hdr len) 0 20
      ≡ pair_sum src dst 0 8 + swap32 len % 65536 + swap32 len / 65536 + 256 * next_hdr
header_sum src dst next_hdr len h = omega (
  arith,
  split (src 0),
  split (src 1),
  split (src 2),
  split (src 3),
  split (src 4),
  split (src 5),
  split (src 6),
  split (src 7),
  split (dst 0),
  split (dst 1),
  split (dst 2),
  split (dst 3),
  split (dst 4),
  split (dst 5),
  split (dst 6),
  split (dst 7),
  len_words len h,
)

-- pseudoIPv6Checksum adds the pseudo header, but for the next header: it is added as a low byte, and
-- stands in the header as a high one.
pub pseudo_ipv6_checksum_lem :
    (src dst : ℕ → ℕ) (next_hdr total_len sum : ℕ)
    → next_hdr < 256
    → total_len < 2 ^ 32
    → sum < 2 ^ 32
    → u32 (pseudo_ipv6_checksum src dst next_hdr total_len sum + 255 * next_hdr)
      ≡ cksum_update (pseudo_ipv6_header src dst next_hdr total_len) 40 sum
unfolding pseudo_ipv6_checksum
pseudo_ipv6_checksum_lem src dst next_hdr len sum n l s =
    let header = pseudo_ipv6_header src dst next_hdr len in
    let update = cksum_update_lem header 40 sum s in
    let pairs =
      pairs_lem src dst 0 8 (u32 (sum + next_hdr + swap32 len % 65536 + swap32 len / 65536))
        (omega arith) in
    omega (arith, update, pairs, header_sum src dst next_hdr len l)
