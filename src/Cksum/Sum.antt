-- ===== src/Cksum/Sum.antt =====
-- The functions of lib/common/cksum.c, on a little-endian host. The memory is a function of the
-- offset from `pBuf`.
use pktgen_dpdk.Base.{ℕ, zero, suc, ◌+◌, ◌-◌, ◌*◌, ◌/◌, ◌%◌, ◌==◌, if◌then◌else◌, u16, u32}

-- The 16-bit word at an offset.
abbrev pub word_at : (ℕ → ℕ) → ℕ → ℕ
word_at mem p = mem p + 256 * mem (p + 1)

-- `cksum += *pWd++`, for the pointer and the sum.
abbrev pub add_word : (ℕ → ℕ) → ℕ × ℕ → ℕ × ℕ
add_word mem (p, cksum) = (p + 2, u32 (cksum + word_at mem p))

-- One step of the unrolled loop: 16 words.
unfoldable pub add_16_words : (ℕ → ℕ) → ℕ × ℕ → ℕ × ℕ
add_16_words mem s0 =
    let s1 = add_word mem s0 in
    let s2 = add_word mem s1 in
    let s3 = add_word mem s2 in
    let s4 = add_word mem s3 in
    let s5 = add_word mem s4 in
    let s6 = add_word mem s5 in
    let s7 = add_word mem s6 in
    let s8 = add_word mem s7 in
    let s9 = add_word mem s8 in
    let s10 = add_word mem s9 in
    let s11 = add_word mem s10 in
    let s12 = add_word mem s11 in
    let s13 = add_word mem s12 in
    let s14 = add_word mem s13 in let s15 = add_word mem s14 in add_word mem s15

-- The two loops over `nWords`.
unfoldable pub add_blocks : (ℕ → ℕ) → (n_words : ℕ) → ℕ × ℕ → ℕ × ℕ
add_blocks mem zero s = s
add_blocks mem (suc n) s = add_blocks mem n (add_16_words mem s)

unfoldable pub add_words : (ℕ → ℕ) → (n_words : ℕ) → ℕ × ℕ → ℕ × ℕ
add_words mem zero s = s
add_words mem (suc n) s = add_words mem n (add_word mem s)

-- `size` is not negative. The mask htons(0xFF00) keeps the low byte of the last word.
unfoldable pub cksum_update : (ℕ → ℕ) → (size cksum : ℕ) → ℕ
cksum_update mem size cksum =
    let s = add_words mem (size % 32 / 2) (add_blocks mem (size / 32) (0, cksum)) in
    if size % 2 == 1 then u32 (s.1 + word_at mem s.0 % 256) else s.1

abbrev pub fold : ℕ → ℕ
fold cksum = u32 (cksum % 65536 + cksum / 65536)

-- `~` of a 16-bit number n is 65535 - n.
unfoldable pub cksum_done : ℕ → ℕ
cksum_done cksum = 65535 - u16 (fold (fold cksum))

unfoldable pub cksum : (ℕ → ℕ) → (size cksum : ℕ) → ℕ
cksum mem size c = cksum_done (cksum_update mem size c)

-- ntohs and htons
abbrev pub swap16 : ℕ → ℕ
swap16 n = n % 256 * 256 + n / 256

-- htonl
abbrev pub swap32 : ℕ → ℕ
swap32 n = n % 256 * 16777216 + n / 256 % 256 * 65536 + n / 65536 % 256 * 256 + n / 16777216 % 256

unfoldable pub pseudo_checksum : (src dst pro len sum : ℕ) → ℕ
pseudo_checksum src dst pro len sum =
    u32 (sum + src % 65536 + src / 65536 + dst % 65536 + dst / 65536 + swap16 len + swap16 pro)

-- The loop over the eight words of both addresses.
unfoldable pub add_pairs : (src dst : ℕ → ℕ) → (i n sum : ℕ) → ℕ
add_pairs src dst i zero sum = sum
add_pairs src dst i (suc n) sum = add_pairs src dst (i + 1) n (u32 (u32 (sum + src i) + dst i))

unfoldable pub pseudo_ipv6_checksum : (src dst : ℕ → ℕ) → (next_hdr total_len sum : ℕ) → ℕ
pseudo_ipv6_checksum src dst next_hdr total_len sum =
    let len = swap32 total_len in
    add_pairs src dst 0 8 (u32 (sum + next_hdr + len % 65536 + len / 65536))
