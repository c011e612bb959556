-- ===== src/Cksum/Words.antt =====
-- cksumUpdate of lib/common/cksum.c against the sum of all words.
use pktgen_dpdk.Base.{
  ℕ, zero, suc, ◌+◌, ◌-◌, ◌*◌, ◌/◌, ◌%◌, ◌^◌, ◌<◌, ◌≡◌, refl, arith, ap, ap₂, sym, ◌∙◌, ◌==◌,
  if◌then◌else◌, u32, Bool-cases, inl, inr, true, get_or, [], ◌∷◌,
}
use pktgen_dpdk.Cksum.Sum.{
  word_at, add_word, add_16_words, add_blocks, add_words, cksum_update, pseudo_checksum,
}

-- The sum of `n` words from an offset on.
abbrev pub word_sum : (ℕ → ℕ) → (p n : ℕ) → ℕ
word_sum mem p zero = 0
word_sum mem p (suc n) = word_at mem p + word_sum mem (p + 2) n

unrolled : (mem : ℕ → ℕ) (s : ℕ × ℕ) → add_16_words mem s ≡ add_words mem 16 s
unfolding add_16_words add_words
unrolled mem s = refl

add_words_add :
    (mem : ℕ → ℕ) (a b : ℕ) (s : ℕ × ℕ)
    → add_words mem (a + b) s ≡ add_words mem b (add_words mem a s)
unfolding add_words
add_words_add mem zero b s = let e : zero + b ≡ b = omega arith in ap (λ n. add_words mem n s) e
add_words_add mem (suc a) b s =
    let e : suc a + b ≡ suc (a + b) = omega arith in
    ap (λ n. add_words mem n s) e ∙ add_words_add mem a b (add_word mem s)

blocks_lem : (mem : ℕ → ℕ) (n : ℕ) (s : ℕ × ℕ) → add_blocks mem n s ≡ add_words mem (16 * n) s
unfolding add_blocks add_words
blocks_lem mem zero s = let e : 0 ≡ 16 * 0 = omega arith in ap (λ n. add_words mem n s) e
blocks_lem mem (suc n) s =
    let e : 16 + 16 * n ≡ 16 * suc n = omega arith in
    blocks_lem mem n (add_16_words mem s)
    ∙ ap (add_words mem (16 * n)) (unrolled mem s)
    ∙ sym (add_words_add mem 16 (16 * n) s)
    ∙ ap (λ n. add_words mem n s) e

add_words_lem :
    (mem : ℕ → ℕ) (n p c : ℕ)
    → c < 2 ^ 32
    → add_words mem n (p, c) ≡ (p + 2 * n, u32 (c + word_sum mem p n))
unfolding add_words
add_words_lem mem zero p c h = ap₂ (λ a b. (a, b)) (omega arith) (omega (arith, h))
add_words_lem mem (suc n) p c h =
    add_words_lem mem n (p + 2) (u32 (c + word_at mem p)) (omega arith)
    ∙ ap₂ (λ a b. (a, b)) (omega arith) (omega arith)

-- The last byte of an odd number of bytes.
abbrev pub odd_byte : (ℕ → ℕ) → (size : ℕ) → ℕ
odd_byte mem size = if size % 2 == 1 then mem (size - 1) % 256 else 0

loops :
    (mem : ℕ → ℕ) (size c : ℕ)
    → c < 2 ^ 32
    → add_words mem (size % 32 / 2) (add_blocks mem (size / 32) (0, c))
      ≡ (2 * (size / 2), u32 (c + word_sum mem 0 (size / 2)))
loops mem size c h =
    let n : 16 * (size / 32) + size % 32 / 2 ≡ size / 2 = omega arith in
    ap (add_words mem (size % 32 / 2)) (blocks_lem mem (size / 32) (0, c))
    ∙ sym (add_words_add mem (16 * (size / 32)) (size % 32 / 2) (0, c))
    ∙ ap (λ n. add_words mem n (0, c)) n
    ∙ add_words_lem mem (size / 2) 0 c h
    ∙ ap₂ (λ a b. (a, b)) (omega arith) refl

one_of : (n : ℕ) → (n == 1) ≡ true → n ≡ 1
one_of n e = ground (arith, e)

-- cksumUpdate adds all 16-bit words, and the last byte if their number is odd, modulo 2^32.
pub cksum_update_lem :
    (mem : ℕ → ℕ) (size c : ℕ)
    → c < 2 ^ 32
    → cksum_update mem size c ≡ u32 (c + word_sum mem 0 (size / 2) + odd_byte mem size)
unfolding cksum_update
cksum_update_lem mem size c h =
    ap (λ s. if size % 2 == 1 then u32 (s.1 + word_at mem s.0 % 256) else s.1) (loops mem size c h)
    ∙ elim (Bool-cases (size % 2 == 1)) [
      | inl e ↦ rw e (
          let odd : size % 2 ≡ 1 = one_of (size % 2) e in
          let at : mem (2 * (size / 2)) ≡ mem (size - 1) = ap mem (omega (arith, odd)) in
          omega (arith, at))
      | inr e ↦ rw e (omega arith)
    ]

word_sum_add :
    (mem : ℕ → ℕ) (p a b : ℕ)
    → word_sum mem p (a + b) ≡ word_sum mem p a + word_sum mem (p + 2 * a) b
word_sum_add mem p zero b =
    let e : 0 + b ≡ b = omega arith in
    let e' : p ≡ p + 2 * 0 = omega arith in
    omega (arith, ap (word_sum mem p) e, ap (λ q. word_sum mem q b) e')
word_sum_add mem p (suc a) b =
    let e : suc a + b ≡ suc (a + b) = omega arith in
    let e' : p + 2 + 2 * a ≡ p + 2 * suc a = omega arith in
    let w : word_sum mem p (suc a + b) ≡ word_at mem p + word_sum mem (p + 2) (a + b) =
      ap (word_sum mem p) e in
    omega (arith, w, word_sum_add mem (p + 2) a b, ap (λ q. word_sum mem q b) e')

shifted : (mem : ℕ → ℕ) (k p n : ℕ) → word_sum (λ i. mem (k + i)) p n ≡ word_sum mem (k + p) n
shifted mem k p zero = refl
shifted mem k p (suc n) =
    let e : k + (p + 1) ≡ k + p + 1 = omega arith in
    let e' : k + (p + 2) ≡ k + p + 2 = omega arith in
    omega (arith, ap mem e, shifted mem k (p + 2) n, ap (λ q. word_sum mem q n) e')

odd_byte_shift :
    (mem : ℕ → ℕ) (half size : ℕ)
    → odd_byte mem (2 * half + size) ≡ odd_byte (λ i. mem (2 * half + i)) size
odd_byte_shift mem half size =
    let parity : (2 * half + size) % 2 ≡ size % 2 = omega arith in
    ap (λ n. if n == 1 then mem (2 * half + size - 1) % 256 else 0) parity
    ∙ elim (Bool-cases (size % 2 == 1)) [
      | inl e ↦
          let odd : size % 2 ≡ 1 = one_of (size % 2) e in
          let at : 2 * half + size - 1 ≡ 2 * half + (size - 1) = omega (arith, odd) in
          rw e (ap (λ p. mem p % 256) at)
      | inr e ↦ rw e refl
    ]

odd_byte_even : (mem : ℕ → ℕ) (half : ℕ) → odd_byte mem (2 * half) ≡ 0
odd_byte_even mem half =
    let parity : 2 * half % 2 ≡ 0 = omega arith in
    ap (λ n. if n == 1 then mem (2 * half - 1) % 256 else 0) parity

-- The checksum of a buffer is that of its parts in turn, if the first has an even number of bytes.
pub cksum_update-cksum_update :
    (mem : ℕ → ℕ) (half size c : ℕ)
    → c < 2 ^ 32
    → cksum_update mem (2 * half + size) c
      ≡ cksum_update (λ i. mem (2 * half + i)) size (cksum_update mem (2 * half) c)
cksum_update-cksum_update mem half size c h =
    let rest : ℕ → ℕ = λ i. mem (2 * half + i) in
    let whole = cksum_update_lem mem (2 * half + size) c h in
    let front = cksum_update_lem mem (2 * half) c h in
    let back = cksum_update_lem rest size (cksum_update mem (2 * half) c) (omega (arith, front)) in
    let n : (2 * half + size) / 2 ≡ half + size / 2 = omega arith in
    let n' : 2 * half / 2 ≡ half = omega arith in
    let e : 2 * half + 0 ≡ 0 + 2 * half = omega arith in
    omega (
      arith,
      whole,
      front,
      back,
      ap (word_sum mem 0) n,
      ap (word_sum mem 0) n',
      word_sum_add mem 0 half (size / 2),
      shifted mem (2 * half) 0 (size / 2),
      ap (λ p. word_sum mem p (size / 2)) e,
      odd_byte_shift mem half size,
      odd_byte_even mem half,
    )

-- The 12 bytes of an IPv4 pseudo header, the addresses as they lie in memory.
abbrev pub pseudo_header : (src dst pro len : ℕ) → ℕ → ℕ
pseudo_header src dst pro len i =
    get_or
      (src % 256
        ∷ src / 256 % 256
        ∷ src / 65536 % 256
        ∷ src / 16777216
        ∷ dst % 256
        ∷ dst / 256 % 256
        ∷ dst / 65536 % 256
        ∷ dst / 16777216
        ∷ 0
        ∷ pro
        ∷ len / 256
        ∷ len % 256
        ∷ [])
      i 0

-- pseudoChecksum adds the 12 bytes of the pseudo header, for addresses of 32 bits, a length of 16 and
-- a protocol of 8.
pub pseudo_checksum_lem :
    (src dst pro len sum : ℕ)
    → src < 2 ^ 32
    → dst < 2 ^ 32
    → pro < 256
    → len < 65536
    → sum < 2 ^ 32
    → pseudo_checksum src dst pro len sum ≡ cksum_update (pseudo_header src dst pro len) 12 sum
unfolding pseudo_checksum
pseudo_checksum_lem src dst pro len sum s d p l h =
    omega arith ∙ sym (cksum_update_lem (pseudo_header src dst pro len) 12 sum h)
