-- ===== src/Random/Memory.antt =====
-- Bytes of a packet and words: htonl, the load and the store of app/pktgen-random.c, bit by bit.
use pktgen_dpdk.Base.{
  length-set, get_or-set_self, get_or-set_ne, ◌≢◌, inl, inr, ℕ, zero, suc, ◌+◌, ◌-◌, ◌*◌, ◌/◌, ◌%◌,
  ◌^◌, ◌<◌, ◌≤◌, ◌≡◌, ◌≢◌, refl, sym, ap, ◌∙◌, subst, List, length, set, get_or, length-set, bit,
  bit_high, bit_low, bit-div, bit-mod, ◌⊎◌, inl, inr, arith,
}
use pktgen_dpdk.Random.State.{htonl, load32, store32}

-- Bit `i` of byte `q` of a word, the low byte first.
unfoldable pub byte_bit : (w q i : ℕ) → ℕ
byte_bit w q i = bit w (8 * q + i)

-- A word made of four bytes.
abbrev pub of_bytes : (b0 b1 b2 b3 : ℕ) → ℕ
of_bytes b0 b1 b2 b3 = b3 * 2 ^ 24 + (b2 * 2 ^ 16 + (b1 * 2 ^ 8 + b0))

-- The byte of an index.
abbrev pub pick : (b0 b1 b2 b3 q : ℕ) → ℕ
pick b0 b1 b2 b3 zero = b0
pick b0 b1 b2 b3 (suc zero) = b1
pick b0 b1 b2 b3 (suc (suc zero)) = b2
pick b0 b1 b2 b3 (suc (suc (suc q))) = b3

low_two : (b0 b1 : ℕ) → b0 < 256 → b1 < 256 → b1 * 2 ^ 8 + b0 < 2 ^ 16
low_two b0 b1 p q = omega arith

low_three :
    (b0 b1 b2 : ℕ) → b0 < 256 → b1 < 256 → b2 < 256 → b2 * 2 ^ 16 + (b1 * 2 ^ 8 + b0) < 2 ^ 24
low_three b0 b1 b2 p q r = omega arith

pub of_bytes-bit :
    (b0 b1 b2 b3 q i : ℕ)
    → b0 < 256
    → b1 < 256
    → b2 < 256
    → q < 4
    → i < 8
    → byte_bit (of_bytes b0 b1 b2 b3) q i ≡ bit (pick b0 b1 b2 b3 q) i
unfolding byte_bit
of_bytes-bit b0 b1 b2 b3 zero i p0 p1 p2 q lt =
    ap (bit (of_bytes b0 b1 b2 b3)) (at i)
    ∙ bit_low 24 b3 (b2 * 2 ^ 16 + (b1 * 2 ^ 8 + b0)) i (omega arith)
    ∙ bit_low 16 b2 (b1 * 2 ^ 8 + b0) i (omega arith)
    ∙ bit_low 8 b1 b0 i lt
  where
    at : (i : ℕ) → 8 * 0 + i ≡ i
    at i = omega arith
of_bytes-bit b0 b1 b2 b3 (suc zero) i p0 p1 p2 q lt =
    bit_low 24 b3 (b2 * 2 ^ 16 + (b1 * 2 ^ 8 + b0)) (8 + i) (omega arith)
    ∙ bit_low 16 b2 (b1 * 2 ^ 8 + b0) (8 + i) (omega arith)
    ∙ bit_high 8 b1 b0 i p0
of_bytes-bit b0 b1 b2 b3 (suc (suc zero)) i p0 p1 p2 q lt =
    bit_low 24 b3 (b2 * 2 ^ 16 + (b1 * 2 ^ 8 + b0)) (16 + i) (omega arith)
    ∙ bit_high 16 b2 (b1 * 2 ^ 8 + b0) i (low_two b0 b1 p0 p1)
of_bytes-bit b0 b1 b2 b3 (suc (suc (suc zero))) i p0 p1 p2 q lt =
    bit_high 24 b3 (b2 * 2 ^ 16 + (b1 * 2 ^ 8 + b0)) i (low_three b0 b1 b2 p0 p1 p2)
of_bytes-bit b0 b1 b2 b3 (suc (suc (suc (suc n)))) i p0 p1 p2 q lt = absurd (omega arith)

-- A byte of a word.
byte_of : (w q i : ℕ) → i < 8 → bit (w / 2 ^ (8 * q) % 256) i ≡ byte_bit w q i
unfolding byte_bit
byte_of w q i lt = bit-mod 8 (w / 2 ^ (8 * q)) i lt ∙ bit-div (8 * q) w i

byte_zero : (w i : ℕ) → i < 8 → bit (w % 256) i ≡ byte_bit w 0 i
unfolding byte_bit
byte_zero w i lt = bit-mod 8 w i lt ∙ ap (bit w) (first i)
  where
    first : (i : ℕ) → i ≡ 8 * 0 + i
    first i = omega arith

byte_lt : (w : ℕ) → w % 256 < 256
byte_lt w = omega arith

-- htonl turns the order of the bytes round.
pub htonl_bit : (w q i : ℕ) → q < 4 → i < 8 → byte_bit (htonl w) q i ≡ byte_bit w (3 - q) i
unfolding htonl
htonl_bit w q i lt lt' =
    of_bytes-bit (w / 2 ^ 24 % 256) (w / 2 ^ 16 % 256) (w / 2 ^ 8 % 256) (w % 256) q i
      (byte_lt (w / 2 ^ 24)) (byte_lt (w / 2 ^ 16)) (byte_lt (w / 2 ^ 8)) lt lt'
    ∙ by_byte q lt
  where
    by_byte :
        (q : ℕ)
        → q < 4
        → bit (pick (w / 2 ^ 24 % 256) (w / 2 ^ 16 % 256) (w / 2 ^ 8 % 256) (w % 256) q) i
          ≡ byte_bit w (3 - q) i
    by_byte zero lt = byte_of w 3 i lt'
    by_byte (suc zero) lt = byte_of w 2 i lt'
    by_byte (suc (suc zero)) lt = byte_of w 1 i lt'
    by_byte (suc (suc (suc zero))) lt = byte_zero w i lt'
    by_byte (suc (suc (suc (suc n)))) lt = absurd (omega arith)

-- A packet is a list of bytes.
unfoldable pub Bytes : List ℕ → Type 0
Bytes pkt = (i : ℕ) → get_or pkt i 0 < 256

pub load32-bit :
    (pkt : List ℕ) (offset q i : ℕ)
    → Bytes pkt
    → q < 4
    → i < 8
    → byte_bit (load32 pkt offset) q i ≡ bit (get_or pkt (offset + q) 0) i
unfolding load32 Bytes
load32-bit pkt offset q i bytes lt lt' =
    of_bytes-bit (get_or pkt offset 0) (get_or pkt (offset + 1) 0) (get_or pkt (offset + 2) 0)
      (get_or pkt (offset + 3) 0) q i (bytes offset) (bytes (offset + 1)) (bytes (offset + 2)) lt
      lt'
    ∙ by_byte q lt
  where
    by_byte :
        (q : ℕ)
        → q < 4
        → bit
            (pick
              (get_or pkt offset 0)
              (get_or pkt (offset + 1) 0)
              (get_or pkt (offset + 2) 0)
              (get_or pkt (offset + 3) 0)
              q)
            i
          ≡ bit (get_or pkt (offset + q) 0) i
    by_byte zero lt = ap (λ n. bit (get_or pkt n 0) i) (omega arith)
    by_byte (suc zero) lt = refl
    by_byte (suc (suc zero)) lt = refl
    by_byte (suc (suc (suc zero))) lt = refl
    by_byte (suc (suc (suc (suc n)))) lt = absurd (omega arith)

-- The byte that a store writes.
abbrev stored : (w q : ℕ) → ℕ
stored w q = pick (w % 256) (w / 2 ^ 8 % 256) (w / 2 ^ 16 % 256) (w / 2 ^ 24 % 256) q

-- Four writes one behind the other, read at each place and elsewhere.
module _ (xs : List ℕ) (o a b c d : ℕ) where
  abbrev set4 : List ℕ
  set4 = set (set (set (set xs o a) (o + 1) b) (o + 2) c) (o + 3) d

  passed :
      (i : ℕ) (ys : List ℕ) (j k l : ℕ) (x y z : ℕ)
      → j ≢ i
      → k ≢ i
      → l ≢ i
      → get_or (set (set (set ys j x) k y) l z) i 0 ≡ get_or ys i 0
  passed i ys j k l x y z e f g =
      get_or-set_ne (set (set ys j x) k y) l i z 0 g
      ∙ get_or-set_ne (set ys j x) k i y 0 f
      ∙ get_or-set_ne ys j i x 0 e

  set4-zero : o < length xs → get_or set4 (o + 0) 0 ≡ a
  set4-zero lt =
      ap (λ i. get_or set4 i 0) (omega arith)
      ∙ passed o (set xs o a) (o + 1) (o + 2) (o + 3) b c d (λ e. omega arith) (λ e. omega arith)
          (λ e. omega arith)
      ∙ get_or-set_self xs o a 0 lt

  set4-one : o + 1 < length xs → get_or set4 (o + 1) 0 ≡ b
  set4-one lt =
      get_or-set_ne (set (set (set xs o a) (o + 1) b) (o + 2) c) (o + 3) (o + 1) d 0
        (λ e. omega arith)
      ∙ get_or-set_ne (set (set xs o a) (o + 1) b) (o + 2) (o + 1) c 0 (λ e. omega arith)
      ∙ get_or-set_self (set xs o a) (o + 1) b 0
          (subst (λ n. o + 1 < n) (sym (length-set xs o a)) lt)

  set4-two : o + 2 < length xs → get_or set4 (o + 2) 0 ≡ c
  set4-two lt =
      get_or-set_ne (set (set (set xs o a) (o + 1) b) (o + 2) c) (o + 3) (o + 2) d 0
        (λ e. omega arith)
      ∙ get_or-set_self (set (set xs o a) (o + 1) b) (o + 2) c 0
          (subst (λ n. o + 2 < n) (sym (length-set (set xs o a) (o + 1) b ∙ length-set xs o a)) lt)

  set4-three : o + 3 < length xs → get_or set4 (o + 3) 0 ≡ d
  set4-three lt = get_or-set_self (set (set (set xs o a) (o + 1) b) (o + 2) c) (o + 3) d 0 (
      subst (λ n. o + 3 < n)
        (sym (
          length-set (set (set xs o a) (o + 1) b) (o + 2) c
          ∙ length-set (set xs o a) (o + 1) b
          ∙ length-set xs o a))
        lt)

  set4-other : (i : ℕ) → (i < o) ⊎ (o + 4 ≤ i) → get_or set4 i 0 ≡ get_or xs i 0
  set4-other i (inl lt) =
      passed i (set xs o a) (o + 1) (o + 2) (o + 3) b c d (λ e. omega arith) (λ e. omega arith)
        (λ e. omega arith)
      ∙ get_or-set_ne xs o i a 0 (λ e. omega arith)
  set4-other i (inr le) =
      passed i (set xs o a) (o + 1) (o + 2) (o + 3) b c d (λ e. omega arith) (λ e. omega arith)
        (λ e. omega arith)
      ∙ get_or-set_ne xs o i a 0 (λ e. omega arith)

module _ (pkt : List ℕ) (offset w : ℕ) (fits : offset + 4 ≤ length pkt) where
  store32_byte : (q : ℕ) → q < 4 → get_or (store32 pkt offset w) (offset + q) 0 ≡ stored w q
  unfolding store32
  store32_byte zero lt =
      set4-zero pkt offset (w % 256) (w / 2 ^ 8 % 256) (w / 2 ^ 16 % 256) (w / 2 ^ 24 % 256)
        (omega arith)
  store32_byte (suc zero) lt =
      set4-one pkt offset (w % 256) (w / 2 ^ 8 % 256) (w / 2 ^ 16 % 256) (w / 2 ^ 24 % 256)
        (omega arith)
  store32_byte (suc (suc zero)) lt =
      set4-two pkt offset (w % 256) (w / 2 ^ 8 % 256) (w / 2 ^ 16 % 256) (w / 2 ^ 24 % 256)
        (omega arith)
  store32_byte (suc (suc (suc zero))) lt =
      set4-three pkt offset (w % 256) (w / 2 ^ 8 % 256) (w / 2 ^ 16 % 256) (w / 2 ^ 24 % 256)
        (omega arith)
  store32_byte (suc (suc (suc (suc n)))) lt = absurd (omega arith)

  pub bit-store32 :
      (q i : ℕ)
      → q < 4
      → i < 8
      → bit (get_or (store32 pkt offset w) (offset + q) 0) i ≡ byte_bit w q i
  bit-store32 q i lt lt' = ap (λ n. bit n i) (store32_byte q lt) ∙ by_byte q lt
    where
      by_byte : (q : ℕ) → q < 4 → bit (stored w q) i ≡ byte_bit w q i
      by_byte zero lt = byte_zero w i lt'
      by_byte (suc zero) lt = byte_of w 1 i lt'
      by_byte (suc (suc zero)) lt = byte_of w 2 i lt'
      by_byte (suc (suc (suc zero))) lt = byte_of w 3 i lt'
      by_byte (suc (suc (suc (suc n)))) lt = absurd (omega arith)

  -- The bytes in front of the word and behind it stay.
  pub store32_other :
      (i : ℕ) → (i < offset) ⊎ (offset + 4 ≤ i) → get_or (store32 pkt offset w) i 0 ≡ get_or pkt i 0
  unfolding store32
  store32_other i away =
      set4-other pkt offset (w % 256) (w / 2 ^ 8 % 256) (w / 2 ^ 16 % 256) (w / 2 ^ 24 % 256) i away
