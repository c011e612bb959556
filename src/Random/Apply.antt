-- ===== src/Random/Apply.antt =====
-- pktgen_rnd_bits_apply of app/pktgen-random.c under a specification of pktgen_set_random_bitfield.
use pktgen_dpdk.Base.{
  bit_lt, bit-bit_and, Bool-cases, taken, skipped, ◌==◌, ==_iff, get_or, ℕ, ◌+◌, ◌-◌, ◌*◌, ◌<◌, ◌≤◌,
  ◌≡◌, sym, ap, ap₂, ◌∙◌, List, length, get_or, get_elem?, Option, none, some, Option-cases,
  Bool-cases, inl, inr, min, max, ◌==◌, ==_iff, taken, skipped, bit, bit-bit_and, bit-bit_or,
  bit_lt, bit-complement, bit-zero, bit_or_lt, arith,
}
use Prim.Native.Nat.{bit_and, bit_or}
use pktgen_dpdk.Random.State.{
  load32, apply_spec, BfSpec, MaskChar, zero_bit, one_bit, ignore_bit, random_bit, in_mask0,
  in_mask1, in_mask_rnd, htonl, complement, load32, mask_word, apply_spec,
}
use pktgen_dpdk.Random.Masks.{placed_lt, get_elem?-none, placed, bit-placed, placed_none}
use pktgen_dpdk.Random.Memory.{
  Bytes, load32-bit, bit-store32, byte_bit, htonl_bit, Bytes, load32-bit, bit-store32,
}

-- The bit that a character of the mask asks for; behind the mask every bit stays.
pub expected : Option MaskChar → (old rnd : ℕ) → ℕ
expected none old rnd = old
expected (some zero_bit) old rnd = 0
expected (some one_bit) old rnd = 1
expected (some ignore_bit) old rnd = old
expected (some random_bit) old rnd = rnd

-- The specification of a mask string.
abbrev pub mask_spec : (offset : ℕ) → List MaskChar → BfSpec
mask_spec offset xs = record {
  offset = offset;
  and_mask = htonl (complement (bit_or (placed in_mask0 xs) (placed in_mask_rnd xs)));
  or_mask = htonl (placed in_mask1 xs);
  rnd_mask = htonl (placed in_mask_rnd xs);
}

-- The three masks together on one bit.
merged : (m0 m1 mr old rnd : ℕ) → ℕ
merged m0 m1 mr old rnd = max (max (min old (1 - max m0 mr)) m1) (min rnd mr)

merged_char :
    (x : MaskChar) (old rnd : ℕ)
    → old < 2
    → rnd < 2
    → merged (in_mask0 x) (in_mask1 x) (in_mask_rnd x) old rnd ≡ expected (some x) old rnd
unfolding merged expected
merged_char zero_bit old rnd p q = omega arith
merged_char one_bit old rnd p q = omega arith
merged_char ignore_bit old rnd p q = omega arith
merged_char random_bit old rnd p q = omega arith

merged_none : (old rnd : ℕ) → old < 2 → merged 0 0 0 old rnd ≡ old
unfolding merged
merged_none old rnd p = omega arith

two0 : (x : MaskChar) → in_mask0 x < 2
two0 zero_bit = omega arith
two0 one_bit = omega arith
two0 ignore_bit = omega arith
two0 random_bit = omega arith

two1 : (x : MaskChar) → in_mask1 x < 2
two1 zero_bit = omega arith
two1 one_bit = omega arith
two1 ignore_bit = omega arith
two1 random_bit = omega arith

two_rnd : (x : MaskChar) → in_mask_rnd x < 2
two_rnd zero_bit = omega arith
two_rnd one_bit = omega arith
two_rnd ignore_bit = omega arith
two_rnd random_bit = omega arith

or_bits : (a b q i : ℕ) → byte_bit (bit_or a b) q i ≡ max (byte_bit a q i) (byte_bit b q i)
unfolding byte_bit
or_bits a b q i = bit-bit_or a b (8 * q + i)

and_bits : (a b q i : ℕ) → byte_bit (bit_and a b) q i ≡ min (byte_bit a q i) (byte_bit b q i)
unfolding byte_bit
and_bits a b q i = bit-bit_and a b (8 * q + i)

byte_bit_lt : (w q i : ℕ) → byte_bit w q i < 2
unfolding byte_bit
byte_bit_lt w q i = bit_lt w (8 * q + i)

module _ (xs : List MaskChar) (le : length xs ≤ 32) where
  abbrev m0 : ℕ
  m0 = placed in_mask0 xs

  abbrev m1 : ℕ
  m1 = placed in_mask1 xs

  abbrev mr : ℕ
  mr = placed in_mask_rnd xs

  at_bit :
      (k a b c old rnd : ℕ)
      → bit m0 k ≡ a
      → bit m1 k ≡ b
      → bit mr k ≡ c
      → merged (bit m0 k) (bit m1 k) (bit mr k) old rnd ≡ merged a b c old rnd
  at_bit k a b c old rnd e f g =
      ap₂ (λ a b. merged a b (bit mr k) old rnd) e f ∙ ap (λ c. merged a b c old rnd) g

  merged_placed :
      (j old rnd : ℕ)
      → j < 32
      → old < 2
      → rnd < 2
      → merged (bit m0 (31 - j)) (bit m1 (31 - j)) (bit mr (31 - j)) old rnd
        ≡ expected (get_elem? xs j) old rnd
  unfolding merged expected
  merged_placed j old rnd lt p q = elim (Option-cases (get_elem? xs j)) [
    | inl e ↦
        let out = get_elem?-none xs j e in
        at_bit (31 - j) 0 0 0 old rnd (placed_none in_mask0 xs j two0 le out lt)
          (placed_none in_mask1 xs j two1 le out lt)
          (placed_none in_mask_rnd xs j two_rnd le out lt)
        ∙ merged_none old rnd p
        ∙ ap (λ o. expected o old rnd) (sym e)
    | inr (x, e) ↦
        at_bit (31 - j) (in_mask0 x) (in_mask1 x) (in_mask_rnd x) old rnd
          (bit-placed in_mask0 xs j x two0 le e) (bit-placed in_mask1 xs j x two1 le e)
          (bit-placed in_mask_rnd xs j x two_rnd le e)
        ∙ merged_char x old rnd p q
        ∙ ap (λ o. expected o old rnd) (sym e)
  ]

  -- The masks as htonl leaves them, at a bit of the packet.
  and_bit :
      (q i : ℕ)
      → q < 4
      → i < 8
      → byte_bit (htonl (complement (bit_or m0 mr))) q i
        ≡ 1 - max (byte_bit m0 (3 - q) i) (byte_bit mr (3 - q) i)
  unfolding byte_bit
  and_bit q i lt lt' =
      htonl_bit (complement (bit_or m0 mr)) q i lt lt'
      ∙ bit-complement 32 (bit_or m0 mr) (8 * (3 - q) + i) (omega arith)
          (bit_or_lt 32 m0 mr (placed_lt in_mask0 xs) (placed_lt in_mask_rnd xs))
      ∙ ap (λ b. 1 - b) (bit-bit_or m0 mr (8 * (3 - q) + i))

  -- Where every bit of a byte of the mask is 0, that byte adds no random bit.
  rnd_zero : (q i : ℕ) → htonl mr ≡ 0 → byte_bit (htonl mr) q i ≡ 0
  unfolding byte_bit
  rnd_zero q i e = ap (λ n. bit n (8 * q + i)) e ∙ bit-zero (8 * q + i)

  -- The character of a bit of the packet.
  at_place :
      (q i old rnd : ℕ)
      → q < 4
      → i < 8
      → old < 2
      → rnd < 2
      → merged (byte_bit m0 (3 - q) i) (byte_bit m1 (3 - q) i) (byte_bit mr (3 - q) i) old rnd
        ≡ expected (get_elem? xs (8 * q + (7 - i))) old rnd
  unfolding byte_bit
  at_place q i old rnd lt lt' p r =
      ap (λ k. merged (bit m0 k) (bit m1 k) (bit mr k) old rnd) (place q i lt lt')
      ∙ merged_placed (8 * q + (7 - i)) old rnd (omega arith) p r
    where
      place : (q i : ℕ) → q < 4 → i < 8 → 8 * (3 - q) + i ≡ 31 - (8 * q + (7 - i))
      place q i lt lt' = omega arith

  module _ {St : Type 0} (rnd_func : St → St × ℕ) (offset : ℕ) (state : St) where
    -- The bits behind the two masks that are always applied.
    fixed_bit :
        (w q i : ℕ)
        → q < 4
        → i < 8
        → byte_bit
            (bit_or (bit_and w (mask_spec offset xs).and_mask) (mask_spec offset xs).or_mask)
            q
            i
          ≡ max
              (min (byte_bit w q i) (1 - max (byte_bit m0 (3 - q) i) (byte_bit mr (3 - q) i)))
              (byte_bit m1 (3 - q) i)
    unfolding byte_bit
    fixed_bit w q i lt lt' =
        bit-bit_or (bit_and w (mask_spec offset xs).and_mask) (htonl m1) (8 * q + i)
        ∙ ap₂ max
            (bit-bit_and w (mask_spec offset xs).and_mask (8 * q + i)
              ∙ ap (min (bit w (8 * q + i))) (and_bit q i lt lt'))
            (htonl_bit m1 q i lt lt')

    -- One bit of the word that the specification makes.
    mask_word_bit :
        (w q i : ℕ)
        → q < 4
        → i < 8
        → byte_bit (mask_word rnd_func state (mask_spec offset xs) w).1 q i
          ≡ merged
              (byte_bit m0 (3 - q) i)
              (byte_bit m1 (3 - q) i)
              (byte_bit mr (3 - q) i)
              (byte_bit w q i)
              (byte_bit (rnd_func state).1 q i)
    unfolding mask_word merged
    mask_word_bit w q i lt lt' =
        let spec = mask_spec offset xs in
        let fixed = bit_or (bit_and w spec.and_mask) spec.or_mask in
        let kept = fixed_bit w q i lt lt' in
        elim (Bool-cases (spec.rnd_mask == 0)) [
          | inl e ↦
              ap (λ (r : St × ℕ). byte_bit (r.1) q i)
                (taken (spec.rnd_mask == 0) (state, fixed) _ e)
              ∙ kept
              ∙ no_random
                  (max
                    (min (byte_bit w q i) (1 - max (byte_bit m0 (3 - q) i) (byte_bit mr (3 - q) i)))
                    (byte_bit m1 (3 - q) i))
                  (byte_bit (rnd_func state).1 q i) (byte_bit mr (3 - q) i)
                  (sym (htonl_bit mr q i lt lt') ∙ rnd_zero q i ((==_iff (htonl mr) 0).0 e))
          | inr e ↦
              ap (λ (r : St × ℕ). byte_bit (r.1) q i)
                (skipped (spec.rnd_mask == 0) (state, fixed) _ e)
              ∙ or_bits fixed (bit_and (rnd_func state).1 spec.rnd_mask) q i
              ∙ ap₂ max kept (
                  and_bits (rnd_func state).1 spec.rnd_mask q i
                  ∙ ap (min (byte_bit (rnd_func state).1 q i)) (htonl_bit mr q i lt lt'))
        ]
      where
        no_random : (a r m : ℕ) → m ≡ 0 → a ≡ max a (min r m)
        no_random a r m e = omega arith

    -- A specification of a mask string on a packet: each of the 32 bits from the offset on becomes what
    -- the character at its place asks for.
    pub mask_spec_lem :
        (pkt : List ℕ) (q i : ℕ)
        → Bytes pkt
        → offset + 4 ≤ length pkt
        → q < 4
        → i < 8
        → bit (get_or (apply_spec rnd_func state (mask_spec offset xs) pkt).1 (offset + q) 0) i
          ≡ expected
              (get_elem? xs (8 * q + (7 - i)))
              (bit (get_or pkt (offset + q) 0) i)
              (byte_bit (rnd_func state).1 q i)
    unfolding apply_spec
    mask_spec_lem pkt q i bytes fits lt lt' =
        let w = load32 pkt offset in
        bit-store32 pkt offset (mask_word rnd_func state (mask_spec offset xs) w).1 fits q i lt lt'
        ∙ mask_word_bit w q i lt lt'
        ∙ at_place q i (byte_bit w q i) (byte_bit (rnd_func state).1 q i) lt lt' (byte_bit_lt w q i)
            (byte_bit_lt (rnd_func state).1 q i)
        ∙ ap
            (λ old. expected (get_elem? xs (8 * q + (7 - i))) old (byte_bit (rnd_func state).1 q i))
            (load32-bit pkt offset q i bytes lt lt')
