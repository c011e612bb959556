-- ===== src/Ports/Bits.antt =====
-- The bits that lib/utils/portlist.c sets.
use pktgen_dpdk.Base.{
  ltb→lt, ℕ, zero, suc, ◌+◌, ◌-◌, ◌*◌, ◌^◌, ◌<◌, ◌≡◌, refl, sym, ap, ap₂, ◌∙◌, ◌⊎◌, inl, inr, Bool,
  true, false, ◌&&◌, ltb, leb, ◌==◌, if◌then◌else◌, max, bit, bit_high, bit_low, bit-bit_or,
  bit-zero, arith,
}
use Prim.Native.Nat.{bit_or}
use native.Mathlib.Nat.{one-le-pow}
use pktgen_dpdk.Ports.State.{set_bits, set_portlist_bits}

bit_one : (j : ℕ) → bit 1 (suc j) ≡ 0
unfolding bit
bit_one j = bit-zero j

abbrev pub one_when : ℕ → ℕ → ℕ
one_when i k = if i == k then 1 else 0

as_sum : (p : ℕ) → p ≡ 1 * p + 0
as_sum p = omega arith

where_is : (i k : ℕ) → (i < k) ⊎ ((j : ℕ) × (i ≡ k + j))
where_is i k = by_test (ltb i k) refl
  where
    by_test : (b : Bool) → ltb i k ≡ b → (i < k) ⊎ ((j : ℕ) × (i ≡ k + j))
    by_test true e = inl (ltb→lt i k e)
    by_test false e = inr (i - k, rest i k e)
      where
        rest : (i k : ℕ) → ltb i k ≡ false → i ≡ k + (i - k)
        rest i k e = ground arith

first_bit : bit 1 0 ≡ 1
unfolding bit
first_bit = refl

match_one : (i k : ℕ) → i ≡ k + 0 → one_when i k ≡ 1
match_one i k e = ground arith

-- A power of two has one bit.
pub bit_power : (k i : ℕ) → bit (2 ^ k) i ≡ one_when i k
bit_power k i = elim (where_is i k) [
  | inl lt ↦
      ap (λ n. bit n i) (as_sum (2 ^ k)) ∙ bit_low k 1 0 i lt ∙ bit-zero i ∙ sym (no_match i k lt)
  | inr (j, e) ↦
      ap₂ bit (as_sum (2 ^ k)) e
      ∙ bit_high k 1 0 j (one-le-pow k 2 (omega arith))
      ∙ at_or_above j i e
]
  where
    no_match : (i k : ℕ) → i < k → one_when i k ≡ 0
    no_match i k lt = ground arith

    at_or_above : (j i : ℕ) → i ≡ k + j → bit 1 j ≡ one_when i k
    at_or_above zero i e = first_bit ∙ sym (match_one i k e)
    at_or_above (suc j) i e = bit_one j ∙ sym (no_match' i k j e)
      where
        no_match' : (i k j : ℕ) → i ≡ k + suc j → one_when i k ≡ 0
        no_match' i k j e = ground arith

-- The bits from `low` on, `n` of them.
abbrev pub in_run : (low n i : ℕ) → ℕ
in_run low n i = if leb low i && ltb i (low + n) then 1 else 0

nothing : (b low i : ℕ) → b ≡ max b (in_run low 0 i)
nothing b low i = ground arith

bit-set_bits : (low n map i : ℕ) → bit (set_bits low n map) i ≡ max (bit map i) (in_run low n i)
unfolding set_bits
bit-set_bits low zero map i = nothing (bit map i) low i
bit-set_bits low (suc n) map i =
    bit-set_bits (low + 1) n (bit_or map (2 ^ low)) i
    ∙ ap (λ b. max b (in_run (low + 1) n i))
        (bit-bit_or map (2 ^ low) i ∙ ap (max (bit map i)) (bit_power low i))
    ∙ step (bit map i) low n i
  where
    step :
        (b low n i : ℕ)
        → max (max b (one_when i low)) (in_run (low + 1) n i) ≡ max b (in_run low (suc n) i)
    step b low n i = ground arith

-- set_portlist_bits sets the bits from `low` to `high`, and that of `low` in any case.
pub bit-set_portlist_bits :
    (low high map i : ℕ)
    → bit (set_portlist_bits low high map) i
      ≡ max (bit map i) (if leb low i && leb i (max low high) then 1 else 0)
unfolding set_portlist_bits
bit-set_portlist_bits low high map i =
    bit-set_bits low (suc (high - low)) map i ∙ ap (max (bit map i)) (run low high i)
  where
    run :
        (low high i : ℕ)
        → in_run low (suc (high - low)) i ≡ (if leb low i && leb i (max low high) then 1 else 0)
    run low high i = ground arith
