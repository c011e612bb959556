-- ===== src/Streams/Mask.antt =====
-- size_to_mask of lib/common/pg_inet.h: the bits of a mask.
use pktgen_dpdk.Base.{
  ℕ, zero, suc, ◌+◌, ◌-◌, ◌^◌, ◌≤◌, ◌≡◌, refl, sym, ap, ◌∙◌, Bool, true, false, ◌&&◌, ltb, leb,
  ◌==◌, ==_iff, if◌then◌else◌, max, bit, bit-zero, bit-bit_or, arith,
}
use Prim.Native.Nat.{bit_or}
use pktgen_dpdk.Ports.Bits.{one_when, bit_power}
use pktgen_dpdk.Streams.State.{size_to_mask, mask_bits}

-- The bits that the loop sets in `n` rounds from round `i` on.
abbrev in_rounds : (n i j : ℕ) → ℕ
in_rounds n i j = if leb (32 - i - n) j && ltb j (32 - i) then 1 else 0

bit-mask_bits :
    (n i mask j : ℕ) → i + n ≤ 32 → bit (mask_bits n i mask) j ≡ max (bit mask j) (in_rounds n i j)
unfolding mask_bits
bit-mask_bits zero i mask j le = none_set (bit mask j) i j
  where
    none_set : (b i j : ℕ) → b ≡ max b (in_rounds 0 i j)
    none_set b i j = ground arith
bit-mask_bits (suc n) i mask j le =
    bit-mask_bits n (i + 1) (bit_or mask (2 ^ (31 - i))) j (omega arith)
    ∙ ap (λ b. max b (in_rounds n (i + 1) j))
        (bit-bit_or mask (2 ^ (31 - i)) j ∙ ap (max (bit mask j)) (bit_power (31 - i) j))
    ∙ next (bit mask j) n i j le
  where
    next :
        (b n i j : ℕ)
        → i + suc n ≤ 32
        → max (max b (one_when j (31 - i))) (in_rounds n (i + 1) j) ≡ max b (in_rounds (suc n) i j)
    next b n i j le = ground arith

same_if : (len n x y z : ℕ) → (len ≡ n → x ≡ z) → y ≡ z → (if len == n then x else y) ≡ z
same_if len n x y z f e = by_test (len == n) (λ t. f ((==_iff len n).0 t))
  where
    by_test : (b : Bool) → (b ≡ true → x ≡ z) → (if b then x else y) ≡ z
    by_test true g = g refl
    by_test false g = e

-- The constants are what the loop would give.
size_to_mask-mask_bits : (len : ℕ) → size_to_mask len ≡ mask_bits len 0 0
unfolding size_to_mask mask_bits
size_to_mask-mask_bits len =
    same_if len 0 0 _ _ (λ e. at 0 0 len refl e)
      (same_if len 8 4278190080 _ _ (λ e. at 8 4278190080 len eight e)
        (same_if len 16 4294901760 _ _ (λ e. at 16 4294901760 len sixteen e)
          (same_if len 24 4294967040 _ _ (λ e. at 24 4294967040 len twenty_four e)
            (same_if len 32 4294967295 _ _ (λ e. at 32 4294967295 len thirty_two e) refl))))
  where
    at : (n m len : ℕ) → m ≡ mask_bits n 0 0 → len ≡ n → m ≡ mask_bits len 0 0
    at n m len e f = e ∙ ap (λ n. mask_bits n 0 0) (sym f)

    eight : 4278190080 ≡ mask_bits 8 0 0
    eight = refl

    sixteen : 4294901760 ≡ mask_bits 16 0 0
    sixteen = refl

    twenty_four : 4294967040 ≡ mask_bits 24 0 0
    twenty_four = refl

    thirty_two : 4294967295 ≡ mask_bits 32 0 0
    thirty_two = refl

-- A number with the highest `len` of 32 bits set, and no other.
pub IsMask : (len m : ℕ) → Type 0
IsMask len m = (j : ℕ) → bit m j ≡ (if leb (32 - len) j && ltb j 32 then 1 else 0)

pub size_to_mask-IsMask : (len : ℕ) → len ≤ 32 → IsMask len (size_to_mask len)
unfolding IsMask
size_to_mask-IsMask len le j =
    ap (λ m. bit m j) (size_to_mask-mask_bits len)
    ∙ bit-mask_bits len 0 0 j (from_zero len le)
    ∙ ap (λ b. max b (in_rounds len 0 j)) (bit-zero j)
    ∙ all_rounds len j
  where
    from_zero : (n : ℕ) → n ≤ 32 → 0 + n ≤ 32
    from_zero n le = omega arith

    all_rounds :
        (len j : ℕ) → max 0 (in_rounds len 0 j) ≡ (if leb (32 - len) j && ltb j 32 then 1 else 0)
    all_rounds len j = ground arith
