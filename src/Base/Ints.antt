-- ===== src/Base/Ints.antt =====
-- Signed numbers and their two's complement words.
use Prim.Native.Nat.{ℕ, ◌-◌, ◌/◌, ◌%◌, ◌<◌, ◌≤◌}
use mathlib.Core.Path.{◌≡◌, ap, ◌∙◌}
use pktgen_dpdk.Base.Tests.{ltb, if◌then◌else◌, taken, skipped, lt→ltb, le→ltb}
use native.Mathlib.Nat.{mod-eq_of_lt}
use native.Mathlib.Omega.{arith}

-- `negsuc n` is -(n + 1).
pub data ℤ : Type 0 where
  pos : ℕ → ℤ
  negsuc : ℕ → ℤ

-- The word of a number, of `size` values: C's conversion to an unsigned type.
unfoldable pub to_word : (size : ℕ) → ℤ → ℕ
to_word size (pos n) = n % size
to_word size (negsuc n) = size - 1 - n % size

-- C's conversion to a signed type.
unfoldable pub to_int : (size : ℕ) → ℕ → ℤ
to_int size n = if ltb (n % size) (size / 2) then pos (n % size) else negsuc (size - 1 - n % size)

-- The number fits a signed type of `size` values.
abbrev pub FitsIn : (size : ℕ) → ℤ → Type 0
FitsIn size (pos n) = n < size / 2
FitsIn size (negsuc n) = n < size / 2

below : (n size : ℕ) → n < size / 2 → n < size
below n size lt = omega arith

below_neg : (n size : ℕ) → n < size / 2 → size - 1 - n < size
below_neg n size lt = omega arith

high : (n size : ℕ) → n < size / 2 → size / 2 ≤ size - 1 - n
high n size lt = omega arith

back : (n size : ℕ) → n < size / 2 → size - 1 - (size - 1 - n) ≡ n
back n size lt = omega arith

-- A number that fits comes back from its word.
pub to_int-to_word : (size : ℕ) (z : ℤ) → FitsIn size z → to_int size (to_word size z) ≡ z
unfolding to_int to_word
to_int-to_word size (pos n) lt =
    let e = ap (λ m. m % size) (mod-eq_of_lt (below n size lt)) ∙ mod-eq_of_lt (below n size lt) in
    ap (λ m. if ltb m (size / 2) then pos m else negsuc (size - 1 - m)) e
    ∙ taken (ltb n (size / 2)) (pos n) (negsuc (size - 1 - n)) (lt→ltb n (size / 2) lt)
to_int-to_word size (negsuc n) lt =
    let e =
      ap (λ m. (size - 1 - m) % size) (mod-eq_of_lt (below n size lt))
      ∙ mod-eq_of_lt (below_neg n size lt) in
    ap (λ m. if ltb m (size / 2) then pos m else negsuc (size - 1 - m)) e
    ∙ skipped (ltb (size - 1 - n) (size / 2)) (pos (size - 1 - n))
        (negsuc (size - 1 - (size - 1 - n))) (le→ltb (size - 1 - n) (size / 2) (high n size lt))
    ∙ ap negsuc (back n size lt)

-- A word is below its size.
pub to_word_lt : (size : ℕ) (z : ℤ) → FitsIn size z → to_word size z < size
unfolding to_word
to_word_lt size (pos n) lt = small n size lt (mod-eq_of_lt (below n size lt))
  where
    small : (n s : ℕ) → n < s / 2 → n % s ≡ n → n % s < s
    small n s a e = omega arith
to_word_lt size (negsuc n) lt = small n (n % size) size lt
  where
    small : (n m s : ℕ) → n < s / 2 → s - 1 - m < s
    small n m s a = omega arith
