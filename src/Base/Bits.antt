-- ===== src/Base/Bits.antt =====
-- The binary digits of numbers, and what the bitwise operations do to each.
use Prim.Native.Nat.{
  ℕ, zero, suc, ◌+◌, ◌-◌, ◌*◌, ◌/◌, ◌%◌, ◌^◌, ◌≤◌, ◌<◌, min, max, bit_and, bit_or, digits, bitwise,
  bit_and-bitwise, bit_or-bitwise,
}
use mathlib.Core.Path.{◌≡◌, refl, sym, ap, ap₂, ◌∙◌}
use native.Mathlib.Omega.{arith}
use native.Mathlib.Numerals.{unary_clauses}
use native.Mathlib.Nat.{one-mul, pow-succ', mul_assoc, mul-add, mod-lt, one-le-pow, div-add-mod'}

-- Digit `i` of a number, the lowest first.
unfoldable pub bit : ℕ → ℕ → ℕ
bit n zero = n % 2
bit n (suc i) = bit (n / 2) i

-- A bitwise operation takes one digit of each number at a time.
module _ (z : ℕ → ℕ) (f : ℕ → ℕ → ℕ) where
  more_fuel : (n m a b : ℕ) → a ≤ n → a ≤ m → digits z f n a b ≡ digits z f m a b
  more_fuel zero zero a b p q = refl
  more_fuel zero (suc m) zero b p q = refl
  more_fuel zero (suc m) (suc a) b p q = absurd (omega arith)
  more_fuel (suc n) zero zero b p q = refl
  more_fuel (suc n) zero (suc a) b p q = absurd (omega arith)
  more_fuel (suc n) (suc m) zero b p q = refl
  more_fuel (suc n) (suc m) (suc a) b p q =
      ap (λ d. d * 2 + f (suc a % 2) (b % 2))
        (more_fuel n m (suc a / 2) (b / 2) (omega arith) (omega arith))

  module _ (at_zero : (b : ℕ) → z b ≡ z (b / 2) * 2 + f 0 (b % 2)) where
    one_digit : (a b : ℕ) → bitwise z f a b ≡ bitwise z f (a / 2) (b / 2) * 2 + f (a % 2) (b % 2)
    one_digit zero b = at_zero b
    one_digit (suc a) b =
        ap (λ d. d * 2 + f (suc a % 2) (b % 2))
          (more_fuel a (suc a / 2) (suc a / 2) (b / 2) (omega arith) (omega arith))

low_digit : (d x n : ℕ) → x < 2 → n ≡ d * 2 + x → (n % 2 ≡ x) × (n / 2 ≡ d)
low_digit d x n lt e = (omega arith, omega arith)

and_step :
    (a b : ℕ)
    → (bit_and a b % 2 ≡ min (a % 2) (b % 2)) × (bit_and a b / 2 ≡ bit_and (a / 2) (b / 2))
and_step a b =
    low_digit (bit_and (a / 2) (b / 2)) (min (a % 2) (b % 2)) (bit_and a b) (omega arith) (
      bit_and-bitwise a b
      ∙ one_digit (λ b. zero) min (λ b. omega arith) a b
      ∙ ap (λ d. d * 2 + min (a % 2) (b % 2)) (sym (bit_and-bitwise (a / 2) (b / 2))))

or_step :
    (a b : ℕ) → (bit_or a b % 2 ≡ max (a % 2) (b % 2)) × (bit_or a b / 2 ≡ bit_or (a / 2) (b / 2))
or_step a b = low_digit (bit_or (a / 2) (b / 2)) (max (a % 2) (b % 2)) (bit_or a b) (omega arith) (
    bit_or-bitwise a b
    ∙ one_digit (λ b. b) max (λ b. omega arith) a b
    ∙ ap (λ d. d * 2 + max (a % 2) (b % 2)) (sym (bit_or-bitwise (a / 2) (b / 2))))

pub bit-bit_and : (a b i : ℕ) → bit (bit_and a b) i ≡ min (bit a i) (bit b i)
unfolding bit
bit-bit_and a b zero = (and_step a b).0
bit-bit_and a b (suc i) = ap (λ n. bit n i) (and_step a b).1 ∙ bit-bit_and (a / 2) (b / 2) i

pub bit-bit_or : (a b i : ℕ) → bit (bit_or a b) i ≡ max (bit a i) (bit b i)
unfolding bit
bit-bit_or a b zero = (or_step a b).0
bit-bit_or a b (suc i) = ap (λ n. bit n i) (or_step a b).1 ∙ bit-bit_or (a / 2) (b / 2) i

pub bit_lt : (n i : ℕ) → bit n i < 2
unfolding bit
bit_lt n zero = omega arith
bit_lt n (suc i) = bit_lt (n / 2) i

double : (w : ℕ) → 2 ^ suc w ≡ 2 ^ w + 2 ^ w
double w = simp unary_clauses (omega arith)

half_complement :
    (p q n : ℕ)
    → q ≡ p + p
    → n < q
    → ((q - 1 - n) % 2 ≡ 1 - n % 2) × ((q - 1 - n) / 2 ≡ p - 1 - n / 2) × (n / 2 < p)
half_complement p q n e lt = (omega arith, omega arith, omega arith)

-- The complement of a word of `w` bits.
pub bit-complement : (w n i : ℕ) → i < w → n < 2 ^ w → bit (2 ^ w - 1 - n) i ≡ 1 - bit n i
unfolding bit
bit-complement zero n i lt small = absurd (omega arith)
bit-complement (suc w) n zero lt small = (half_complement (2 ^ w) (2 ^ suc w) n (double w) small).0
bit-complement (suc w) n (suc i) lt small =
    let (low, rest, below) = half_complement (2 ^ w) (2 ^ suc w) n (double w) small in
    ap (λ m. bit m i) rest ∙ bit-complement w (n / 2) i (omega arith) below

all_of : (a b : ℕ) → b < 1 → a * 1 + b ≡ a
all_of a b lt = omega arith

plain : (i : ℕ) → 0 + i ≡ i
plain i = omega arith

next : (k i : ℕ) → suc k + i ≡ suc (k + i)
next k i = omega arith

half_of : (a b p q : ℕ) → q ≡ p + p → (a * q + b) / 2 ≡ a * p + b / 2
half_of a b p q e = halves (a * p) (a * q) b (ap (λ m. a * m) e ∙ mul-add a p p)
  where
    halves : (x y b : ℕ) → y ≡ x + x → (y + b) / 2 ≡ x + b / 2
    halves x y b e = omega arith

low_of : (a b p q : ℕ) → q ≡ p + p → (a * q + b) % 2 ≡ b % 2
low_of a b p q e = lows (a * p) (a * q) b (ap (λ m. a * m) e ∙ mul-add a p p)
  where
    lows : (x y b : ℕ) → y ≡ x + x → (y + b) % 2 ≡ b % 2
    lows x y b e = omega arith

half_lt : (b p q : ℕ) → q ≡ p + p → b < q → b / 2 < p
half_lt b p q e lt = omega arith

-- A number behind `k` low digits.
pub bit_high : (k a b i : ℕ) → b < 2 ^ k → bit (a * 2 ^ k + b) (k + i) ≡ bit a i
unfolding bit
bit_high zero a b i lt = ap₂ bit (all_of a b lt) (plain i)
bit_high (suc k) a b i lt =
    ap (bit (a * 2 ^ suc k + b)) (next k i)
    ∙ ap (λ m. bit m (k + i)) (half_of a b (2 ^ k) (2 ^ suc k) (double k))
    ∙ bit_high k a (b / 2) i (half_lt b (2 ^ k) (2 ^ suc k) (double k) lt)

pub bit_low : (k a b i : ℕ) → i < k → bit (a * 2 ^ k + b) i ≡ bit b i
unfolding bit
bit_low zero a b i lt = absurd (omega arith)
bit_low (suc k) a b zero lt = low_of a b (2 ^ k) (2 ^ suc k) (double k)
bit_low (suc k) a b (suc i) lt =
    ap (λ m. bit m i) (half_of a b (2 ^ k) (2 ^ suc k) (double k))
    ∙ bit_low k a (b / 2) i (omega arith)

pub bit-zero : (i : ℕ) → bit 0 i ≡ 0
unfolding bit
bit-zero zero = refl
bit-zero (suc i) = bit-zero i

-- The digits of a quotient and of a remainder by a power of two.
pub bit-div : (k n i : ℕ) → bit (n / 2 ^ k) i ≡ bit n (k + i)
bit-div k n i =
    sym (bit_high k (n / 2 ^ k) (n % 2 ^ k) i (mod-lt n (one-le-pow k 2 (omega arith))))
    ∙ ap (λ m. bit m (k + i)) (div-add-mod' n (2 ^ k))

pub bit-mod : (k n i : ℕ) → i < k → bit (n % 2 ^ k) i ≡ bit n i
bit-mod k n i lt =
    sym (bit_low k (n / 2 ^ k) (n % 2 ^ k) i lt) ∙ ap (λ m. bit m i) (div-add-mod' n (2 ^ k))

pub power_add : (a b : ℕ) → 2 ^ a * 2 ^ b ≡ 2 ^ (a + b)
power_add zero b = one-mul (2 ^ b) ∙ ap (λ n. 2 ^ n) (sym (plain b))
power_add (suc a) b =
    ap (λ p. p * 2 ^ b) (pow-succ' 2 a)
    ∙ mul_assoc 2 (2 ^ a) (2 ^ b)
    ∙ ap (λ p. 2 * p) (power_add a b)
    ∙ sym (pow-succ' 2 (a + b))
    ∙ ap (λ n. 2 ^ n) (sym (next a b))

only_zero : (a b : ℕ) → a ≡ 0 → b ≡ 0 → bit_or a b < 1
only_zero a b e f = let both : bit_or a b ≡ 0 = ap₂ bit_or e f in omega arith

pub bit_or_lt : (w a b : ℕ) → a < 2 ^ w → b < 2 ^ w → bit_or a b < 2 ^ w
bit_or_lt zero a b p q = only_zero a b (omega arith) (omega arith)
bit_or_lt (suc w) a b p q =
    let (low, rest) = or_step a b in
    from_half (2 ^ w) (2 ^ suc w) (bit_or a b) (bit_or (a / 2) (b / 2)) (double w) rest (
      bit_or_lt w (a / 2) (b / 2) (half_lt a (2 ^ w) (2 ^ suc w) (double w) p)
        (half_lt b (2 ^ w) (2 ^ suc w) (double w) q))
  where
    from_half : (p q n h : ℕ) → q ≡ p + p → n / 2 ≡ h → h < p → n < q
    from_half p q n h e f lt = omega arith

pub zero-bit_or : (n : ℕ) → bit_or 0 n ≡ n
zero-bit_or n = bit_or-bitwise 0 n
