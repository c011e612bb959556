-- ===== src/Random/Masks.antt =====
-- The masks that pktgen_set_random_bitfield reads: which character sets which bit.
use pktgen_dpdk.Base.{
  power_add, bit-zero, ℕ, zero, suc, ◌+◌, ◌-◌, ◌*◌, ◌^◌, ◌<◌, ◌≤◌, ◌≡◌, refl, sym, ap, ◌∙◌, subst,
  none, some, List, [], ◌∷◌, length, get_elem?, u32, bit, bit_high, bit_low, arith, ap₂,
}
use pktgen_dpdk.Random.State.{
  MaskChar, in_mask0, in_mask1, in_mask_rnd, Masks, mask_char, shift_in, read_mask,
}
use native.Mathlib.Nat.{
  pow-le-pow_right, mul-lt-mul_of_pos_right, zero-mul, one-mul, one-le-pow, mul_comm, mul_assoc,
  add-mul, le-mul_of_pos_right, le_trans, pow-suc, mul-le-mul_right,
}

-- The value of a mask string for one of the three masks.
pub value : (MaskChar → ℕ) → List MaskChar → ℕ
value t [] = 0
value t (x ∷ xs) = t x * 2 ^ length xs + value t xs

-- Sums that the powers of two take part in, with the power as a number.
digit_lt : (d p q v : ℕ) → d < 2 → q ≡ p * 2 → v < p → d * p + v < q
digit_lt zero p q v two e lt = omega (arith, zero-mul p)
digit_lt (suc zero) p q v two e lt = omega (arith, one-mul p)
digit_lt (suc (suc d)) p q v two e lt = absurd (omega arith)

value_lt :
    (t : MaskChar → ℕ) (xs : List MaskChar)
    → ((x : MaskChar) → t x < 2)
    → value t xs < 2 ^ length xs
unfolding value
value_lt t [] two = omega arith
value_lt t (x ∷ xs) two =
    digit_lt (t x) (2 ^ length xs) (2 ^ suc (length xs)) (value t xs) (two x)
      (pow-suc 2 (length xs)) (value_lt t xs two)

top : (n : ℕ) → suc n - 1 - 0 ≡ n + 0
top n = omega arith

less : (n j : ℕ) → suc n - 1 - suc j ≡ n - 1 - j
less n j = omega arith

in_range : (n j : ℕ) → j < n → n - 1 - j < n
in_range n j lt = omega arith

digit : (d : ℕ) → d < 2 → bit d 0 ≡ d
unfolding bit
digit d two = omega arith

some_eq : {A : Type 0} (a b : A) → some a ≡ some b → a ≡ b
some_eq a b e = cc e

pub get_elem?_lt :
    {A : Type 0} (xs : List A) (j : ℕ) (x : A) → get_elem? xs j ≡ some x → j < length xs
get_elem?_lt [] j x e = absurd cc
get_elem?_lt (y ∷ xs) zero x e = omega arith
get_elem?_lt (y ∷ xs) (suc j) x e = omega (arith, get_elem?_lt xs j x e)

-- The bit of a character: the last one has the lowest.
pub bit-value :
    (t : MaskChar → ℕ) (xs : List MaskChar) (j : ℕ) (x : MaskChar)
    → ((x : MaskChar) → t x < 2)
    → get_elem? xs j ≡ some x
    → bit (value t xs) (length xs - 1 - j) ≡ t x
unfolding value
bit-value t [] j x two e = absurd cc
bit-value t (y ∷ xs) zero x two e =
    ap (bit (t y * 2 ^ length xs + value t xs)) (top (length xs))
    ∙ bit_high (length xs) (t y) (value t xs) 0 (value_lt t xs two)
    ∙ digit (t y) (two y)
    ∙ ap t (some_eq y x e)
bit-value t (y ∷ xs) (suc j) x two e =
    ap (bit (t y * 2 ^ length xs + value t xs)) (less (length xs) j)
    ∙ bit_low (length xs) (t y) (value t xs) (length xs - 1 - j)
        (in_range (length xs) j (get_elem?_lt xs j x e))
    ∙ bit-value t xs j x two e

-- The characters of a mask string.
pub data Reads : List ℕ → List MaskChar → Type 0 where
  end_of_mask : Reads [] []
  next_char :
      (c : ℕ) (x : MaskChar) (s : List ℕ) (xs : List MaskChar)
      → mask_char c ≡ some x
      → Reads s xs
      → Reads (c ∷ s) (x ∷ xs)

-- One mask, as the loop builds it.
pub shifted : (t : MaskChar → ℕ) → ℕ → List MaskChar → ℕ
shifted t m [] = m
shifted t m (x ∷ xs) = shifted t (u32 (u32 (m * 2) + t x)) xs

double_fits :
    (m p q : ℕ)
    → q ≡ p * 2
    → 1 ≤ p
    → (m + 1) * q ≤ 2 ^ 32
    → (m * 2 + 2 ≤ 2 ^ 32) × ((m * 2 + 2) * p ≤ 2 ^ 32)
double_fits m p q e pos fits =
    let spread : (m + 1) * q ≡ (m * 2 + 2) * p =
      ap (λ n. (m + 1) * n) (e ∙ mul_comm p 2)
      ∙ sym (mul_assoc (m + 1) 2 p)
      ∙ ap (λ n. n * p) (omega arith) in
    let whole : (m * 2 + 2) * p ≤ 2 ^ 32 = subst (λ n. n ≤ 2 ^ 32) spread fits in
    (le_trans (le-mul_of_pos_right (m * 2 + 2) pos) whole, whole)

one_shift :
    (d m p q v : ℕ)
    → d < 2
    → q ≡ p * 2
    → 1 ≤ p
    → (m + 1) * q ≤ 2 ^ 32
    → (u32 (u32 (m * 2) + d) ≡ m * 2 + d)
      × ((m * 2 + d + 1) * p ≤ 2 ^ 32)
      × ((m * 2 + d) * p + v ≡ m * q + (d * p + v))
one_shift d m p q v two e pos fits =
    let (word, whole) = double_fits m p q e pos fits in
    (
      omega arith,
      le_trans (mul-le-mul_right p (more d m two)) whole,
      ap (λ n. n + v) (add-mul (m * 2) d p)
          ∙ regroup (m * 2 * p) (d * p) v
          ∙ ap (λ n. n + (d * p + v)) (mul_assoc m 2 p ∙ ap (λ n. m * n) (mul_comm 2 p ∙ sym e)),
    )
  where
    more : (d m : ℕ) → d < 2 → m * 2 + d + 1 ≤ m * 2 + 2
    more d m two = omega arith

    regroup : (a b c : ℕ) → a + b + c ≡ a + (b + c)
    regroup a b c = omega arith

shifted_lem :
    (t : MaskChar → ℕ) (m : ℕ) (xs : List MaskChar)
    → ((x : MaskChar) → t x < 2)
    → (m + 1) * 2 ^ length xs ≤ 2 ^ 32
    → shifted t m xs ≡ m * 2 ^ length xs + value t xs
unfolding shifted value
shifted_lem t m [] two fits = omega arith
shifted_lem t m (x ∷ xs) two fits =
    let (word, fits', same) =
      one_shift (t x) m (2 ^ length xs) (2 ^ suc (length xs)) (value t xs) (two x)
        (pow-suc 2 (length xs)) (one-le-pow (length xs) 2 (omega arith)) fits in
    ap (λ n. shifted t n xs) word ∙ shifted_lem t (m * 2 + t x) xs two fits' ∙ same

-- The loop reads a valid string to its end.
pub read_mask_lem :
    (m : Masks) (s : List ℕ) (xs : List MaskChar)
    → Reads s xs
    → read_mask m s
      ≡ some (record {
        mask0 = shifted in_mask0 m.mask0 xs;
        mask1 = shifted in_mask1 m.mask1 xs;
        mask_rnd = shifted in_mask_rnd m.mask_rnd xs;
      })
unfolding read_mask shifted
read_mask_lem m [] [] end_of_mask = refl
read_mask_lem m [] (x ∷ xs) r = elim r [ ]
read_mask_lem m (c ∷ s) [] r = elim r [ ]
read_mask_lem m (c ∷ s) (x ∷ xs) (next_char c' x' s' xs' e r) =
    ap (λ o. elim o [ none ↦ none | some x ↦ read_mask (shift_in m x) s ]) e
    ∙ read_mask_lem (shift_in m x) s xs r

-- A mask at the top of its word.
unfoldable pub placed : (t : MaskChar → ℕ) → List MaskChar → ℕ
placed t xs = u32 (shifted t 0 xs * 2 ^ (32 - length xs))

placed_lem :
    (t : MaskChar → ℕ) (xs : List MaskChar)
    → ((x : MaskChar) → t x < 2)
    → length xs ≤ 32
    → placed t xs ≡ value t xs * 2 ^ (32 - length xs) + 0
unfolding placed
placed_lem t xs two le =
    let power : 2 ^ length xs * 2 ^ (32 - length xs) ≡ 2 ^ 32 =
      power_add (length xs) (32 - length xs) ∙ ap (λ n. 2 ^ n) (whole (length xs) le) in
    ap (λ n. u32 (n * 2 ^ (32 - length xs)))
      (shifted_lem t 0 xs two (start (2 ^ length xs) (pow-le-pow_right {n = 2} (omega arith) le))
        ∙ from_zero (2 ^ length xs) (value t xs))
    ∙ small (value t xs * 2 ^ (32 - length xs)) (
        subst (λ n. value t xs * 2 ^ (32 - length xs) < n) power
          (mul-lt-mul_of_pos_right (value_lt t xs two)
            (one-le-pow (32 - length xs) 2 (omega arith))))
  where
    whole : (n : ℕ) → n ≤ 32 → n + (32 - n) ≡ 32
    whole n le = omega arith

    start : (p : ℕ) → p ≤ 2 ^ 32 → (0 + 1) * p ≤ 2 ^ 32
    start p le = omega arith

    from_zero : (p v : ℕ) → 0 * p + v ≡ v
    from_zero p v = omega arith

    small : (n : ℕ) → n < 2 ^ 32 → u32 n ≡ n + 0
    small n lt = omega arith

pub bit-placed :
    (t : MaskChar → ℕ) (xs : List MaskChar) (j : ℕ) (x : MaskChar)
    → ((x : MaskChar) → t x < 2)
    → length xs ≤ 32
    → get_elem? xs j ≡ some x
    → bit (placed t xs) (31 - j) ≡ t x
bit-placed t xs j x two le e =
    let lt = get_elem?_lt xs j x e in
    ap₂ bit (placed_lem t xs two le) (position (length xs) j le lt)
    ∙ bit_high (32 - length xs) (value t xs) 0 (length xs - 1 - j)
        (one-le-pow (32 - length xs) 2 (omega arith))
    ∙ bit-value t xs j x two e
  where
    position : (n j : ℕ) → n ≤ 32 → j < n → 31 - j ≡ 32 - n + (n - 1 - j)
    position n j le lt = omega arith

pub placed_none :
    (t : MaskChar → ℕ) (xs : List MaskChar) (j : ℕ)
    → ((x : MaskChar) → t x < 2)
    → length xs ≤ 32
    → length xs ≤ j
    → j < 32
    → bit (placed t xs) (31 - j) ≡ 0
placed_none t xs j two le beyond lt =
    ap (λ n. bit n (31 - j)) (placed_lem t xs two le)
    ∙ bit_low (32 - length xs) (value t xs) 0 (31 - j) (below (length xs) j beyond lt)
    ∙ bit-zero (31 - j)
  where
    below : (n j : ℕ) → n ≤ j → j < 32 → 31 - j < 32 - n
    below n j le lt = omega arith

pub placed_lt : (t : MaskChar → ℕ) (xs : List MaskChar) → placed t xs < 2 ^ 32
unfolding placed
placed_lt t xs = word (shifted t 0 xs * 2 ^ (32 - length xs))
  where
    word : (n : ℕ) → u32 n < 2 ^ 32
    word n = omega arith

pub get_elem?-none : {A : Type 0} (xs : List A) (j : ℕ) → get_elem? xs j ≡ none → length xs ≤ j
get_elem?-none [] j e = omega arith
get_elem?-none (x ∷ xs) zero e = absurd cc
get_elem?-none (x ∷ xs) (suc j) e = omega (arith, get_elem?-none xs j e)
