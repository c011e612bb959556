-- ===== src/Ports/Numbers.antt =====
-- The tokens of a list of ports that are written with digits, as lib/utils/portlist.c reads them.
use pktgen_dpdk.Base.{
  ℕ, ◌+◌, ◌-◌, ◌*◌, ◌^◌, ◌<◌, ◌≤◌, ◌≡◌, refl, ap, ap₂, ◌∙◌, true, false, ◌&&◌, Option, none, some,
  [], ◌∷◌, ◌++◌, leb, ◌==◌, taken, skipped, min, Str, arith,
}
use pktgen_dpdk.Ports.Text.{isspace, trim_front}
use pktgen_dpdk.Ports.State.{digits_value, signed_value, strtoul, split_dash, range_of, token_range}

-- The bytes from "0" to "9".
pub data AllDigits : Str → Type 0 where
  no_digits : AllDigits []
  digit : (c : ℕ) (s : Str) → 48 ≤ c → c ≤ 57 → AllDigits s → AllDigits (c ∷ s)

-- A number in base 10, behind the digits that make up `n`.
pub number_from : (n : ℕ) → Str → ℕ
number_from n [] = n
number_from n (c ∷ s) = number_from (n * 10 + (c - 48)) s

-- A number with its first digit.
pub number : (c : ℕ) → Str → ℕ
number c s = number_from (c - 48) s

digits_value_lem :
    (n m : ℕ) (s : Str)
    → AllDigits s
    → m ≡ min n (2 ^ 64)
    → digits_value m s ≡ min (number_from n s) (2 ^ 64)
unfolding digits_value number_from
digits_value_lem n m [] d e = e
digits_value_lem n m (c ∷ s) (digit c' s' low high d) e =
    taken (leb 48 c && leb c 57) _ _ (is_digit c low high)
    ∙ digits_value_lem (n * 10 + (c - 48)) (min (m * 10 + (c - 48)) (2 ^ 64)) s d
        (saturates n m (c - 48) e)
  where
    is_digit : (c : ℕ) → 48 ≤ c → c ≤ 57 → (leb 48 c && leb c 57) ≡ true
    is_digit c low high = ground arith

    saturates :
        (n m d : ℕ) → m ≡ min n (2 ^ 64) → min (m * 10 + d) (2 ^ 64) ≡ min (n * 10 + d) (2 ^ 64)
    saturates n m d e = omega arith

pub no_space : (c : ℕ) → 48 ≤ c → c ≤ 57 → isspace c ≡ false
unfolding isspace
no_space c low high = ground arith

-- What strtoul gives for the digits of a number.
strtoul_lem :
    (c : ℕ) (s : Str) → AllDigits (c ∷ s) → strtoul (c ∷ s) ≡ min (number c s) (2 ^ 64 - 1)
unfolding strtoul trim_front number number_from
strtoul_lem c s (digit c' s' low high d) =
    ap signed_value (skipped (isspace c) (trim_front s) (c ∷ s) (no_space c low high))
    ∙ skipped (c == 45) _ _ (other c 45 low (omega arith))
    ∙ skipped (c == 43) _ _ (other c 43 low (omega arith))
    ∙ ap (λ n. min n (2 ^ 64 - 1))
        (digits_value_lem 0 0 (c ∷ s) (digit c s low high d) (omega arith))
    ∙ cut (number_from (0 * 10 + (c - 48)) s)
    ∙ ap (λ n. min (number_from n s) (2 ^ 64 - 1)) (first (c - 48))
  where
    other : (c k : ℕ) → 48 ≤ c → k < 48 → (c == k) ≡ false
    other c k low lt = ground arith

    cut : (n : ℕ) → min (min n (2 ^ 64)) (2 ^ 64 - 1) ≡ min n (2 ^ 64 - 1)
    cut n = omega arith

    first : (d : ℕ) → 0 * 10 + d ≡ d
    first d = omega arith

no_dash : (c : ℕ) → 48 ≤ c → (c == 45) ≡ false
no_dash c low = ground arith

split_dash-digits : (s : Str) → AllDigits s → split_dash s ≡ (s, none)
unfolding split_dash
split_dash-digits [] d = refl
split_dash-digits (c ∷ s) (digit c' s' low high d) =
    skipped (c == 45) _ _ (no_dash c low)
    ∙ ap (λ (r : Str × Option Str). (c ∷ r.0, r.1)) (split_dash-digits s d)

split_dash-append : (s t : Str) → AllDigits s → split_dash (s ++ (45 ∷ t)) ≡ (s, some t)
unfolding split_dash
split_dash-append [] t d = refl
split_dash-append (c ∷ s) t (digit c' s' low high d) =
    skipped (c == 45) _ _ (no_dash c low)
    ∙ ap (λ (r : Str × Option Str). (c ∷ r.0, r.1)) (split_dash-append s t d)

-- An item of a list: a port, or the first and the last of some ports, each with its digits.
pub data Item : Type 0 where
  port : (c : ℕ) → Str → Item
  ports : (c : ℕ) → Str → (d : ℕ) → Str → Item

unfoldable pub text_of : Item → Str
text_of (port c s) = c ∷ s
text_of (ports c s d t) = (c ∷ s) ++ (45 ∷ d ∷ t)

unfoldable pub first_of : Item → ℕ
first_of (port c s) = number c s
first_of (ports c s d t) = number c s

unfoldable pub last_of : Item → ℕ
last_of (port c s) = number c s
last_of (ports c s d t) = number d t

unfoldable pub IsItem : Item → Type 0
IsItem (port c s) = AllDigits (c ∷ s)
IsItem (ports c s d t) = AllDigits (c ∷ s) × AllDigits (d ∷ t)

pub token_range_lem :
    (p : Item)
    → IsItem p
    → token_range (text_of p) ≡ (min (first_of p) (2 ^ 64 - 1), min (last_of p) (2 ^ 64 - 1))
unfolding token_range text_of first_of last_of IsItem
token_range_lem (port c s) d =
    ap range_of (split_dash-digits (c ∷ s) d) ∙ ap (λ n. (n, n)) (strtoul_lem c s d)
token_range_lem (ports c s d t) (a, b) =
    ap range_of (split_dash-append (c ∷ s) (d ∷ t) a)
    ∙ ap₂ (λ m n. (m, n)) (strtoul_lem c s a) (strtoul_lem d t b)
