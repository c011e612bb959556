-- ===== src/Inet/Addr6.antt =====
-- inet6AddrAdd and inet6AddrIsUnspecified of lib/common/pg_inet.h, and `memcmp` on addresses.
-- An address is the list of its bytes, `addr[0]` first. The code's addresses have 16 bytes; the
-- functions and lemmas stand for every length.
use native.Mathlib.Nat.{pow-suc, div-add-mod, mul-add-mod_self_right, mod-eq_of_lt}
use pktgen_dpdk.Base.{
  sym, ◌∙◌, ap, ℕ, zero, suc, ◌+◌, ◌*◌, ◌/◌, ◌%◌, ◌^◌, ◌<◌, ◌≡◌, refl, Bool, true, false, ◌&&◌,
  List, [], ◌∷◌, arith, ltb, ◌==◌, if◌then◌else◌, length,
}

-- The loop from the last byte to the first: `n` holds the byte and the carry, `n >> 8`.
-- `addr3[i]` is written after `addr1[i]` and `addr2[i]` are read, so the arrays may be the same.
abbrev pub AddState : Type 0
AddState = ℕ × List ℕ

unfoldable pub inet6_addr_add_bytes : List ℕ → List ℕ → AddState
inet6_addr_add_bytes [] bs = (0, [])
inet6_addr_add_bytes (a ∷ x) [] = (0, [])
inet6_addr_add_bytes (a ∷ x) (b ∷ bs) =
    let (n, sum) = inet6_addr_add_bytes x bs in let n' = a + b + n / 256 in (n', (n' % 256) ∷ sum)

unfoldable pub inet6_addr_add : List ℕ → List ℕ → List ℕ
unfolding inet6_addr_add_bytes
inet6_addr_add a b = (inet6_addr_add_bytes a b).1

-- All bytes are zero; the code reads them as four words.
unfoldable pub inet6_addr_is_unspecified : List ℕ → Bool
inet6_addr_is_unspecified [] = true
inet6_addr_is_unspecified (b ∷ bs) = b == 0 && inet6_addr_is_unspecified bs

-- `memcmp(a, b, n) < 0`
unfoldable pub memcmp_lt : List ℕ → List ℕ → Bool
memcmp_lt [] bs = false
memcmp_lt (a ∷ x) [] = false
memcmp_lt (a ∷ x) (b ∷ bs) = if ltb a b then true else if ltb b a then false else memcmp_lt x bs

-- The address as a number, `addr[0]` the most significant byte.
abbrev pub addr_value : List ℕ → ℕ
addr_value [] = 0
addr_value (b ∷ bs) = b * 256 ^ length bs + addr_value bs

abbrev pub AllBytes : List ℕ → Type 0
AllBytes [] = Unit
AllBytes (b ∷ bs) = (b < 256) × AllBytes bs

pub addr_value-lt : (a : List ℕ) → AllBytes a → addr_value a < 256 ^ length a
addr_value-lt [] h = omega arith
addr_value-lt (b ∷ bs) h = grind (arith, addr_value-lt bs h.1, pow-suc 256 (length bs))

drop_multiple : (c s p : ℕ) → s < p → (c * p + s) % p ≡ s
drop_multiple c s p h = mul-add-mod_self_right c p s ∙ mod-eq_of_lt h

-- One byte of the sum, over the value `p` of the bytes below it.
carry :
    (a b c p p' q r s v w : ℕ)
    → q ≡ p
    → p' ≡ p
    → r ≡ p * 256
    → c * p + s ≡ v + w
    → (a + b + c) / 256 * r + ((a + b + c) % 256 * q + s) ≡ a * p + v + (b * p' + w)
carry a b c p p' q r s v w hq hp hr h =
    rw (hq, hp, hr) (omega (arith, ap (λ t. t * p) (div-add-mod (a + b + c) 256), h))

add_bytes_lem :
    (a b : List ℕ)
    → length a ≡ length b
    → AllBytes a
    → AllBytes b
    → let (n, sum) = inet6_addr_add_bytes a b in
      (length sum ≡ length a)
      × (n / 256 * 256 ^ length a + addr_value sum ≡ addr_value a + addr_value b)
unfolding inet6_addr_add_bytes
add_bytes_lem [] [] e h k = (refl, refl)
add_bytes_lem [] (b ∷ y) e h k = absurd (omega arith)
add_bytes_lem (a ∷ x) [] e h k = absurd (omega arith)
add_bytes_lem (a ∷ x) (b ∷ y) e h k =
    let ih = add_bytes_lem x y (omega arith) h.1 k.1 in
    let n' = a + b + (inet6_addr_add_bytes x y).0 / 256 in
    (
      ap suc ih.0,
      carry a b ((inet6_addr_add_bytes x y).0 / 256) (256 ^ length x) _ _ _ _ _ _
          (ap (λ k. 256 ^ k) ih.0) (ap (λ k. 256 ^ k) (omega arith)) (pow-suc 256 (length x)) ih.1,
    )

pub length-inet6_addr_add :
    (a b : List ℕ)
    → length a ≡ length b
    → AllBytes a
    → AllBytes b
    → length (inet6_addr_add a b) ≡ length a
unfolding inet6_addr_add
length-inet6_addr_add a b e h k = (add_bytes_lem a b e h k).0

pub inet6_addr_add-AllBytes : (a b : List ℕ) → AllBytes (inet6_addr_add a b)
unfolding inet6_addr_add
inet6_addr_add-AllBytes [] b = tt
inet6_addr_add-AllBytes (a ∷ x) [] = tt
inet6_addr_add-AllBytes (a ∷ x) (b ∷ y) = (omega arith, inet6_addr_add-AllBytes x y)

-- The byte loop adds the addresses as numbers, and drops the carry out of the first byte.
pub addr_value-inet6_addr_add :
    (a b : List ℕ)
    → length a ≡ length b
    → AllBytes a
    → AllBytes b
    → addr_value (inet6_addr_add a b) ≡ (addr_value a + addr_value b) % 256 ^ length a
unfolding inet6_addr_add
addr_value-inet6_addr_add a b e h k =
    let lem = add_bytes_lem a b e h k in
    let small = addr_value-lt (inet6_addr_add_bytes a b).1 (inet6_addr_add-AllBytes a b) in
    sym (rw (← lem.1) (drop_multiple _ _ (256 ^ length a) (rw lem.0 at small)))

digit_lt : (a b v w p : ℕ) → a < b → v < p → a * p + v < b * p + w
digit_lt a b v w p h hv = grind arith

-- A smaller first byte decides, and else the rest does.
compare_digit :
    (a b v w p : ℕ) (t : Bool)
    → v < p
    → w < p
    → t ≡ ltb v w
    → (if ltb a b then true else if ltb b a then false else t) ≡ ltb (a * p + v) (b * p + w)
compare_digit a b v w p t hv hw e = ground (arith, digit_lt a b v w p, digit_lt b a w v p, e)

pow_pos : (n : ℕ) → 0 < 256 ^ n
pow_pos zero = omega arith
pow_pos (suc n) = omega (arith, pow-suc 256 n, pow_pos n)

zero_digit : (b v p : ℕ) (t : Bool) → 0 < p → t ≡ (v == 0) → (b == 0 && t) ≡ (b * p + v == 0)
zero_digit b v p t h e = grind arith

-- `memcmp` on addresses of one length orders them by it.
pub memcmp_lt_lem :
    (a b : List ℕ)
    → length a ≡ length b
    → AllBytes a
    → AllBytes b
    → memcmp_lt a b ≡ ltb (addr_value a) (addr_value b)
unfolding memcmp_lt
memcmp_lt_lem [] [] e h k = refl
memcmp_lt_lem [] (b ∷ y) e h k = absurd (omega arith)
memcmp_lt_lem (a ∷ x) [] e h k = absurd (omega arith)
memcmp_lt_lem (a ∷ x) (b ∷ y) e h k =
    let same : length x ≡ length y = omega arith in
    rw (← same) (
      compare_digit a b _ _ (256 ^ length x) _ (addr_value-lt x h.1) (rw same (addr_value-lt y k.1))
        (memcmp_lt_lem x y same h.1 k.1))

pub inet6_addr_is_unspecified_lem : (a : List ℕ) → inet6_addr_is_unspecified a ≡ (addr_value a == 0)
unfolding inet6_addr_is_unspecified
inet6_addr_is_unspecified_lem [] = refl
inet6_addr_is_unspecified_lem (b ∷ x) =
    zero_digit b _ _ _ (pow_pos (length x)) (inet6_addr_is_unspecified_lem x)
