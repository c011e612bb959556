-- ===== src/Random/Field.antt =====
-- pktgen_set_random_bitfield and pktgen_rnd_bits_apply of app/pktgen-random.c, one after the other.
use pktgen_dpdk.Base.{
  zero-bit_or, get_or-set_self, length-set, ℕ, zero, suc, ◌+◌, ◌-◌, ◌*◌, ◌/◌, ◌%◌, ◌^◌, ◌<◌, ◌≤◌,
  ◌≡◌, refl, sym, ap, ◌∙◌, subst, List, [], ◌∷◌, length, set, get_or, get_or-set_self, get_elem?,
  none, true, false, Bool-cases, ◌⊎◌, inl, inr, ltb, leb, le→ltb, lt→ltb, ◌==◌, ne→==,
  if◌then◌else◌, taken, skipped, bit, arith, le→leb,
}
use Prim.Native.Nat.{bit_or}
use native.Mathlib.Nat.{pow-suc, one-le-pow}
use pktgen_dpdk.Random.State.{
  BfSpec, RndBits, MaskChar, no_masks, read_mask, spec_of, with_spec, pktgen_set_random_bitfield,
  apply_spec, apply_specs, apply_all, pktgen_rnd_bits_apply, zero_spec,
}
use pktgen_dpdk.Random.Masks.{Reads, end_of_mask, next_char, placed, read_mask_lem}
use pktgen_dpdk.Random.Memory.{byte_bit, Bytes}
use pktgen_dpdk.Random.Apply.{expected, mask_spec, mask_spec_lem}

length-Reads : (s : List ℕ) (xs : List MaskChar) → Reads s xs → length s ≡ length xs
length-Reads [] [] end_of_mask = refl
length-Reads [] (x ∷ xs) r = elim r [ ]
length-Reads (c ∷ s) [] r = elim r [ ]
length-Reads (c ∷ s) (x ∷ xs) (next_char c' x' s' xs' e r) = ap suc (length-Reads s xs r)

no_leb : (n i : ℕ) → i < n → leb n i ≡ false
no_leb n i lt = ground arith

not_zero : (n : ℕ) → 1 ≤ n → (n == 0) ≡ false
not_zero n le = ground arith

-- A valid mask sets its specification and marks it active.
set_lem :
    (rnd_bits : RndBits) (idx offset : ℕ) (s : List ℕ) (xs : List MaskChar)
    → idx < 32
    → Reads s xs
    → 1 ≤ length xs
    → length xs ≤ 32
    → pktgen_set_random_bitfield rnd_bits idx offset s ≡ record {
      active_specs = bit_or rnd_bits.active_specs (2 ^ idx);
      specs = set rnd_bits.specs idx (mask_spec offset xs);
    }
unfolding pktgen_set_random_bitfield spec_of placed
set_lem rnd_bits idx offset s xs lt r some_char le =
    skipped (leb 32 idx) _ _ (no_leb 32 idx lt)
    ∙ skipped (ltb 32 (length s)) _ _
        (subst (λ n. ltb 32 n ≡ false) (sym (length-Reads s xs r)) (le→ltb 32 (length xs) le))
    ∙ skipped (length s == 0) _ _
        (subst (λ n. (n == 0) ≡ false) (sym (length-Reads s xs r)) (not_zero (length xs) some_char))
    ∙ ap (λ n. with_spec rnd_bits idx offset (32 - n) (read_mask no_masks s)) (length-Reads s xs r)
    ∙ ap (with_spec rnd_bits idx offset (32 - length xs)) (read_mask_lem no_masks s xs r)

doubled : (p q : ℕ) → q ≡ p * 2 → 1 ≤ p → (ltb 0 q ≡ true) × (q / 2 ≡ p) × ((q % 2 == 1) ≡ false)
doubled p q e pos = (lt→ltb 0 q (omega arith), omega arith, ne→== (q % 2) 1 (λ f. omega arith))

module _ {St : Type 0} (rnd_func : St → St × ℕ) where
  apply_specs_none :
      (specs : List BfSpec) (state : St) (pkt : List ℕ)
      → apply_specs rnd_func specs 0 state pkt ≡ (state, pkt)
  unfolding apply_specs
  apply_specs_none [] state pkt = refl
  apply_specs_none (spec ∷ specs) state pkt = refl

  -- With one active specification, the loop applies that one.
  apply_specs_one :
      (specs : List BfSpec) (idx : ℕ) (state : St) (pkt : List ℕ)
      → idx < length specs
      → apply_specs rnd_func specs (2 ^ idx) state pkt
        ≡ apply_spec rnd_func state (get_or specs idx zero_spec) pkt
  unfolding apply_specs
  apply_specs_one [] idx state pkt lt = absurd (omega arith)
  apply_specs_one (spec ∷ specs) zero state pkt lt =
      apply_specs_none specs (apply_spec rnd_func state spec pkt).0
        (apply_spec rnd_func state spec pkt).1
  apply_specs_one (spec ∷ specs) (suc idx) state pkt lt =
      let q = 2 ^ suc idx in
      let (pos, half, even) =
        doubled (2 ^ idx) q (pow-suc 2 idx) (one-le-pow idx 2 (omega arith)) in
      let first = if q % 2 == 1 then apply_spec rnd_func state spec pkt else (state, pkt) in
      taken (ltb 0 q) _ _ pos
      ∙ ap (λ m. apply_specs rnd_func specs m first.0 first.1) half
      ∙ ap (λ (r : St × List ℕ). apply_specs rnd_func specs (2 ^ idx) (r.0) (r.1))
          (skipped (q % 2 == 1) _ _ even)
      ∙ apply_specs_one specs idx state pkt (omega arith)

  -- With a valid mask of up to 32 characters as the only active specification, the packet's 32 bits
  -- from the offset on, taken from the highest bit of each byte, become what the characters ask for.
  pub pktgen_rnd_bits_apply_lem :
      (rnd_bits : RndBits) (idx offset : ℕ) (s : List ℕ) (xs : List MaskChar) (state : St)
      (pkt : List ℕ) (q i : ℕ)
      → rnd_bits.active_specs ≡ 0
      → length rnd_bits.specs ≡ 32
      → idx < 32
      → Reads s xs
      → 1 ≤ length xs
      → length xs ≤ 32
      → Bytes pkt
      → offset + 4 ≤ length pkt
      → q < 4
      → i < 8
      → (pkt' : List ℕ) × (state' : St) × (pktgen_rnd_bits_apply rnd_func
            (pktgen_set_random_bitfield rnd_bits idx offset s)
            state
            (pkt ∷ [])
          ≡ (state', pkt' ∷ []))
        × (bit (get_or pkt' (offset + q) 0) i
            ≡ expected
                (get_elem? xs (8 * q + (7 - i)))
                (bit (get_or pkt (offset + q) 0) i)
                (byte_bit (rnd_func state).1 q i))
  unfolding pktgen_rnd_bits_apply apply_all
  pktgen_rnd_bits_apply_lem rnd_bits idx offset s xs state pkt q i inactive size lt r some_char le
        bytes fits lt' lt'' =
      (
        (apply_spec rnd_func state (mask_spec offset xs) pkt).1,
        (apply_spec rnd_func state (mask_spec offset xs) pkt).0,
        ap (λ rb. pktgen_rnd_bits_apply rnd_func rb state (pkt ∷ []))
              (set_lem rnd_bits idx offset s xs lt r some_char le
                ∙ ap
                    (λ a. record {
                      active_specs = a;
                      specs = set rnd_bits.specs idx (mask_spec offset xs);
                    })
                    (ap (λ a. bit_or a (2 ^ idx)) inactive ∙ zero-bit_or (2 ^ idx)))
            ∙ skipped (2 ^ idx == 0) _ _ (not_zero (2 ^ idx) (one-le-pow idx 2 (omega arith)))
            ∙ ap (λ (r : St × List ℕ). (r.0, r.1 ∷ []))
                (apply_specs_one (set rnd_bits.specs idx (mask_spec offset xs)) idx state pkt (
                    subst (λ n. idx < n)
                      (sym (length-set rnd_bits.specs idx (mask_spec offset xs) ∙ size)) lt)
                  ∙ ap (λ sp. apply_spec rnd_func state sp pkt)
                      (get_or-set_self rnd_bits.specs idx (mask_spec offset xs) zero_spec
                        (subst (λ n. idx < n) (sym size) lt))),
        mask_spec_lem xs le rnd_func offset state pkt q i bytes fits lt' lt'',
      )

-- An index beyond the specifications, a mask that is too long, or one with an unknown character
-- changes nothing.
pub pktgen_set_random_bitfield-refused :
    (rnd_bits : RndBits) (idx offset : ℕ) (s : List ℕ)
    → (32 ≤ idx) ⊎ ((32 < length s) ⊎ (read_mask no_masks s ≡ none))
    → 1 ≤ length s
    → pktgen_set_random_bitfield rnd_bits idx offset s ≡ rnd_bits
unfolding pktgen_set_random_bitfield
pktgen_set_random_bitfield-refused rnd_bits idx offset s why some_char =
    elim (Bool-cases (leb 32 idx)) [
      | inl e ↦ taken (leb 32 idx) _ _ e
      | inr e ↦ skipped (leb 32 idx) _ _ e ∙ elim (Bool-cases (ltb 32 (length s))) [
        | inl f ↦ taken (ltb 32 (length s)) _ _ f
        | inr f ↦
            skipped (ltb 32 (length s)) _ _ f
            ∙ skipped (length s == 0) _ _ (not_zero (length s) some_char)
            ∙ ap (with_spec rnd_bits idx offset (32 - length s)) (unknown e f why)
      ]
    ]
  where
    unknown :
        leb 32 idx ≡ false
        → ltb 32 (length s) ≡ false
        → (32 ≤ idx) ⊎ ((32 < length s) ⊎ (read_mask no_masks s ≡ none))
        → read_mask no_masks s ≡ none
    unknown e f (inl le) = absurd (cc (e, le→leb 32 idx le))
    unknown e f (inr (inl lt)) = absurd (cc (f, lt→ltb 32 (length s) lt))
    unknown e f (inr (inr g)) = g
