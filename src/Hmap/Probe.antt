-- ===== src/Hmap/Probe.antt =====
-- The circular scan of lib/hmap/hmap.c: what it finds, and that it reaches every slot.
use pktgen_dpdk.Base.{
  ℕ, zero, suc, ◌+◌, ◌%◌, ◌≤◌, ◌<◌, ◌≡◌, sym, subst, ◌⊎◌, inl, inr, Bool, true, false, none, some,
  arith, found_first, found_none,
}
use pktgen_dpdk.Hmap.Ops.{probe}
use native.Mathlib.Nat.{mod-lt, mod-eq_of_lt, mod_self}

-- The next index: one more, or 0 behind the last.
pub Wraps : (capacity h : ℕ) → Type 0
Wraps capacity h =
    (((h + 1) % capacity ≡ h + 1) × (h + 1 < capacity))
    ⊎ (((h + 1) % capacity ≡ 0) × (h + 1 ≡ capacity))

wraps : (capacity h : ℕ) → h < capacity → Wraps capacity h
unfolding Wraps
wraps capacity h lt = elim (or_end capacity h lt) [
  | inl s ↦ inl (mod-eq_of_lt s, s)
  | inr e ↦ inr (subst (λ n. n % capacity ≡ 0) (sym e) (mod_self capacity), e)
]
  where
    or_end : (c n : ℕ) → n < c → (n + 1 < c) ⊎ (n + 1 ≡ c)
    or_end c n q = ground arith

positive : (i c : ℕ) → i < c → 0 < c
positive i c q = omega arith

module _ (test : ℕ → Bool) (capacity : ℕ) where
  -- What the scan returns passes the test and is a slot.
  pub probe_some_lem :
      (n h j : ℕ)
      → h < capacity
      → probe test capacity n h ≡ some j
      → (test j ≡ true) × (j < capacity)
  unfolding probe
  probe_some_lem zero h j lt e = absurd cc
  probe_some_lem (suc n) h j lt e = elim (found_first (test h) e) [
    | inl (t, same) ↦ (subst (λ i. test i ≡ true) same t, subst (λ i. i < capacity) same lt)
    | inr (f, later) ↦
        probe_some_lem n ((h + 1) % capacity) j (mod-lt (h + 1) (positive h capacity lt)) later
  ]

  -- A scan of `n` slots from `h` on sees those up to `h + n`, and wraps around the end.
  Seen : (n h i : ℕ) → Type 0
  Seen n h i = ((h ≤ i) × (i < h + n)) ⊎ (i + capacity < h + n)

  Seen-next :
      (n h i : ℕ)
      → h < capacity
      → i < capacity
      → Seen (suc n) h i
      → (h ≡ i) ⊎ Seen n ((h + 1) % capacity) i
  unfolding Seen Wraps
  Seen-next n h i lt below seen = elim (wraps capacity h lt) [
    | inl (e, s) ↦ subst (λ k. (h ≡ i) ⊎ Seen n k i) (sym e) (go seen)
    | inr (e, s) ↦ subst (λ k. (h ≡ i) ⊎ Seen n k i) (sym e) (back s seen)
  ]
    where
      go : Seen (suc n) h i → (h ≡ i) ⊎ Seen n (h + 1) i
      go (inl (a, b)) = ground arith
      go (inr a) = ground arith

      back : h + 1 ≡ capacity → Seen (suc n) h i → (h ≡ i) ⊎ Seen n 0 i
      back s (inl (a, b)) = ground arith
      back s (inr a) = ground arith

  unseen :
      (n h i : ℕ)
      → h < capacity
      → i < capacity
      → Seen n h i
      → probe test capacity n h ≡ none
      → test i ≡ false
  unfolding probe Seen
  unseen zero h i lt below (inl (a, b)) e = absurd (omega arith)
  unseen zero h i lt below (inr a) e = absurd (omega arith)
  unseen (suc n) h i lt below seen e =
      let (f, later) = found_none (test h) h (probe test capacity n ((h + 1) % capacity)) e in
      elim (Seen-next n h i lt below seen) [
        | inl same ↦ subst (λ k. test k ≡ false) same f
        | inr rest ↦
            unseen n ((h + 1) % capacity) i (mod-lt (h + 1) (positive h capacity lt)) below rest
              later
      ]

  -- A scan of the whole table that finds nothing has tested every slot.
  pub probe_none_lem :
      (h i : ℕ)
      → h < capacity
      → i < capacity
      → probe test capacity capacity h ≡ none
      → test i ≡ false
  unfolding Seen
  probe_none_lem h i lt below e = unseen capacity h i lt below (all h i capacity lt below) e
    where
      all : (a b c : ℕ) → a < c → b < c → ((a ≤ b) × (b < a + c)) ⊎ (b + c < a + c)
      all a b c p q = ground arith
