-- ===== src/Latency/Ring.antt =====
-- The ring of tail latencies keeps the last values.
use pktgen_dpdk.Base.{
  ℕ, suc, ◌+◌, ◌%◌, ◌<◌, ◌≤◌, ◌≡◌, refl, sym, ap, ◌∙◌, true, false, ltb, ◌==◌, if◌then◌else◌, List,
  [], ◌∷◌, length, get_or, min, taken, skipped, arith, subst, Bool-cases, inl, ltb→lt, inr,
}
use pktgen_dpdk.Latency.State.{LatencyRing, ring_size, written, latency_ring_insert, insert_all}

-- After `n` insertions of the values of `f`: the next place, the number of values, and each of the last
-- values at its place.
pub IsRing : LatencyRing → (f : ℕ → ℕ) → (n : ℕ) → Type 0
IsRing ring f n =
    (ring.head ≡ n % ring_size)
    × (ring.count ≡ min n ring_size)
    × ((k : ℕ) → k < n → n ≤ k + ring_size → ring.data_at (k % ring_size) ≡ f k)

insert-IsRing :
    (ring : LatencyRing) (f : ℕ → ℕ) (n value : ℕ)
    → IsRing ring f n
    → f n ≡ value
    → IsRing (latency_ring_insert ring value) f (n + 1)
unfolding IsRing latency_ring_insert
insert-IsRing ring f n value (head, count, at) e =
    (next_head ring.head n head, next_count ring.count n count, places)
  where
    next_head : (h n : ℕ) → h ≡ n % 1024 → (h + 1) % 1024 ≡ (n + 1) % 1024
    next_head h n e = omega arith

    next_count : (c n : ℕ) → c ≡ min n 1024 → (if ltb c 1024 then c + 1 else c) ≡ min (n + 1) 1024
    next_count c n e = ground arith

    same_place : (k n h : ℕ) → k ≡ n → h ≡ n % 1024 → (k % 1024 == h) ≡ true
    same_place k n h e e' = ground arith

    other_place : (k n h : ℕ) → k < n → n + 1 ≤ k + 1024 → h ≡ n % 1024 → (k % 1024 == h) ≡ false
    other_place k n h lt le e = ground arith

    is_last : (k n : ℕ) → k < n + 1 → ltb k n ≡ false → k ≡ n
    is_last k n lt e = ground arith

    in_time : (k n : ℕ) → n + 1 ≤ k + 1024 → n ≤ k + 1024
    in_time k n le = omega arith

    places :
        (k : ℕ)
        → k < n + 1
        → n + 1 ≤ k + ring_size
        → written ring.data_at ring.head value (k % ring_size) ≡ f k
    places k lt le = elim (Bool-cases (ltb k n)) [
      | inl e' ↦
          skipped (k % ring_size == ring.head) value (ring.data_at (k % ring_size))
            (other_place k n ring.head (ltb→lt k n e') le head)
          ∙ at k (ltb→lt k n e') (in_time k n le)
      | inr e' ↦
          taken (k % ring_size == ring.head) value (ring.data_at (k % ring_size))
            (same_place k n ring.head (is_last k n lt e') head)
          ∙ sym e
          ∙ ap f (sym (is_last k n lt e'))
    ]

plus_zero : (n : ℕ) → n ≡ n + 0
plus_zero n = omega arith

insert_all-IsRing :
    (ring : LatencyRing) (f : ℕ → ℕ) (n : ℕ) (values : List ℕ)
    → IsRing ring f n
    → ((i : ℕ) → i < length values → f (n + i) ≡ get_or values i 0)
    → IsRing (insert_all ring values) f (n + length values)
unfolding insert_all
insert_all-IsRing ring f n [] is_ring at = subst (IsRing ring f) (plus_zero n) is_ring
insert_all-IsRing ring f n (value ∷ values) is_ring at =
    subst (IsRing (insert_all (latency_ring_insert ring value) values) f)
      (regroup n (length values))
      (insert_all-IsRing (latency_ring_insert ring value) f (n + 1) values
        (insert-IsRing ring f n value is_ring (ap f (plus_zero n) ∙ at 0 (omega arith)))
        (λ i lt. ap f (regroup n i) ∙ at (suc i) (further i (length values) lt)))
  where
    regroup : (a b : ℕ) → (a + 1) + b ≡ a + suc b
    regroup a b = omega arith

    further : (i n : ℕ) → i < n → suc i < suc n
    further i n lt = omega arith

abbrev pub empty_ring : (ℕ → ℕ) → LatencyRing
empty_ring data_at = record { data_at = data_at; head = 0; count = 0 }

empty-IsRing : (data_at f : ℕ → ℕ) → IsRing (empty_ring data_at) f 0
unfolding IsRing
empty-IsRing data_at f = (refl, refl, λ k lt le. absurd (omega (arith, lt)))

zero_plus : (n : ℕ) → 0 + n ≡ n
zero_plus n = omega arith

-- After any values were inserted into the empty ring, the next place is their number modulo 1024, the
-- count is their number or 1024, whichever is less, and each of the last 1024 values is at its own
-- number modulo 1024.
pub insert_all_lem :
    (data_at : ℕ → ℕ) (values : List ℕ)
    → IsRing (insert_all (empty_ring data_at) values) (λ k. get_or values k 0) (length values)
insert_all_lem data_at values =
    subst (IsRing (insert_all (empty_ring data_at) values) (λ k. get_or values k 0))
      (zero_plus (length values))
      (insert_all-IsRing (empty_ring data_at) (λ k. get_or values k 0) 0 values
        (empty-IsRing data_at (λ k. get_or values k 0))
        (λ i lt. ap (λ k. get_or values k 0) (zero_plus i)))
