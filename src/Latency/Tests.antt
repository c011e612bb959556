-- ===== src/Latency/Tests.antt =====
-- The ring of tail latencies at concrete values.
use pktgen_dpdk.Base.{ℕ, ◌≡◌, refl, List, [], ◌∷◌, get_or, length}
use pktgen_dpdk.Latency.State.{insert_all, latency_ring_insert}
use pktgen_dpdk.Latency.Ring.{IsRing, empty_ring, insert_all_lem}

abbrev zeros : ℕ → ℕ
zeros i = 0

abbrev three_values : List ℕ
three_values = 70 ∷ 50 ∷ 90 ∷ []

count_test : (insert_all (empty_ring zeros) three_values).count ≡ 3
unfolding insert_all latency_ring_insert
count_test = refl

insert_all_lem_example :
    IsRing
      (insert_all (empty_ring zeros) three_values)
      (λ k. get_or three_values k 0)
      (length three_values)
insert_all_lem_example = insert_all_lem zeros three_values
