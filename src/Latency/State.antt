-- ===== src/Latency/State.antt =====
-- latency_ring_t of app/pktgen-port-cfg.h and latency_ring_insert of app/pktgen.c.
use pktgen_dpdk.Base.{ℕ, ◌+◌, ◌%◌, ltb, ◌==◌, if◌then◌else◌, List, [], ◌∷◌}

-- RING_SIZE
abbrev pub ring_size : ℕ
ring_size = 1024

-- The array is a function of the index.
pub record LatencyRing : Type 0 where
  pub data_at : ℕ → ℕ
  pub head : ℕ
  pub count : ℕ

abbrev pub written : (ℕ → ℕ) → (i v : ℕ) → ℕ → ℕ
written data_at i v j = if j == i then v else data_at j

unfoldable pub latency_ring_insert : LatencyRing → (value : ℕ) → LatencyRing
latency_ring_insert ring value = record {
  data_at = written ring.data_at ring.head value;
  head = (ring.head + 1) % ring_size;
  count = if ltb ring.count ring_size then ring.count + 1 else ring.count;
}

-- The calls that pktgen_tstamp_check makes for one value after the other.
unfoldable pub insert_all : LatencyRing → List ℕ → LatencyRing
insert_all ring [] = ring
insert_all ring (value ∷ values) = insert_all (latency_ring_insert ring value) values
