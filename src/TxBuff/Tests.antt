-- ===== src/TxBuff/Tests.antt =====
-- Runs of the packet buffer.
use pktgen_dpdk.Base.{ℕ, zero, suc, ◌≡◌, arith, List, [], ◌∷◌, length, min, suc, ◌<◌, ◌≤◌}
use pktgen_dpdk.TxBuff.State.{Driver, EthTxBuffer, tx_buffer_flush, tx_buffer_bulk}
use pktgen_dpdk.TxBuff.Flush.{IsFair, Took, tx_buffer_flush_lem}
use pktgen_dpdk.TxBuff.Fill.{IsReady, Holds, tx_buffer_bulk_lem}

-- A driver that takes one packet, then none, then one again, and so on. Its state is how often it
-- takes none before the next packet.
abbrev burst : ℕ → List ℕ → ℕ × ℕ
burst nic [] = (nic, 0)
burst zero (p ∷ ps) = (1, 1)
burst (suc n) (p ∷ ps) = (0, 0)

abbrev every_other : Driver ℕ ℕ
every_other = record { tx_burst = λ nic pid qid pkts. burst nic pkts }

burst_le : (nic : ℕ) (pkts : List ℕ) → (burst nic pkts).1 ≤ length pkts
burst_le nic [] = omega arith
burst_le zero (p ∷ ps) = omega arith
burst_le (suc n) (p ∷ ps) = omega arith

burst_stalled :
    (nic : ℕ) (pkts : List ℕ)
    → 0 < length pkts
    → (burst nic pkts).1 ≡ 0
    → min (burst nic pkts).0 1 < min nic 1
burst_stalled nic [] h e = absurd (omega (arith, h))
burst_stalled zero (p ∷ ps) h e = absurd (omega (arith, e))
burst_stalled (suc n) (p ∷ ps) h e = omega arith

every_other-IsFair : IsFair every_other 1 (λ nic. min nic 1)
every_other-IsFair = record {
  takes_le = λ nic pid qid pkts. burst_le nic pkts;
  stalled = λ nic pid qid pkts h e. burst_stalled nic pkts h e;
  stalls_le = λ nic. omega arith;
}

-- Three of four places are taken.
abbrev three : EthTxBuffer ℕ
three = record { size = 4; length = 3; pid = 0; qid = 0; pkts = λ i. i }

tx_buffer_flush_lem_example :
    let (buffer', s) = tx_buffer_flush every_other 100 0 three in
    (buffer' ≡ record three { length = 0 }) × Took 3 (0 ∷ 1 ∷ 2 ∷ []) s
tx_buffer_flush_lem_example =
    tx_buffer_flush_lem every_other 1 (λ nic. min nic 1) every_other-IsFair 100 0 three
      (omega arith) (omega arith)

tx_buffer_bulk_lem_example :
    let (r, n) = tx_buffer_bulk every_other 100 0 three (7 ∷ 8 ∷ []) in
    IsReady r.0 × (r.0.size ≡ 4) × Holds (0 ∷ 1 ∷ 2 ∷ 7 ∷ 8 ∷ []) r
tx_buffer_bulk_lem_example =
    tx_buffer_bulk_lem every_other 1 (λ nic. min nic 1) every_other-IsFair 100 0 three (7 ∷ 8 ∷ [])
      (record { room = omega arith; size_lt = omega arith }) (omega arith)
