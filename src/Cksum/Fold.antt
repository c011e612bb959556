-- ===== src/Cksum/Fold.antt =====
-- cksumDone of lib/common/cksum.c.
use pktgen_dpdk.Base.{ℕ, ◌+◌, ◌%◌, ◌^◌, ◌≤◌, ◌<◌, ◌≡◌, arith, ◌↔◌}
use pktgen_dpdk.Cksum.Sum.{cksum_done, fold}

-- Two folds bring a 32-bit sum to 16 bits.
folded : (s : ℕ) → s < 2 ^ 32 → (fold (fold s) ≤ 65535) × (fold (fold s) % 65535 ≡ s % 65535)
folded s h = (omega arith, omega arith)

-- Data that carries its own checksum sums up to a checksum of 0: cksumDone of a sum to which
-- cksumDone of that sum was added is 0.
pub cksum_done_lem : (s : ℕ) → s + 65535 < 2 ^ 32 → cksum_done (s + cksum_done s) ≡ 0
unfolding cksum_done
cksum_done_lem s h = omega arith

-- cksumDone is the one's complement of the sum modulo 65535: the two add up to a multiple of it, and
-- only a sum of 0 gives 65535.
pub cksum_done_mod :
    (s : ℕ)
    → s < 2 ^ 32
    → ((cksum_done s + s) % 65535 ≡ 0) × (cksum_done s ≤ 65535) × ((cksum_done s ≡ 65535) ↔ (s ≡ 0))
unfolding cksum_done
cksum_done_mod s h = (omega arith, omega arith, ((λ e. omega (arith, e, h)), λ e. omega (arith, e)))
