-- ===== src/GapBuf/Move.antt =====
-- The gap moved to the point, and room made in it: the text stays.
use pktgen_dpdk.Base.{
  ℕ, ◌+◌, ◌-◌, ◌≤◌, ◌<◌, ◌≡◌, arith, List, ◌++◌, append-nil, ◌∙◌, inl, ap, ap₂, inr,
}
use pktgen_dpdk.GapBuf.State.{GapBuf, memmove}
use pktgen_dpdk.GapBuf.Ops.{gb_move_gap_to_point}
use pktgen_dpdk.GapBuf.View.{
  slice, IsValid, before, after, slice-add, slice-memmove, slice-memmove_out,
}

-- The gap stands at the point, with the text `b` before it and `a` behind it.
pub record IsOpen (gb : GapBuf) (b a : List ℕ) : Type 0 where
  pub gap_le : gb.gap ≤ gb.egap
  pub egap_le : gb.egap ≤ gb.ebuf
  pub ebuf_le : gb.ebuf ≤ gb.alloc
  pub at_gap : gb.point ≡ gb.gap
  pub left : slice gb.mem 0 gb.gap ≡ b
  pub right : slice gb.mem gb.egap (gb.ebuf - gb.egap) ≡ a

move_left_part :
    (mem : ℕ → ℕ) (point gap egap ebuf : ℕ)
    → point < gap
    → gap ≤ egap
    → egap ≤ ebuf
    → let cnt = gap - point in
      let m = memmove mem (egap - cnt) point cnt in
      (slice m 0 point ≡ slice mem 0 point)
      × (slice m (egap - cnt) (ebuf - (egap - cnt))
          ≡ slice mem point cnt ++ slice mem egap (ebuf - egap))
move_left_part mem point gap egap ebuf h k l =
    let cnt = gap - point in
    let m = memmove mem (egap - cnt) point cnt in
    let e : egap - cnt + cnt ≡ egap = omega arith in
    let e' : ebuf - (egap - cnt) ≡ cnt + (ebuf - egap) = omega arith in
    (
      slice-memmove_out mem (egap - cnt) point cnt 0 point (inl (omega arith)),
      ap (slice m (egap - cnt)) e'
          ∙ slice-add m (egap - cnt) cnt (ebuf - egap)
          ∙ ap₂ ◌++◌ (slice-memmove mem (egap - cnt) point cnt) (
              ap (λ k. slice m k (ebuf - egap)) e
              ∙ slice-memmove_out mem (egap - cnt) point cnt egap (ebuf - egap)
                  (inr (omega arith))),
    )

move_right_part :
    (mem : ℕ → ℕ) (point gap egap ebuf : ℕ)
    → egap < point
    → gap ≤ egap
    → point ≤ ebuf
    → let cnt = point - egap in
      let m = memmove mem gap egap cnt in
      (slice m 0 (gap + cnt) ≡ slice mem 0 gap ++ slice mem egap cnt)
      × (slice m point (ebuf - point) ≡ slice mem point (ebuf - point))
move_right_part mem point gap egap ebuf h k l =
    let cnt = point - egap in
    let m = memmove mem gap egap cnt in
    (
      slice-add m 0 gap cnt
          ∙ ap₂ ◌++◌ (slice-memmove_out mem gap egap cnt 0 gap (inl (omega arith)))
              (ap (λ k. slice m k cnt) (omega arith) ∙ slice-memmove mem gap egap cnt),
      slice-memmove_out mem gap egap cnt point (ebuf - point) (inr (omega arith)),
    )

pub gb_move_gap_to_point-IsOpen :
    (gb : GapBuf) → IsValid gb → IsOpen (gb_move_gap_to_point gb) (before gb) (after gb)
unfolding gb_move_gap_to_point
gb_move_gap_to_point-IsOpen gb v = ground (
  arith,
  move_left_part mem point gap egap ebuf,
  move_right_part mem point gap egap ebuf,
  append-nil (slice mem 0 gap),
)
  where
    open gb use {mem, point, gap, egap, ebuf}
