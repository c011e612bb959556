-- ===== src/GapBuf/Tests.antt =====
-- Runs of the gap buffer.
use pktgen_dpdk.Base.{◌≡◌, inr, arith, [], ◌∷◌, ltb, if◌then◌else◌}
use pktgen_dpdk.GapBuf.State.{GapBuf}
use pktgen_dpdk.GapBuf.Ops.{gb_str_insert, gb_move_gap_to_point}
use pktgen_dpdk.GapBuf.View.{IsValid, before, after}
use pktgen_dpdk.GapBuf.Move.{IsOpen, gb_move_gap_to_point-IsOpen}
use pktgen_dpdk.GapBuf.Edit.{gb_str_insert_lem}
use pktgen_dpdk.GapBuf.Copy.{gb_copy_to_buf, gb_copy_to_buf_lem}

-- "abbb", two bytes of gap from offset 1 on, the point before the last "b".
abbrev letters : GapBuf
letters = record {
  mem = λ i. if ltb i 1 then 97 else 98;
  alloc = 6;
  ebuf = 6;
  point = 5;
  gap = 1;
  egap = 3;
}

letters-IsValid : IsValid letters
letters-IsValid = record {
  gap_le = omega arith;
  egap_le = omega arith;
  ebuf_le = omega arith;
  point_in = inr (omega arith, omega arith);
}

gb_move_gap_to_point-IsOpen_example :
    IsOpen (gb_move_gap_to_point letters) (97 ∷ 98 ∷ 98 ∷ []) (98 ∷ [])
gb_move_gap_to_point-IsOpen_example = gb_move_gap_to_point-IsOpen letters letters-IsValid

gb_str_insert_lem_example :
    let (gb', n) = gb_str_insert letters (99 ∷ 100 ∷ 101 ∷ []) in
    IsValid gb'
    × (before gb' ≡ 97 ∷ 98 ∷ 98 ∷ 99 ∷ 100 ∷ 101 ∷ [])
    × (after gb' ≡ 98 ∷ [])
    × (n ≡ 3)
gb_str_insert_lem_example =
    gb_str_insert_lem letters (99 ∷ 100 ∷ 101 ∷ []) letters-IsValid (omega arith)

gb_copy_to_buf_lem_example : gb_copy_to_buf letters 3 ≡ (3, 97 ∷ 98 ∷ 98 ∷ 0 ∷ [])
gb_copy_to_buf_lem_example = gb_copy_to_buf_lem letters 3 letters-IsValid (omega arith)
