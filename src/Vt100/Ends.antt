-- ===== src/Vt100/Ends.antt =====
-- The start and the end of the line, and the kill buffer.
use pktgen_dpdk.Base.{
  ℕ, ◌+◌, ◌-◌, ◌^◌, ◌≤◌, ◌<◌, ◌≡◌, inl, inr, refl, arith, none, List, [], ◌∷◌, ◌++◌, append-nil, ap,
  sym, ◌∙◌, length, drop, if◌then◌else◌, ◌==◌, ap₂, u32, ltb,
}
use pktgen_dpdk.GapBuf.State.{GapBuf, gb_eof, gb_set_point, gb_right_data_size}
use pktgen_dpdk.GapBuf.Ops.{gb_move_gap_to_point}
use pktgen_dpdk.GapBuf.View.{slice, IsValid, before, after, before_of, after_of, length-slice}
use pktgen_dpdk.GapBuf.Move.{IsOpen, gb_move_gap_to_point-IsOpen}
use pktgen_dpdk.GapBuf.Edit.{gb_del_lem, IsOpen-view, ebuf-gb_move_gap_to_point}
use pktgen_dpdk.GapBuf.Point.{text-split, slice_nil}
use pktgen_dpdk.Vt100.Line.{
  key_ctrl_a, key_ctrl_e, key_ctrl_k, key_ctrl_y, Kill, held, dangling, free_kill, until_nul,
}

home_of :
    (mem : ℕ → ℕ) (gap egap ebuf : ℕ)
    → (before_of mem gap egap 0 ≡ [])
      × (after_of mem gap egap ebuf 0 ≡ slice mem 0 gap ++ slice mem egap (ebuf - egap))
home_of mem gap egap ebuf = ground arith

end_of :
    (mem : ℕ → ℕ) (gap egap ebuf : ℕ)
    → gap ≤ egap
    → egap ≤ ebuf
    → (before_of mem gap egap ebuf ≡ slice mem 0 gap ++ slice mem egap (ebuf - egap))
      × (after_of mem gap egap ebuf ebuf ≡ [])
end_of mem gap egap ebuf h k = ground (
  arith,
  slice_nil mem ebuf (ebuf - ebuf),
  slice_nil mem egap (ebuf - egap),
  slice_nil mem ebuf (gap - ebuf),
  append-nil (slice mem 0 gap),
)

zero_point : (gap egap : ℕ) → (if ltb gap 0 then 0 + (egap - gap) else 0) ≡ 0
zero_point gap egap = ground arith

-- Ctrl-A puts the cursor before the whole line.
pub key_ctrl_a_lem :
    (gb : GapBuf)
    → IsValid gb
    → let gb' = key_ctrl_a gb in
      IsValid gb' × (before gb' ≡ []) × (after gb' ≡ before gb ++ after gb)
unfolding key_ctrl_a gb_set_point
key_ctrl_a_lem gb v =
    let z = zero_point gb.gap gb.egap in
    (
      record {
        gap_le = v.gap_le;
        egap_le = v.egap_le;
        ebuf_le = v.ebuf_le;
        point_in = inl (rw z (omega arith));
      },
      ap (before_of gb.mem gb.gap gb.egap) z ∙ (home_of gb.mem gb.gap gb.egap gb.ebuf).0,
      ap (after_of gb.mem gb.gap gb.egap gb.ebuf) z
          ∙ (home_of gb.mem gb.gap gb.egap gb.ebuf).1
          ∙ sym (text-split gb v),
    )

-- Ctrl-E puts the cursor behind the whole line.
pub key_ctrl_e_lem :
    (gb : GapBuf)
    → IsValid gb
    → let gb' = key_ctrl_e gb in
      IsValid gb' × (before gb' ≡ before gb ++ after gb) × (after gb' ≡ [])
unfolding key_ctrl_e gb_set_point
key_ctrl_e_lem gb v = (
  record {
    gap_le = v.gap_le;
    egap_le = v.egap_le;
    ebuf_le = v.ebuf_le;
    point_in = inr (v.egap_le, omega arith);
  },
  (end_of gb.mem gb.gap gb.egap gb.ebuf v.gap_le v.egap_le).0 ∙ sym (text-split gb v),
  (end_of gb.mem gb.gap gb.egap gb.ebuf v.gap_le v.egap_le).1,
)

size_of :
    (gap egap ebuf point : ℕ)
    → point ≡ gap
    → egap ≤ ebuf
    → ebuf < 2 ^ 32
    → (if (if point == gap then egap == ebuf else point == ebuf) then 0 else u32 (ebuf - egap))
      ≡ ebuf - egap
size_of gap egap ebuf point e l h = ground arith

open_size :
    (gb : GapBuf) {b a : List ℕ}
    → IsOpen gb b a
    → gb.ebuf < 2 ^ 32
    → (gb_right_data_size gb ≡ length a) × (slice gb.mem gb.egap (gb_right_data_size gb) ≡ a)
unfolding gb_right_data_size gb_eof
open_size gb o h =
    let e = size_of gb.gap gb.egap gb.ebuf gb.point o.at_gap o.egap_le h in
    (
      e ∙ sym (length-slice gb.mem gb.egap (gb.ebuf - gb.egap)) ∙ ap length o.right,
      ap (slice gb.mem gb.egap) e ∙ o.right,
    )

drop-length : (l : List ℕ) → drop (length l) l ≡ []
drop-length [] = refl
drop-length (x ∷ l) = drop-length l

-- Ctrl-K removes the text behind the cursor and keeps a copy of it up to its first 0 byte; with no
-- text there the old copy is freed and its pointer kept.
pub key_ctrl_k_lem :
    (gb : GapBuf) (kill : Kill)
    → IsValid gb
    → gb.ebuf < 2 ^ 32
    → let (gb', kill') = key_ctrl_k (gb, kill) in
      IsValid gb'
      × (before gb' ≡ before gb)
      × (after gb' ≡ [])
      × (kill' ≡ (if length (after gb) == 0 then free_kill kill else held (until_nul (after gb))))
unfolding key_ctrl_k
key_ctrl_k_lem gb kill v h =
    let m = gb_move_gap_to_point-IsOpen gb v in
    let w = IsOpen-view m in
    let s = open_size (gb_move_gap_to_point gb) m (rw (ebuf-gb_move_gap_to_point gb) h) in
    let d = gb_del_lem (gb_move_gap_to_point gb) (length (after gb)) w.0 (rw w.2 (omega arith)) in
    (
      rw s.0 d.0,
      rw s.0 (d.1 ∙ w.1),
      rw s.0 (d.2 ∙ ap (drop (length (after gb))) w.2 ∙ drop-length (after gb)),
      ap₂ (λ k l. if k == 0 then free_kill kill else held (until_nul l)) s.0 s.1,
    )

lost : (s : GapBuf × Kill) → s.1 ≡ dangling → key_ctrl_y s ≡ none
unfolding key_ctrl_y
lost (gb, kill) e = ap (λ k. key_ctrl_y (gb, k)) e

-- Ctrl-K at the end of the line after a text was killed, then Ctrl-Y: the freed copy is read.
pub key_ctrl_y-key_ctrl_k :
    (gb : GapBuf) (str : List ℕ)
    → IsValid gb
    → gb.ebuf < 2 ^ 32
    → after gb ≡ []
    → key_ctrl_y (key_ctrl_k (gb, held str)) ≡ none
key_ctrl_y-key_ctrl_k gb str v h e =
    let k = (key_ctrl_k_lem gb (held str) v h).3 in
    let freed : (key_ctrl_k (gb, held str)).1 ≡ dangling =
      k ∙ ap (λ l. if length l == 0 then dangling else held (until_nul l)) e in
    lost (key_ctrl_k (gb, held str)) freed
