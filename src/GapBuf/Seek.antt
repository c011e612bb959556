-- ===== src/GapBuf/Seek.antt =====
-- gb_set_point and gb_reset_buf of lib/cli/cli_gapbuf.h and lib/cli/cli_gapbuf.c.
use pktgen_dpdk.Base.{
  ℕ, ◌+◌, ◌-◌, ◌≤◌, ◌≡◌, inl, refl, arith, some, List, [], ◌∷◌, ◌++◌, ap, sym, ◌∙◌, length, take,
  drop, ltb, if◌then◌else◌, length-append,
}
use pktgen_dpdk.GapBuf.State.{GapBuf, gb_set_point, gb_reset_buf}
use pktgen_dpdk.GapBuf.View.{
  slice, IsValid, before, after, before_of, text, length-slice, IsOutside,
}
use pktgen_dpdk.GapBuf.Point.{text-split, slice_nil}
use pktgen_dpdk.GapBuf.Copy.{length-text}

take-length : (b a : List ℕ) → take (length b) (b ++ a) ≡ b
take-length [] a = refl
take-length (x ∷ b) a = ap (λ l. x ∷ l) (take-length b a)

drop-length : (b a : List ℕ) → drop (length b) (b ++ a) ≡ a
drop-length [] a = refl
drop-length (x ∷ b) a = drop-length b a

-- The offset of the byte number `idx`.
abbrev seek : (gap egap idx : ℕ) → ℕ
seek gap egap idx = if ltb gap idx then idx + (egap - gap) else idx

seek-IsOutside :
    (gap egap ebuf idx : ℕ)
    → gap ≤ egap
    → egap ≤ ebuf
    → idx ≤ gap + (ebuf - egap)
    → IsOutside gap egap ebuf (seek gap egap idx)
seek-IsOutside gap egap ebuf idx h k l = ground arith

length-seek :
    (mem : ℕ → ℕ) (gap egap ebuf idx : ℕ)
    → gap ≤ egap
    → egap ≤ ebuf
    → idx ≤ gap + (ebuf - egap)
    → length (before_of mem gap egap (seek gap egap idx)) ≡ idx
length-seek mem gap egap ebuf idx h k l = ground (
  arith,
  length-slice mem 0 gap,
  length-slice mem 0 idx,
  length-slice mem egap (idx + (egap - gap) - egap),
  length-append (slice mem 0 gap) (slice mem egap (idx + (egap - gap) - egap)),
)

seek-IsValid :
    (gb : GapBuf) (idx : ℕ)
    → IsValid gb
    → idx ≤ length (text gb)
    → IsValid (gb_set_point gb (some idx))
unfolding gb_set_point
seek-IsValid gb idx v h = record {
  gap_le = v.gap_le;
  egap_le = v.egap_le;
  ebuf_le = v.ebuf_le;
  point_in =
      seek-IsOutside gb.gap gb.egap gb.ebuf idx v.gap_le v.egap_le
        (omega (arith, h, length-text gb));
}

length-before :
    (gb : GapBuf) (idx : ℕ)
    → IsValid gb
    → idx ≤ length (text gb)
    → length (before (gb_set_point gb (some idx))) ≡ idx
unfolding gb_set_point
length-before gb idx v h =
    length-seek gb.mem gb.gap gb.egap gb.ebuf idx v.gap_le v.egap_le
      (omega (arith, h, length-text gb))

text-gb_set_point : (gb : GapBuf) (idx : ℕ) → text (gb_set_point gb (some idx)) ≡ text gb
unfolding gb_set_point
text-gb_set_point gb idx = refl

-- gb_set_point with an index puts the point behind as many bytes of the text.
pub gb_set_point_lem :
    (gb : GapBuf) (idx : ℕ)
    → IsValid gb
    → idx ≤ length (text gb)
    → let gb' = gb_set_point gb (some idx) in
      IsValid gb' × (before gb' ≡ take idx (text gb)) × (after gb' ≡ drop idx (text gb))
gb_set_point_lem gb idx v h =
    let gb' = gb_set_point gb (some idx) in
    let v' = seek-IsValid gb idx v h in
    let whole : before gb' ++ after gb' ≡ text gb = text-split gb' v' ∙ text-gb_set_point gb idx in
    let size = length-before gb idx v h in
    (
      v',
      sym (take-length (before gb') (after gb'))
          ∙ ap (take (length (before gb'))) whole
          ∙ ap (λ n. take n (text gb)) size,
      sym (drop-length (before gb') (after gb'))
          ∙ ap (drop (length (before gb'))) whole
          ∙ ap (λ n. drop n (text gb)) size,
    )

-- gb_reset_buf leaves an empty text.
pub gb_reset_buf_lem :
    (gb : GapBuf)
    → IsValid gb
    → let gb' = gb_reset_buf gb in
      IsValid gb' × (before gb' ≡ []) × (after gb' ≡ []) × (gb'.ebuf ≡ gb.ebuf)
unfolding gb_reset_buf
gb_reset_buf_lem gb v = (
  record {
    gap_le = omega arith;
    egap_le = omega arith;
    ebuf_le = v.ebuf_le;
    point_in = inl (omega arith);
  },
  refl,
  slice_nil _ gb.ebuf (gb.ebuf - gb.ebuf) (omega arith),
  refl,
)
