-- ===== src/GapBuf/Left.antt =====
-- Moving the point left, and the byte before it.
use pktgen_dpdk.Base.{
  ℕ, ◌+◌, ◌-◌, ◌≤◌, ◌<◌, ◌≡◌, ◌⊎◌, arith, [], ◌∷◌, ◌++◌, append-nil, append_assoc, if◌then◌else◌,
  ◌==◌, ◌≢◌, inl, inr, ne→==, eq→==, ap, ◌∙◌,
}
use pktgen_dpdk.GapBuf.Ops.{gb_move_left, gb_get_prev}
use pktgen_dpdk.GapBuf.State.{GapBuf}
use pktgen_dpdk.GapBuf.View.{
  slice, before_of, after_of, IsOutside, slice-add, IsValid, before, after,
}
use pktgen_dpdk.GapBuf.Point.{slice-cons, slice_nil, lt_cases}

abbrev left_of : (gap egap point : ℕ) → ℕ
left_of gap egap point = let q = if point == egap then gap else point in if q == 0 then 0 else q - 1

module _ (mem : ℕ → ℕ) (gap egap ebuf point : ℕ) (h : gap ≤ egap) (k : egap ≤ ebuf)
    (o : IsOutside gap egap ebuf point) where
  left_of-IsOutside : IsOutside gap egap ebuf (left_of gap egap point)
  left_of-IsOutside = ground arith

  -- The point stands behind the gap, and so does the offset before it.
  inside :
      (p : ℕ)
      → point ≡ p + 1
      → egap ≤ p
      → (before_of mem gap egap point ≡ before_of mem gap egap p ++ (mem p ∷ []))
        × (after_of mem gap egap ebuf p ≡ mem p ∷ after_of mem gap egap ebuf point)
  inside p e l = ground (
    arith,
    slice-add mem egap (p - egap) 1,
    slice-cons mem p (ebuf - p),
    slice-cons mem egap (ebuf - egap),
    slice_nil mem p (gap - p),
    append-nil (slice mem 0 gap),
    slice_nil mem egap (p - egap),
    append_assoc (slice mem 0 gap) (slice mem egap (p - egap)) (mem p ∷ []),
  )

  -- The offset before the point is left of the gap.
  outside :
      (p : ℕ)
      → (point ≡ p + 1) ⊎ (point ≡ egap)
      → (point ≡ egap → gap ≡ p + 1)
      → p < gap
      → (point ≤ gap) ⊎ (point ≡ egap)
      → (before_of mem gap egap point ≡ before_of mem gap egap p ++ (mem p ∷ []))
        × (after_of mem gap egap ebuf p ≡ mem p ∷ after_of mem gap egap ebuf point)
  outside p e e' l b = ground (
    arith,
    slice-add mem 0 p 1,
    slice-cons mem p (gap - p),
    slice_nil mem (p + 1) (gap - p - 1),
    slice_nil mem egap (point - egap),
    slice_nil mem gap (gap - gap),
    slice_nil mem egap (egap - egap),
    append-nil (slice mem 0 gap),
  )

  abbrev Carried : (p : ℕ) → Type 0
  Carried p =
      (before_of mem gap egap point ≡ before_of mem gap egap p ++ (mem p ∷ []))
      × (after_of mem gap egap ebuf p ≡ mem p ∷ after_of mem gap egap ebuf point)

  -- Where text stands before the point, the code goes on from an offset that is not 0.
  start : ℕ
  start = if point == egap then gap else point

  start_pos : before_of mem gap egap point ≢ [] → 0 < start
  unfolding start
  start_pos ne = grind (arith, slice_nil mem egap (point - egap), slice_nil mem 0 gap)

  start_eq : point ≡ egap → start ≡ gap
  unfolding start
  start_eq e = rw (eq→== point egap e)

  start_ne : ¬ (point ≡ egap) → start ≡ point
  unfolding start
  start_ne e = rw (ne→== point egap e)

  carried : before_of mem gap egap point ≢ [] → Carried (start - 1)
  carried ne = elim (lt_cases point egap) [
    | inl l ↦
        let s = start_pos ne in
        let e = start_ne (omega arith) in
        rw e (
          outside (point - 1) (inl (omega arith)) (omega arith) (omega (arith, s, e))
            (inl (omega arith)))
    | inr (inl e) ↦
        let s = start_pos ne in
        let e' = start_eq e in
        rw e' (outside (gap - 1) (inr e) (λ _. omega (arith, s, e')) (omega (arith, s, e')) (inr e))
    | inr (inr l) ↦ rw (start_ne (omega arith)) (inside (point - 1) (omega arith) (omega arith))
  ]

-- gb_move_left carries the byte before the point, which gb_get_prev returns, over to the text behind
-- it, whenever the text before the point is not empty.
pub gb_move_left_lem :
    (gb : GapBuf)
    → IsValid gb
    → before gb ≢ []
    → let gb' = gb_move_left gb in
      let c = (gb_get_prev gb).1 in
      IsValid gb' × (before gb ≡ before gb' ++ (c ∷ [])) × (after gb' ≡ c ∷ after gb)
unfolding gb_move_left gb_get_prev start
gb_move_left_lem gb v ne =
    let s = start_pos mem gap egap ebuf point v.gap_le v.egap_le v.point_in ne in
    let c = carried mem gap egap ebuf point v.gap_le v.egap_le v.point_in ne in
    rw (ne→== (if point == egap then gap else point) 0 (omega (arith, s))) (
      record {
        gap_le = v.gap_le;
        egap_le = v.egap_le;
        ebuf_le = v.ebuf_le;
        point_in = ground (arith, v.point_in, s);
      },
      c.0,
      c.1,
    )
  where
    open gb use {mem, point, gap, egap, ebuf}

module _ (mem : ℕ → ℕ) (gap egap ebuf point : ℕ) (h : gap ≤ egap) (k : egap ≤ ebuf)
    (o : IsOutside gap egap ebuf point) where
  pub first : before_of mem gap egap point ≡ [] → (point ≡ 0) ⊎ ((gap ≡ 0) × (point ≡ egap))
  first e =
      grind
        (arith, slice-cons mem 0 point, slice-cons mem 0 gap, slice-cons mem egap (point - egap))

  left_of_first : before_of mem gap egap point ≡ [] → left_of gap egap point ≡ 0
  left_of_first e = ground (arith, first e)

  after_first :
      before_of mem gap egap point ≡ []
      → after_of mem gap egap ebuf 0 ≡ after_of mem gap egap ebuf point
  after_first e = ground (arith, first e, slice_nil mem 0 (gap - 0))

before_first : (mem : ℕ → ℕ) (gap egap : ℕ) → before_of mem gap egap 0 ≡ []
before_first mem gap egap = ground arith

-- Where no text stands before the point, gb_move_left goes to the start, and both texts stay.
pub gb_move_left_first :
    (gb : GapBuf)
    → IsValid gb
    → before gb ≡ []
    → let gb' = gb_move_left gb in IsValid gb' × (before gb' ≡ []) × (after gb' ≡ after gb)
unfolding gb_move_left
gb_move_left_first gb v e =
    let z = left_of_first mem gap egap ebuf point v.gap_le v.egap_le v.point_in e in
    (
      record {
        gap_le = v.gap_le;
        egap_le = v.egap_le;
        ebuf_le = v.ebuf_le;
        point_in = inl (rw z (omega arith));
      },
      ap (before_of mem gap egap) z ∙ before_first mem gap egap,
      ap (after_of mem gap egap ebuf) z
          ∙ after_first mem gap egap ebuf point v.gap_le v.egap_le v.point_in e,
    )
  where
    open gb use {mem, point, gap, egap, ebuf}
