-- ===== src/GapBuf/Point.antt =====
-- Moving the point and reading at it: the text stays.
use pktgen_dpdk.Base.{
  ℕ, zero, suc, ◌+◌, ◌-◌, ◌≤◌, ◌<◌, ◌≡◌, arith, [], ◌∷◌, ◌++◌, append-nil, append_assoc, take, drop,
  true, ap, ◌∙◌, ◌↔◌, ◌⊎◌, if◌then◌else◌, ◌==◌, ltb, inl, inr,
}
use pktgen_dpdk.GapBuf.Ops.{gb_move_right}
use pktgen_dpdk.GapBuf.State.{GapBuf, gb_eof}
use pktgen_dpdk.GapBuf.View.{
  slice, IsValid, before, after, text, slice-add, before_of, after_of, IsOutside,
}

-- The first byte of a slice.
pub slice-cons : (mem : ℕ → ℕ) (i n : ℕ) → 0 < n → slice mem i n ≡ mem i ∷ slice mem (i + 1) (n - 1)
slice-cons mem i zero h = absurd (omega arith)
slice-cons mem i (suc n) h = ap (λ k. mem i ∷ slice mem (i + 1) k) (omega arith)

pub slice_nil : (mem : ℕ → ℕ) (i n : ℕ) → n ≡ 0 → slice mem i n ≡ []
slice_nil mem i n e = ap (slice mem i) e

-- The last byte of a slice.
pub slice-snoc :
    (mem : ℕ → ℕ) (i n : ℕ)
    → 0 < n
    → slice mem i n ≡ slice mem i (n - 1) ++ (mem (i + (n - 1)) ∷ [])
slice-snoc mem i n h =
    let e : n ≡ n - 1 + 1 = omega arith in ap (slice mem i) e ∙ slice-add mem i (n - 1) 1

split :
    (mem : ℕ → ℕ) (i j k : ℕ)
    → i ≤ j
    → j ≤ k
    → slice mem i (k - i) ≡ slice mem i (j - i) ++ slice mem j (k - j)
split mem i j k h l =
    let e : k - i ≡ j - i + (k - j) = omega arith in
    let e' : i + (j - i) ≡ j = omega arith in
    ap (slice mem i) e
    ∙ slice-add mem i (j - i) (k - j)
    ∙ ap (λ x. slice mem i (j - i) ++ slice mem x (k - j)) e'

-- The text is what stands before the point and behind it.
pub text-split : (gb : GapBuf) → IsValid gb → before gb ++ after gb ≡ text gb
text-split gb v = ground (
  arith,
  split mem 0 point gap,
  split mem egap point ebuf,
  append_assoc (slice mem 0 point) (slice mem point (gap - point)) (slice mem egap (ebuf - egap)),
  append_assoc (slice mem 0 gap) (slice mem egap (point - egap)) (slice mem point (ebuf - point)),
)
  where
    open gb use {mem, point, gap, egap, ebuf}

-- gb_eof tells whether no text is left behind the point.
pub gb_eof_iff : (gb : GapBuf) → IsValid gb → (gb_eof gb ≡ true) ↔ (after gb ≡ [])
unfolding gb_eof
gb_eof_iff gb v = (
  λ h. ground (arith, slice_nil mem egap (ebuf - egap), slice_nil mem point (ebuf - point)),
  λ h. ground (
    arith,
    slice-cons mem point (gap - point),
    slice-cons mem egap (ebuf - egap),
    slice-cons mem point (ebuf - point),
  ),
)
  where
    open gb use {mem, point, gap, egap, ebuf}

pub one : (mem : ℕ → ℕ) (i n : ℕ) → n ≡ 1 → slice mem i n ≡ mem i ∷ []
one mem i n e = ap (slice mem i) e

pub lt_cases : (a b : ℕ) → (a < b) ⊎ (a ≡ b) ⊎ (b < a)
lt_cases a b = grind arith

abbrev right_of : (gap egap ebuf point : ℕ) → ℕ
right_of gap egap ebuf point =
    let q = if point == gap then egap else point in if ltb ebuf (q + 1) then ebuf else q + 1

module _ (mem : ℕ → ℕ) (gap egap ebuf point : ℕ) (h : gap ≤ egap) (k : egap ≤ ebuf)
    (o : IsOutside gap egap ebuf point) where
  right_of-IsOutside : IsOutside gap egap ebuf (right_of gap egap ebuf point)
  right_of-IsOutside = ground arith

  before_left :
      point < gap
      → before_of mem gap egap (right_of gap egap ebuf point)
        ≡ before_of mem gap egap point ++ take 1 (after_of mem gap egap ebuf point)
  before_left l = ground (arith, slice-cons mem point (gap - point), slice-add mem 0 point 1)

  before_gap_end :
      point ≡ gap
      → egap ≡ ebuf
      → before_of mem gap egap (right_of gap egap ebuf point)
        ≡ before_of mem gap egap point ++ take 1 (after_of mem gap egap ebuf point)
  before_gap_end e e' = ground (
    arith,
    slice_nil mem point (gap - point),
    slice_nil mem egap (ebuf - egap),
    append-nil (slice mem 0 gap),
  )

  before_gap :
      point ≡ gap
      → egap < ebuf
      → before_of mem gap egap (right_of gap egap ebuf point)
        ≡ before_of mem gap egap point ++ take 1 (after_of mem gap egap ebuf point)
  before_gap e l = ground (
    arith,
    slice_nil mem point (gap - point),
    slice-cons mem egap (ebuf - egap),
    slice-add mem 0 gap 1,
    one mem egap (egap + 1 - egap),
  )

  before_end :
      gap < point
      → point ≡ ebuf
      → before_of mem gap egap (right_of gap egap ebuf point)
        ≡ before_of mem gap egap point ++ take 1 (after_of mem gap egap ebuf point)
  before_end l e = ground (
    arith,
    slice_nil mem point (ebuf - point),
    append-nil (slice mem 0 gap ++ slice mem egap (point - egap)),
  )

  before_right :
      gap < point
      → point < ebuf
      → before_of mem gap egap (right_of gap egap ebuf point)
        ≡ before_of mem gap egap point ++ take 1 (after_of mem gap egap ebuf point)
  before_right l l' = ground (
    arith,
    slice-cons mem point (ebuf - point),
    slice-add mem egap (point - egap) 1,
    append_assoc (slice mem 0 gap) (slice mem egap (point - egap)) (mem point ∷ []),
  )

  before-right_of :
      before_of mem gap egap (right_of gap egap ebuf point)
      ≡ before_of mem gap egap point ++ take 1 (after_of mem gap egap ebuf point)
  before-right_of = elim (lt_cases point gap) [
    | inl l ↦ before_left l
    | inr (inl e) ↦ elim (lt_cases egap ebuf) [
      | inl l ↦ before_gap e l
      | inr (inl e') ↦ before_gap_end e e'
      | inr (inr l) ↦ absurd (omega arith)
    ]
    | inr (inr l) ↦ elim (lt_cases point ebuf) [
      | inl l' ↦ before_right l l'
      | inr (inl e) ↦ before_end l e
      | inr (inr l') ↦ absurd (omega arith)
    ]
  ]

  after-right_of :
      after_of mem gap egap ebuf (right_of gap egap ebuf point)
      ≡ drop 1 (after_of mem gap egap ebuf point)
  after-right_of = ground (
    arith,
    slice-cons mem point (gap - point),
    slice-cons mem egap (ebuf - egap),
    slice-cons mem point (ebuf - point),
    slice_nil mem egap (ebuf - egap),
    slice_nil mem point (ebuf - point),
    slice_nil mem point (gap - point),
    slice_nil mem ebuf (ebuf - ebuf),
    slice_nil mem ebuf (gap - ebuf),
  )

-- gb_move_right carries the byte at the point over, and changes nothing where no byte is left.
pub gb_move_right_lem :
    (gb : GapBuf)
    → IsValid gb
    → let gb' = gb_move_right gb in
      IsValid gb' × (before gb' ≡ before gb ++ take 1 (after gb)) × (after gb' ≡ drop 1 (after gb))
unfolding gb_move_right
gb_move_right_lem gb v = (
  record {
    gap_le = v.gap_le;
    egap_le = v.egap_le;
    ebuf_le = v.ebuf_le;
    point_in = right_of-IsOutside mem gap egap ebuf point v.gap_le v.egap_le v.point_in;
  },
  before-right_of mem gap egap ebuf point v.gap_le v.egap_le v.point_in,
  after-right_of mem gap egap ebuf point v.gap_le v.egap_le v.point_in,
)
  where
    open gb use {mem, point, gap, egap, ebuf}
