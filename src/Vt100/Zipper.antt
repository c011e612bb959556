-- ===== src/Vt100/Zipper.antt =====
-- What the editing keys do to the text before and after the cursor.
use pktgen_dpdk.Base.{
  ℕ, ◌-◌, ◌≤◌, ◌<◌, ◌≡◌, ◌≢◌, ◌⊎◌, inl, inr, refl, arith, true, false, List, [], ◌∷◌, ◌++◌,
  append-nil, ap, sym, ◌∙◌, Bool-cases, length, take, drop, ap₂,
}
use pktgen_dpdk.GapBuf.State.{GapBuf, gb_eof, gb_point_at_start}
use pktgen_dpdk.GapBuf.Ops.{gb_get_prev, gb_move_left}
use pktgen_dpdk.GapBuf.View.{
  before_of, after_of, length-slice, IsValid, before, after, length-slice,
}
use pktgen_dpdk.GapBuf.Edit.{gb_del_lem}
use pktgen_dpdk.GapBuf.Point.{gb_move_right_lem, gb_eof_iff, slice_nil}
use pktgen_dpdk.GapBuf.Left.{first, gb_move_left_first, gb_move_left_lem}
use pktgen_dpdk.Vt100.Line.{key_right_arr, key_left_arr, key_backspace}

-- The text before and after the cursor.
abbrev pub Zipper : Type 0
Zipper = List ℕ × List ℕ

abbrev pub view : GapBuf → Zipper
view gb = (before gb, after gb)

-- A line without its last byte, and that byte.
abbrev pub init : List ℕ → List ℕ
init [] = []
init (x ∷ []) = []
init (x ∷ (y ∷ l)) = x ∷ init (y ∷ l)

abbrev pub last : List ℕ → List ℕ
last [] = []
last (x ∷ []) = x ∷ []
last (x ∷ (y ∷ l)) = last (y ∷ l)

init-snoc : (l : List ℕ) (c : ℕ) → init (l ++ (c ∷ [])) ≡ l
init-snoc [] c = refl
init-snoc (x ∷ []) c = refl
init-snoc (x ∷ (y ∷ l)) c = ap (λ k. x ∷ k) (init-snoc (y ∷ l) c)

last-snoc : (l : List ℕ) (c : ℕ) → last (l ++ (c ∷ [])) ≡ c ∷ []
last-snoc [] c = refl
last-snoc (x ∷ []) c = refl
last-snoc (x ∷ (y ∷ l)) c = last-snoc (y ∷ l) c

-- The cursor keys, on the two texts.
abbrev pub right : Zipper → Zipper
right (b, a) = (b ++ take 1 a, drop 1 a)

abbrev pub left : Zipper → Zipper
left (b, a) = (init b, last b ++ a)

abbrev pub backspace : Zipper → Zipper
backspace (b, a) = (init b, a)

pair : {a b c d : List ℕ} → a ≡ b → c ≡ d → ◌≡◌ {A = Zipper} (a, c) (b, d)
pair p q = ap₂ (λ x y. (x, y)) p q

at_start : (gb : GapBuf) → gb_point_at_start gb ≡ true → before gb ≡ []
unfolding gb_point_at_start
at_start gb e = ground (arith, slice_nil gb.mem 0 gb.point)

nil_or_not : (l : List ℕ) → (l ≡ []) ⊎ (l ≢ [])
nil_or_not [] = inl refl
nil_or_not (x ∷ l) = inr (λ e. cc)

move_left_view :
    (gb : GapBuf)
    → IsValid gb
    → IsValid (gb_move_left gb) × (view (gb_move_left gb) ≡ left (view gb))
move_left_view gb v = elim (nil_or_not (before gb)) [
  | inl e ↦
      let m = gb_move_left_first gb v e in
      (m.0, pair m.1 m.2 ∙ sym (ap (λ b. (init b, last b ++ after gb)) e))
  | inr ne ↦
      let m = gb_move_left_lem gb v ne in
      let b' = before (gb_move_left gb) in
      let c = (gb_get_prev gb).1 in
      (
        m.0,
        sym (
            ap (λ b. (init b, last b ++ after gb)) m.1
            ∙ pair (init-snoc b' c) (ap (λ l. l ++ after gb) (last-snoc b' c) ∙ sym m.2)),
      )
]

-- The cursor right moves over one byte, and stays at the end of the line.
pub key_right_arr_lem :
    (gb : GapBuf)
    → IsValid gb
    → IsValid (key_right_arr gb) × (view (key_right_arr gb) ≡ right (view gb))
unfolding key_right_arr
key_right_arr_lem gb v = elim (Bool-cases (gb_eof gb)) [
  | inl e ↦
      let nil = (gb_eof_iff gb v).0 e in
      rw e (
        v,
        sym (
            ap (λ a. (before gb ++ take 1 a, drop 1 a)) nil
            ∙ pair (append-nil (before gb)) (sym nil)),
      )
  | inr e ↦ let m = gb_move_right_lem gb v in rw e (m.0, pair m.1 m.2)
]

-- The cursor left moves over one byte, and stays at the start of the line.
pub key_left_arr_lem :
    (gb : GapBuf)
    → IsValid gb
    → IsValid (key_left_arr gb) × (view (key_left_arr gb) ≡ left (view gb))
unfolding key_left_arr
key_left_arr_lem gb v = elim (Bool-cases (gb_point_at_start gb)) [
  | inl e ↦ rw e (
    v,
    sym (ap (λ b. (init b, last b ++ after gb)) (at_start gb e) ∙ pair (sym (at_start gb e)) refl),
  )
  | inr e ↦ rw e (move_left_view gb v)
]

at_least_one : {l l' : List ℕ} {c : ℕ} → l ≡ c ∷ l' → 1 ≤ length l
at_least_one {l} {l'} e = omega (arith, ap length e)

not_at_start :
    (gb : GapBuf)
    → IsValid gb
    → (0 < gb.gap) ⊎ (gb.point ≢ gb.egap) ⊎ (gb.gap ≡ gb.egap)
    → gb_point_at_start gb ≡ false
    → before gb ≢ []
unfolding gb_point_at_start
not_at_start gb v s e nil =
    let f = first gb.mem gb.gap gb.egap gb.ebuf gb.point v.gap_le v.egap_le v.point_in nil in
    ground (arith, f, s, e)

at_gap_nil : (gb : GapBuf) → gb.gap ≡ 0 → gb.point ≡ gb.egap → before gb ≡ []
at_gap_nil gb z e = nil_of gb.mem gb.gap gb.egap gb.point z e
  where
    nil_of :
        (mem : ℕ → ℕ) (gap egap point : ℕ)
        → gap ≡ 0
        → point ≡ egap
        → before_of mem gap egap point ≡ []
    nil_of mem gap egap point z e =
        ground
          (arith, slice_nil mem egap (point - egap), slice_nil mem 0 gap, slice_nil mem 0 point)

at_gap_size :
    (gb : GapBuf)
    → gb.gap ≡ 0
    → gb.point ≡ gb.egap
    → 0 < gb.egap
    → gb.egap < gb.ebuf
    → 1 ≤ length (after gb)
at_gap_size gb z e p l = size_of gb.mem gb.gap gb.egap gb.ebuf gb.point z e p l
  where
    size_of :
        (mem : ℕ → ℕ) (gap egap ebuf point : ℕ)
        → gap ≡ 0
        → point ≡ egap
        → 0 < egap
        → egap < ebuf
        → 1 ≤ length (after_of mem gap egap ebuf point)
    size_of mem gap egap ebuf point z e p l = ground (arith, length-slice mem point (ebuf - point))

not_start : (gb : GapBuf) → gb.point ≡ gb.egap → 0 < gb.egap → gb_point_at_start gb ≡ false
unfolding gb_point_at_start
not_start gb e p = ground arith

-- Backspace removes the byte before the cursor, and does nothing at the start of the line, unless the
-- cursor stands just behind a gap that begins the buffer.
pub key_backspace_lem :
    (gb : GapBuf)
    → IsValid gb
    → (0 < gb.gap) ⊎ (gb.point ≢ gb.egap) ⊎ (gb.gap ≡ gb.egap)
    → IsValid (key_backspace gb) × (view (key_backspace gb) ≡ backspace (view gb))
unfolding key_backspace
key_backspace_lem gb v s = elim (Bool-cases (gb_point_at_start gb)) [
  | inl e ↦
      rw e (v, sym (ap (λ b. (init b, after gb)) (at_start gb e) ∙ pair (sym (at_start gb e)) refl))
  | inr e ↦
      let m = gb_move_left_lem gb v (not_at_start gb v s e) in
      let b' = before (gb_move_left gb) in
      let c = (gb_get_prev gb).1 in
      let d = gb_del_lem (gb_move_left gb) 1 m.0 (at_least_one m.2) in
      rw e (
        d.0,
        pair d.1 (d.2 ∙ ap (drop 1) m.2)
            ∙ sym (ap (λ b. (init b, after gb)) m.1 ∙ pair (init-snoc b' c) refl),
      )
]

-- With the gap at the start of the buffer and the cursor just behind it, where no text stands before
-- the cursor, backspace removes the byte after it.
pub key_backspace_at_gap :
    (gb : GapBuf)
    → IsValid gb
    → gb.gap ≡ 0
    → gb.point ≡ gb.egap
    → 0 < gb.egap
    → gb.egap < gb.ebuf
    → (before gb ≡ []) × (view (key_backspace gb) ≡ ([], drop 1 (after gb)))
unfolding key_backspace
key_backspace_at_gap gb v z e p l =
    let nil : before gb ≡ [] = at_gap_nil gb z e in
    let m = gb_move_left_first gb v nil in
    let size : 1 ≤ length (after gb) = at_gap_size gb z e p l in
    let d = gb_del_lem (gb_move_left gb) 1 m.0 (rw m.2 size) in
    (nil, rw (not_start gb e p) (pair (d.1 ∙ m.1) (d.2 ∙ ap (drop 1) m.2)))
