-- ===== src/GapBuf/Edit.antt =====
-- Inserting and deleting: what they do to the text before and after the point.
use pktgen_dpdk.Base.{
  zero, suc, inr, Bool-cases, if◌then◌else◌, refl, sym, false, ap, ap₂, ◌∙◌, inl, ℕ, ◌+◌, ◌-◌, ◌^◌,
  ◌≤◌, ◌<◌, ◌≡◌, arith, List, [], ◌∷◌, ◌++◌, drop, length, append-nil, append_assoc, ◌==◌, ltb,
}
use pktgen_dpdk.GapBuf.State.{GapBuf, store, gb_gap_size}
use pktgen_dpdk.GapBuf.Ops.{
  gb_move_gap_to_point, gb_expand_gap, gb_putc, gb_put_all, gb_insert, gb_del, gb_str_insert,
}
use pktgen_dpdk.GapBuf.View.{
  slice, IsValid, before, after, slice-add, slice-memmove, slice-memmove_out, slice-store_out,
  length-slice,
}
use pktgen_dpdk.GapBuf.Move.{IsOpen, gb_move_gap_to_point-IsOpen}

-- What an editor sees of a buffer whose gap stands at the point.
pub IsOpen-view :
    {gb : GapBuf} {b a : List ℕ} → IsOpen gb b a → IsValid gb × (before gb ≡ b) × (after gb ≡ a)
IsOpen-view {gb} o = ground arith

-- The gap at the point is moved nowhere.
move_open : (gb : GapBuf) → gb.point ≡ gb.gap → gb_move_gap_to_point gb ≡ gb
unfolding gb_move_gap_to_point
move_open gb e = ground arith

pub gb_expand_gap-IsOpen :
    (gb : GapBuf) (size : ℕ) {b a : List ℕ}
    → IsOpen gb b a
    → gb.ebuf + size + 16 < 2 ^ 32
    → let gb' = gb_expand_gap gb size in
      IsOpen gb' b a × (size ≤ gb'.egap - gb'.gap) × (gb'.ebuf ≤ gb.ebuf + size + 8)
unfolding gb_expand_gap
gb_expand_gap-IsOpen gb size o h = ground (
  arith,
  slice-memmove mem (egap + (size + 8)) egap (ebuf - egap),
  slice-memmove_out mem (egap + (size + 8)) egap (ebuf - egap) 0 gap,
  sizes gb.ebuf gb.egap size,
)
  where
    open gb use {mem, point, gap, egap, ebuf}

    sizes : (ebuf egap size : ℕ) → ebuf + (size + 8) - (egap + (size + 8)) ≡ ebuf - egap
    sizes ebuf egap size = omega arith

stored : (mem : ℕ → ℕ) (j c : ℕ) → store mem j c j ≡ c
unfolding store
stored mem j c = ground arith

stored_left :
    (mem : ℕ → ℕ) (gap c : ℕ) → slice (store mem gap c) 0 (gap + 1) ≡ slice mem 0 gap ++ (c ∷ [])
stored_left mem gap c =
    slice-add (store mem gap c) 0 gap 1
    ∙ ap₂ ◌++◌ (slice-store_out mem gap c 0 gap (inl (omega arith)))
        (ap (λ k. store mem gap c k ∷ []) (omega arith) ∙ ap (λ x. x ∷ []) (stored mem gap c))

pub gb_putc-IsOpen :
    (gb : GapBuf) (c : ℕ) {b a : List ℕ}
    → IsOpen gb b a
    → gb.gap < gb.egap
    → let gb' = gb_putc gb c in
      IsOpen gb' (b ++ (c ∷ [])) a
      × (gb'.gap ≡ gb.gap + 1)
      × (gb'.egap ≡ gb.egap)
      × (gb'.ebuf ≡ gb.ebuf)
unfolding gb_putc
gb_putc-IsOpen gb c o h =
    rw (move_open gb o.at_gap)
      (ground (arith, stored_left mem gap c, slice-store_out mem gap c egap (ebuf - egap)))
  where
    open gb use {mem, gap, egap, ebuf}

pub ebuf-gb_move_gap_to_point : (gb : GapBuf) → (gb_move_gap_to_point gb).ebuf ≡ gb.ebuf
unfolding gb_move_gap_to_point
ebuf-gb_move_gap_to_point gb = ground arith

-- Moving the gap only where it stands elsewhere is the same as moving it.
guarded_move :
    (gb : GapBuf)
    → (if gb.point == gb.gap then gb else gb_move_gap_to_point gb) ≡ gb_move_gap_to_point gb
guarded_move gb = ground (arith, move_open gb)

room :
    (gb : GapBuf) {b a : List ℕ}
    → IsOpen gb b a
    → gb.ebuf + 17 < 2 ^ 32
    → let gb' = if gb.gap == gb.egap then gb_expand_gap gb 1 else gb in
      IsOpen gb' b a × (gb'.gap < gb'.egap) × (gb'.ebuf ≤ gb.ebuf + 9)
room gb o h = elim (Bool-cases (gb.gap == gb.egap)) [
  | inl e ↦
      let x = gb_expand_gap-IsOpen gb 1 o (omega arith) in
      rw e (x.0, omega (arith, x), omega (arith, x))
  | inr e ↦ rw e (o, ground (arith, o.gap_le), omega arith)
]

inserted :
    (gb : GapBuf) (c : ℕ)
    → IsValid gb
    → gb.ebuf + 17 < 2 ^ 32
    → IsOpen (gb_insert gb c) (before gb ++ (c ∷ [])) (after gb)
      × ((gb_insert gb c).ebuf ≤ gb.ebuf + 9)
unfolding gb_insert
inserted gb c v h =
    let m = gb_move_gap_to_point-IsOpen gb v in
    let e = ebuf-gb_move_gap_to_point gb in
    rw (guarded_move gb) (
      let r = room (gb_move_gap_to_point gb) m (rw e h) in
      let p = gb_putc-IsOpen _ c r.0 r.1 in (p.0, omega (arith, p, r.2, e)))

-- gb_insert puts the byte before the point, which moves over it; the rest of the text and the
-- invariant are kept, with or without room in the gap.
pub gb_insert_lem :
    (gb : GapBuf) (c : ℕ)
    → IsValid gb
    → gb.ebuf + 17 < 2 ^ 32
    → let gb' = gb_insert gb c in
      IsValid gb' × (before gb' ≡ before gb ++ (c ∷ [])) × (after gb' ≡ after gb)
gb_insert_lem gb c v h = IsOpen-view (inserted gb c v h).0

-- It grows the buffer by at most 9 bytes.
pub ebuf-gb_insert-le :
    (gb : GapBuf) (c : ℕ) → IsValid gb → gb.ebuf + 17 < 2 ^ 32 → (gb_insert gb c).ebuf ≤ gb.ebuf + 9
ebuf-gb_insert-le gb c v h = (inserted gb c v h).1

pub slice-drop : (mem : ℕ → ℕ) (i n k : ℕ) → drop k (slice mem i n) ≡ slice mem (i + k) (n - k)
slice-drop mem i zero zero = refl
slice-drop mem i zero (suc k) = let e : 0 ≡ 0 - suc k = omega arith in ap (slice mem (i + suc k)) e
slice-drop mem i (suc n) zero =
    let e : i ≡ i + 0 = omega arith in
    let e' : suc n ≡ suc n - 0 = omega arith in ap₂ (slice mem) e e'
slice-drop mem i (suc n) (suc k) =
    let e : i + 1 + k ≡ i + suc k = omega arith in
    let e' : n - k ≡ suc n - suc k = omega arith in
    slice-drop mem (i + 1) n k ∙ ap₂ (slice mem) e e'

deleted :
    (gb : GapBuf) (cnt : ℕ) {b a : List ℕ}
    → IsOpen gb b a
    → cnt ≤ length a
    → IsOpen (record gb { egap = gb.egap + cnt }) b (drop cnt a)
deleted gb cnt {b} {a} o h =
    let size = length-slice gb.mem gb.egap (gb.ebuf - gb.egap) in
    let size' = ap length o.right in
    record {
      gap_le = omega (arith, o.gap_le);
      egap_le = omega (arith, o.egap_le, size, size', h);
      ebuf_le = o.ebuf_le;
      at_gap = o.at_gap;
      left = o.left;
      right =
          ap (slice gb.mem (gb.egap + cnt)) (omega arith)
          ∙ sym (slice-drop gb.mem gb.egap (gb.ebuf - gb.egap) cnt)
          ∙ ap (drop cnt) o.right;
    }

-- gb_del removes the bytes from the point on, as many as it is told, if the text has them.
pub gb_del_lem :
    (gb : GapBuf) (cnt : ℕ)
    → IsValid gb
    → cnt ≤ length (after gb)
    → let gb' = gb_del gb cnt in
      IsValid gb' × (before gb' ≡ before gb) × (after gb' ≡ drop cnt (after gb))
unfolding gb_del
gb_del_lem gb cnt v h =
    let m = gb_move_gap_to_point-IsOpen gb v in
    rw (guarded_move gb) (IsOpen-view (deleted (gb_move_gap_to_point gb) cnt m h))

put_all-IsOpen :
    (str : List ℕ) (gb : GapBuf) {b a : List ℕ}
    → IsOpen gb b a
    → length str ≤ gb.egap - gb.gap
    → IsOpen (gb_put_all gb str) (b ++ str) a
unfolding gb_put_all
put_all-IsOpen [] gb {b} o h = rw append-nil o
put_all-IsOpen (c ∷ str) gb {b} o h =
    let p = gb_putc-IsOpen gb c o (omega arith) in
    rw (← append_assoc b (c ∷ []) str) (put_all-IsOpen str (gb_putc gb c) p.0 (omega (arith, p)))

enough : (gb : GapBuf) (size : ℕ) → ltb (gb_gap_size gb) size ≡ false → size ≤ gb.egap - gb.gap
unfolding gb_gap_size
enough gb size e = ground arith

room_for :
    (gb : GapBuf) (size : ℕ) {b a : List ℕ}
    → IsOpen gb b a
    → gb.ebuf + size + 16 < 2 ^ 32
    → let gb' = if ltb (gb_gap_size gb) size then gb_expand_gap gb size else gb in
      IsOpen gb' b a × (size ≤ gb'.egap - gb'.gap)
room_for gb size o h = elim (Bool-cases (ltb (gb_gap_size gb) size)) [
  | inl e ↦ let x = gb_expand_gap-IsOpen gb size o h in rw e (x.0, x.1)
  | inr e ↦ rw e (o, enough gb size e)
]

-- gb_str_insert puts the whole string before the point, in order, and returns its length.
pub gb_str_insert_lem :
    (gb : GapBuf) (str : List ℕ)
    → IsValid gb
    → gb.ebuf + length str + 16 < 2 ^ 32
    → let (gb', n) = gb_str_insert gb str in
      IsValid gb' × (before gb' ≡ before gb ++ str) × (after gb' ≡ after gb) × (n ≡ length str)
unfolding gb_str_insert
gb_str_insert_lem gb [] v h = (v, rw append-nil, refl, refl)
gb_str_insert_lem gb (c ∷ str) v h =
    let m = gb_move_gap_to_point-IsOpen gb v in
    let r =
      room_for (gb_move_gap_to_point gb) (length (c ∷ str)) m
        (rw (ebuf-gb_move_gap_to_point gb) h) in
    let w = IsOpen-view (put_all-IsOpen (c ∷ str) _ r.0 r.1) in (w.0, w.1, w.2, refl)

pub ebuf-gb_del : (gb : GapBuf) (cnt : ℕ) → (gb_del gb cnt).ebuf ≡ gb.ebuf
unfolding gb_del
ebuf-gb_del gb cnt = rw (guarded_move gb) (ebuf-gb_move_gap_to_point gb)
