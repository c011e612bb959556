-- ===== src/Vt100/Session.antt =====
-- Sequences of keys: the gap buffer under cli_input and vt100_do_cmd of lib/cli/cli_input.c and
-- lib/cli/cli_vt100.c, and the line that the user sees.
use pktgen_dpdk.Base.{
  ℕ, ◌+◌, ◌*◌, ◌^◌, ◌≤◌, ◌<◌, ◌≡◌, ◌≢◌, ◌⊎◌, inl, inr, refl, arith, ◌&&◌, List, [], ◌∷◌, ◌++◌, ap,
  ◌∙◌, Bool-cases, length, leb, if◌then◌else◌, ap₂,
}
use pktgen_dpdk.GapBuf.State.{GapBuf, gb_eof, gb_point_at_start, gb_set_point}
use pktgen_dpdk.GapBuf.Ops.{gb_insert, gb_move_left, gb_move_right}
use pktgen_dpdk.GapBuf.View.{IsValid, before, after}
use pktgen_dpdk.GapBuf.Edit.{gb_insert_lem, ebuf-gb_insert-le, ebuf-gb_del}
use pktgen_dpdk.Vt100.Line.{
  key_ctrl_a, key_ctrl_e, key_right_arr, key_left_arr, key_backspace, handle_input_display,
}
use pktgen_dpdk.Vt100.Zipper.{
  Zipper, view, right, left, backspace, key_right_arr_lem, key_left_arr_lem, key_backspace_lem,
}
use pktgen_dpdk.Vt100.Ends.{key_ctrl_a_lem, key_ctrl_e_lem}

pub data Key : Type 0 where
  char : ℕ → Key
  right_arr : Key
  left_arr : Key
  bs : Key
  ctrl_a : Key
  ctrl_e : Key

unfoldable pub press : GapBuf → Key → GapBuf
press gb (char c) = handle_input_display gb c
press gb right_arr = key_right_arr gb
press gb left_arr = key_left_arr gb
press gb bs = key_backspace gb
press gb ctrl_a = key_ctrl_a gb
press gb ctrl_e = key_ctrl_e gb

unfoldable pub press_all : GapBuf → List Key → GapBuf
press_all gb [] = gb
press_all gb (k ∷ ks) = press_all (press gb k) ks

-- What a key means for the text before and after the cursor.
abbrev pub edit : Zipper → Key → Zipper
edit (b, a) (char c) = if leb 32 c && leb c 126 then (b ++ (c ∷ []), a) else (b, a)
edit (b, a) right_arr = right (b, a)
edit (b, a) left_arr = left (b, a)
edit (b, a) bs = backspace (b, a)
edit (b, a) ctrl_a = ([], b ++ a)
edit (b, a) ctrl_e = (b ++ a, [])

abbrev pub edit_all : Zipper → List Key → Zipper
edit_all z [] = z
edit_all z (k ∷ ks) = edit_all (edit z k) ks

-- A backspace finds the cursor elsewhere than just behind a gap that begins the buffer.
abbrev pub IsSafe : GapBuf → Key → Type 0
IsSafe gb k = k ≡ bs → (0 < gb.gap) ⊎ (gb.point ≢ gb.egap) ⊎ (gb.gap ≡ gb.egap)

abbrev pub AllSafe : GapBuf → List Key → Type 0
AllSafe gb [] = 0 ≤ 0
AllSafe gb (k ∷ ks) = IsSafe gb k × AllSafe (press gb k) ks

ebuf-gb_move_right : (gb : GapBuf) → (gb_move_right gb).ebuf ≡ gb.ebuf
unfolding gb_move_right
ebuf-gb_move_right gb = refl

ebuf-gb_move_left : (gb : GapBuf) → (gb_move_left gb).ebuf ≡ gb.ebuf
unfolding gb_move_left
ebuf-gb_move_left gb = refl

ebuf-key_ctrl_a : (gb : GapBuf) → (key_ctrl_a gb).ebuf ≡ gb.ebuf
unfolding key_ctrl_a gb_set_point
ebuf-key_ctrl_a gb = refl

ebuf-key_ctrl_e : (gb : GapBuf) → (key_ctrl_e gb).ebuf ≡ gb.ebuf
unfolding key_ctrl_e gb_set_point
ebuf-key_ctrl_e gb = refl

ebuf-key_right_arr : (gb : GapBuf) → (key_right_arr gb).ebuf ≡ gb.ebuf
unfolding key_right_arr
ebuf-key_right_arr gb = elim (Bool-cases (gb_eof gb)) [
  | inl e ↦ rw e refl
  | inr e ↦ rw e (ebuf-gb_move_right gb)
]

ebuf-key_left_arr : (gb : GapBuf) → (key_left_arr gb).ebuf ≡ gb.ebuf
unfolding key_left_arr
ebuf-key_left_arr gb = elim (Bool-cases (gb_point_at_start gb)) [
  | inl e ↦ rw e refl
  | inr e ↦ rw e (ebuf-gb_move_left gb)
]

ebuf-key_backspace : (gb : GapBuf) → (key_backspace gb).ebuf ≡ gb.ebuf
unfolding key_backspace
ebuf-key_backspace gb = elim (Bool-cases (gb_point_at_start gb)) [
  | inl e ↦ rw e refl
  | inr e ↦ rw e (ebuf-gb_del (gb_move_left gb) 1 ∙ ebuf-gb_move_left gb)
]

char_lem :
    (gb : GapBuf) (c : ℕ)
    → IsValid gb
    → gb.ebuf + 17 < 2 ^ 32
    → let gb' = handle_input_display gb c in
      IsValid gb' × (view gb' ≡ edit (view gb) (char c)) × (gb'.ebuf ≤ gb.ebuf + 9)
unfolding handle_input_display
char_lem gb c v h = elim (Bool-cases (leb 32 c && leb c 126)) [
  | inl e ↦
      let i = gb_insert_lem gb c v h in
      rw e (
        i.0,
        (ap (λ b. (b, after (gb_insert gb c))) i.1 ∙ ap (λ a. (before gb ++ (c ∷ []), a)) i.2),
        ebuf-gb_insert-le gb c v h,
      )
  | inr e ↦ rw e (v, refl, omega arith)
]

press_lem :
    (gb : GapBuf) (k : Key)
    → IsValid gb
    → gb.ebuf + 17 < 2 ^ 32
    → IsSafe gb k
    → let gb' = press gb k in IsValid gb' × (view gb' ≡ edit (view gb) k) × (gb'.ebuf ≤ gb.ebuf + 9)
unfolding press
press_lem gb (char c) v h s = char_lem gb c v h
press_lem gb right_arr v h s =
    let r = key_right_arr_lem gb v in (r.0, r.1, omega (arith, ebuf-key_right_arr gb))
press_lem gb left_arr v h s =
    let r = key_left_arr_lem gb v in (r.0, r.1, omega (arith, ebuf-key_left_arr gb))
press_lem gb bs v h s =
    let r = key_backspace_lem gb v (s refl) in (r.0, r.1, omega (arith, ebuf-key_backspace gb))
press_lem gb ctrl_a v h s =
    let r = key_ctrl_a_lem gb v in
    (r.0, ap₂ (λ b a. (b, a)) r.1 r.2, omega (arith, ebuf-key_ctrl_a gb))
press_lem gb ctrl_e v h s =
    let r = key_ctrl_e_lem gb v in
    (r.0, ap₂ (λ b a. (b, a)) r.1 r.2, omega (arith, ebuf-key_ctrl_e gb))

-- Any sequence of keys leaves the text before and after the cursor that the keys mean, if no
-- backspace finds the cursor just behind a gap that begins the buffer, and the buffer stays small
-- enough for its 32-bit sizes.
pub press_all_lem :
    (gb : GapBuf) (ks : List Key)
    → IsValid gb
    → gb.ebuf + 9 * length ks + 17 < 2 ^ 32
    → AllSafe gb ks
    → IsValid (press_all gb ks) × (view (press_all gb ks) ≡ edit_all (view gb) ks)
unfolding press_all
press_all_lem gb [] v h s = (v, refl)
press_all_lem gb (k ∷ ks) v h s =
    let p = press_lem gb k v (omega (arith, h)) s.0 in
    let r = press_all_lem (press gb k) ks p.0 (omega (arith, h, p.2)) s.1 in
    (r.0, r.1 ∙ ap (λ z. edit_all z ks) p.1)
