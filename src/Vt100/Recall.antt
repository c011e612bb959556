-- ===== src/Vt100/Recall.antt =====
-- The cursor keys up and down of lib/cli/cli_vt100.c, which bring back lines of the history, and
-- Ctrl-C.
use pktgen_dpdk.Base.{
  ℕ, ◌+◌, ◌^◌, ◌≤◌, ◌<◌, ◌≡◌, refl, arith, Option, none, some, List, [], ◌∷◌, ◌++◌, append-nil, ap,
  sym, ◌∙◌, length, take, drop, get_elem?,
}
use pktgen_dpdk.GapBuf.State.{GapBuf, gb_set_point, gb_reset_buf}
use pktgen_dpdk.GapBuf.Ops.{gb_str_insert}
use pktgen_dpdk.GapBuf.View.{IsValid, before, after, text}
use pktgen_dpdk.GapBuf.Edit.{gb_str_insert_lem}
use pktgen_dpdk.GapBuf.Point.{text-split}
use pktgen_dpdk.GapBuf.Seek.{gb_set_point_lem, gb_reset_buf_lem}
use pktgen_dpdk.History.State.{Line, History}
use pktgen_dpdk.History.Ops.{cli_history_prev, cli_history_next}
use pktgen_dpdk.History.Add.{lines}
use pktgen_dpdk.History.Browse.{IsAt}

-- The line takes the place of the text, with the cursor behind it.
unfoldable pub recall : GapBuf → Line → GapBuf
recall gb line = let (gb', n) = gb_str_insert (gb_reset_buf gb) line in gb_set_point gb' (some n)

abbrev pub recall_line : GapBuf → Option (History × Option Line) → Option (GapBuf × History)
recall_line gb none = none
recall_line gb (some (cli, none)) = some (gb, cli)
recall_line gb (some (cli, some line)) = some (recall gb line, cli)

-- The history and the buffer are fields of one struct cli. `none` is an access to an entry that is
-- not on the queue.
unfoldable pub key_up_arr : GapBuf × History → Option (GapBuf × History)
key_up_arr (gb, cli) = recall_line gb (cli_history_prev cli)

unfoldable pub key_down_arr : GapBuf × History → Option (GapBuf × History)
key_down_arr (gb, cli) = recall_line gb (cli_history_next cli)

drop-all : (l : List ℕ) → drop (length l) l ≡ []
drop-all [] = refl
drop-all (x ∷ l) = drop-all l

take-all : (l : List ℕ) → take (length l) l ≡ l
take-all [] = refl
take-all (x ∷ l) = ap (λ m. x ∷ m) (take-all l)

-- The text is the line then, whatever it was.
pub recall_lem :
    (gb : GapBuf) (line : Line)
    → IsValid gb
    → gb.ebuf + length line + 16 < 2 ^ 32
    → let gb' = recall gb line in IsValid gb' × (before gb' ≡ line) × (after gb' ≡ [])
unfolding recall
recall_lem gb line v h =
    let r = gb_reset_buf_lem gb v in
    let put = gb_str_insert (gb_reset_buf gb) line in
    let s = gb_str_insert_lem (gb_reset_buf gb) line r.0 (rw r.3 h) in
    let whole : text put.0 ≡ line =
      sym (text-split put.0 s.0)
      ∙ ap (λ b. b ++ after put.0) (s.1 ∙ ap (λ b. b ++ line) r.1)
      ∙ ap (λ a. line ++ a) (s.2 ∙ r.2)
      ∙ append-nil line in
    let p = gb_set_point_lem put.0 put.1 s.0 (omega (arith, s.3, ap length whole)) in
    (
      p.0,
      p.1 ∙ ap (take put.1) whole ∙ ap (λ n. take n line) s.3 ∙ take-all line,
      p.2 ∙ ap (drop put.1) whole ∙ ap (λ n. drop n line) s.3 ∙ drop-all line,
    )

-- The line at position `i` of the history is on the screen, with the cursor behind it.
abbrev pub Recalled : History → ℕ → Option (GapBuf × History) → Type 0
Recalled cli i none = 1 ≤ 0
Recalled cli i (some (gb, cli')) =
    IsValid gb
    × (some (before gb) ≡ get_elem? (lines cli) i)
    × (after gb ≡ [])
    × IsAt cli' i
    × (cli'.hd_hist ≡ cli.hd_hist)
