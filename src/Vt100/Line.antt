-- ===== src/Vt100/Line.antt =====
-- The keys of lib/cli/cli_vt100.c that edit the line, on the gap buffer and the kill buffer.
-- What they write to the screen, and the flags that ask for a redraw, are left out.
use pktgen_dpdk.Base.{ℕ, ◌&&◌, Option, none, some, List, [], ◌∷◌, leb, ◌==◌, if◌then◌else◌}
use pktgen_dpdk.GapBuf.State.{GapBuf, gb_eof, gb_point_at_start, gb_set_point, gb_right_data_size}
use pktgen_dpdk.GapBuf.Ops.{
  gb_move_right, gb_move_left, gb_del, gb_move_gap_to_point, gb_str_insert, gb_insert,
}
use pktgen_dpdk.GapBuf.View.{slice}

unfoldable pub key_right_arr : GapBuf → GapBuf
key_right_arr gb = if gb_eof gb then gb else gb_move_right gb

unfoldable pub key_left_arr : GapBuf → GapBuf
key_left_arr gb = if gb_point_at_start gb then gb else gb_move_left gb

unfoldable pub key_backspace : GapBuf → GapBuf
key_backspace gb = if gb_point_at_start gb then gb else gb_del (gb_move_left gb) 1

-- The same text as key_backspace, under the "super" key.
unfoldable pub key_suppr : GapBuf → GapBuf
key_suppr gb = if gb_point_at_start gb then gb else gb_del (gb_move_left gb) 1

unfoldable pub key_ctrl_a : GapBuf → GapBuf
key_ctrl_a gb = gb_set_point gb (some 0)

unfoldable pub key_ctrl_e : GapBuf → GapBuf
key_ctrl_e gb = gb_set_point gb none

-- `cli->kill`: NULL, a text of its own, or a pointer to memory that was freed.
pub data Kill : Type 0 where
  null : Kill
  held : List ℕ → Kill
  dangling : Kill

-- free(cli->kill)
abbrev pub free_kill : Kill → Kill
free_kill null = null
free_kill (held _) = dangling
free_kill dangling = dangling

-- strndup stops at the first 0 byte.
unfoldable pub until_nul : List ℕ → List ℕ
until_nul [] = []
until_nul (c ∷ cs) = let rest = until_nul cs in if c == 0 then [] else c ∷ rest

-- The kill buffer is freed first, and set only if text stands behind the point.
unfoldable pub key_ctrl_k : GapBuf × Kill → GapBuf × Kill
key_ctrl_k (gb, kill) =
    let gb' = gb_move_gap_to_point gb in
    let size = gb_right_data_size gb' in
    (
      gb_del gb' size,
      if size == 0 then free_kill kill else held (until_nul (slice gb'.mem gb'.egap size)),
    )

-- `none` is the read of freed memory.
unfoldable pub key_ctrl_y : GapBuf × Kill → Option (GapBuf × Kill)
key_ctrl_y (gb, null) = some (gb, null)
key_ctrl_y (gb, held str) = some ((gb_str_insert gb str).0, held str)
key_ctrl_y (gb, dangling) = none

-- handle_input_display of lib/cli/cli_input.c: only printable characters go to the buffer.
unfoldable pub handle_input_display : GapBuf → ℕ → GapBuf
handle_input_display gb c = if leb 32 c && leb c 126 then gb_insert gb c else gb
