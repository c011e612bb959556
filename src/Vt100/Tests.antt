-- ===== src/Vt100/Tests.antt =====
-- Runs of the keys.
use pktgen_dpdk.History.State.{Line, Cursor, History}
use pktgen_dpdk.Base.{
  true, ◌≡◌, inl, inr, refl, arith, [], ◌∷◌, none, ltb, if◌then◌else◌, ◌<◌, some,
}
use pktgen_dpdk.GapBuf.State.{GapBuf, gb_buf_size, gb_eof}
use pktgen_dpdk.GapBuf.Ops.{gb_insert, gb_putc, gb_expand_buf, gb_move_gap_to_point, gb_move_right}
use pktgen_dpdk.GapBuf.View.{IsValid, before}
use pktgen_dpdk.Vt100.Line.{
  key_right_arr, handle_input_display, key_backspace, key_ctrl_k, key_ctrl_y, held,
}
use pktgen_dpdk.Vt100.Zipper.{view, key_backspace_at_gap}
use pktgen_dpdk.Vt100.Ends.{key_ctrl_y-key_ctrl_k}
use pktgen_dpdk.Vt100.Session.{char, right_arr, bs, ctrl_a, press_all, press_all_lem, press}
use pktgen_dpdk.Vt100.Parse.{
  CliVt100, state_csi, vt100_setup, vt100_parse_input, cli_input, event_of, do_cmd, display,
}
use pktgen_dpdk.Vt100.Lookup.{command}
use pktgen_dpdk.Vt100.Steps.{IsIdle}
use pktgen_dpdk.Vt100.Keys.{plain, meta, csi, cli_input_lem}
use pktgen_dpdk.Vt100.Bounds.{IsBounded, vt100_parse_input-IsBounded}

-- "ab", three bytes of gap from offset 1 on, the cursor behind the "a".
abbrev two_letters : GapBuf
two_letters = record {
  mem = λ i. if ltb i 1 then 97 else 98;
  alloc = 5;
  ebuf = 5;
  point = 1;
  gap = 1;
  egap = 4;
}

two_letters-IsValid : IsValid two_letters
two_letters-IsValid = record {
  gap_le = omega arith;
  egap_le = omega arith;
  ebuf_le = omega arith;
  point_in = inl (omega arith);
}

press_all_example :
    let gb' = press_all two_letters (char 99 ∷ (right_arr ∷ (bs ∷ (ctrl_a ∷ [])))) in
    IsValid gb' × (view gb' ≡ ([], 97 ∷ (99 ∷ [])))
unfolding press key_right_arr key_backspace handle_input_display gb_insert gb_putc gb_expand_buf
    gb_buf_size gb_move_gap_to_point gb_move_right gb_eof
press_all_example =
    press_all_lem two_letters (char 99 ∷ (right_arr ∷ (bs ∷ (ctrl_a ∷ [])))) two_letters-IsValid
      (omega arith)
      (
        λ e. inl (omega arith),
        (λ e. inl (omega arith), (λ e. inl (omega arith), (λ e. absurd cc, omega arith))),
      )

-- The gap at the start, and the cursor just behind it.
abbrev behind_gap : GapBuf
behind_gap = record { mem = λ i. 98; alloc = 5; ebuf = 5; point = 3; gap = 0; egap = 3 }

behind_gap-IsValid : IsValid behind_gap
behind_gap-IsValid = record {
  gap_le = omega arith;
  egap_le = omega arith;
  ebuf_le = omega arith;
  point_in = inr (omega arith, omega arith);
}

key_backspace_at_gap_example :
    (before behind_gap ≡ []) × (view (key_backspace behind_gap) ≡ ([], 98 ∷ []))
key_backspace_at_gap_example =
    key_backspace_at_gap behind_gap behind_gap-IsValid refl refl (omega arith) (omega arith)

abbrev at_end : GapBuf
at_end = record { mem = λ i. 97; alloc = 5; ebuf = 5; point = 2; gap = 2; egap = 5 }

at_end-IsValid : IsValid at_end
at_end-IsValid = record {
  gap_le = omega arith;
  egap_le = omega arith;
  ebuf_le = omega arith;
  point_in = inl (omega arith);
}

key_ctrl_y-key_ctrl_k_example : key_ctrl_y (key_ctrl_k (at_end, held (97 ∷ []))) ≡ none
key_ctrl_y-key_ctrl_k_example =
    key_ctrl_y-key_ctrl_k at_end (97 ∷ []) at_end-IsValid (omega arith) refl

fresh-IsIdle : IsIdle vt100_setup
unfolding vt100_setup
fresh-IsIdle = record { no_pos = refl; size = refl }

-- "a", cursor up, Delete and Meta-b.
cli_input_lem_example :
    let (vt', es) = cli_input vt100_setup (97 ∷ 27 ∷ 91 ∷ 65 ∷ 27 ∷ 91 ∷ 51 ∷ 126 ∷ 27 ∷ 98 ∷ []) in
    IsIdle vt' × (es ≡ display 97 ∷ do_cmd 1 ∷ do_cmd 14 ∷ do_cmd 20 ∷ [])
unfolding event_of command
cli_input_lem_example =
    cli_input_lem vt100_setup (plain 97 ∷ csi [] 65 ∷ csi (51 ∷ []) 126 ∷ meta 98 ∷ []) fresh-IsIdle
      (
        (λ e. omega (arith, e)),
        (
          (omega arith, omega arith, omega arith, omega arith),
          (
            ((inl (omega arith), omega arith), omega arith, omega arith, omega arith),
            (((λ e. omega (arith, e)), omega arith, omega arith), omega arith),
          ),
        ),
      )

-- The buffer is full, and one byte more comes.
abbrev full : CliVt100
full = record {
  bufpos = some 8;
  buf = 27 ∷ 91 ∷ 49 ∷ 49 ∷ 49 ∷ 49 ∷ 49 ∷ 49 ∷ [];
  state = state_csi;
}

vt100_parse_input-IsBounded_example : (0 < 8) × IsBounded (vt100_parse_input full 65).0
vt100_parse_input-IsBounded_example =
    vt100_parse_input-IsBounded full 65 (record { pos = omega arith; size = refl })

-- The lines "a" and "bc".
abbrev two_lines : History
two_lines = record {
  hist_mem = true;
  nb_hist = 2;
  hd_hist = record { id = 0; line = 97 ∷ [] } ∷ record { id = 1; line = 98 ∷ 99 ∷ [] } ∷ [];
  free_hist = [];
  curr_hist = Cursor.null;
  next_id = 2;
}
