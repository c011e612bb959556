-- ===== src/Vt100/Parse.antt =====
-- The escape sequences of lib/cli/cli_vt100.c, and the input loop of lib/cli/cli_input.c.
use pktgen_dpdk.Base.{
  ℕ, zero, suc, ◌+◌, min, Bool, true, ◌&&◌, ◌||◌, Option, none, some, List, [], ◌∷◌, ◌++◌, leb,
  ◌==◌, if◌then◌else◌, length, set, replicate,
}

-- VT100_BUF_SIZE
abbrev pub vt100_buf_size : ℕ
vt100_buf_size = 8

-- enum vt100_parse_state; the code keeps the last two for the results of a byte.
pub data ParseState : Type 0 where
  state_init : ParseState
  state_escape : ParseState
  state_csi : ParseState
  state_done : ParseState
  state_continue : ParseState

-- The result of a byte: an index of the command table, VT100_DONE or VT100_CONTINUE.
pub data Parsed : Type 0 where
  found : ℕ → Parsed
  done : Parsed
  continue : Parsed

-- struct cli_vt100. The position VT100_INITIALIZE, -1, is `none`.
pub record CliVt100 : Type 0 where
  pub bufpos : Option ℕ
  pub buf : List ℕ
  pub state : ParseState

-- The byte strings of vt100_cmd_list.
abbrev pub vt100_cmd_list : List (List ℕ)
vt100_cmd_list =
    (73 ∷ 110 ∷ 118 ∷ 97 ∷ 108 ∷ 105 ∷ 100 ∷ [])
    ∷ (27 ∷ 91 ∷ 65 ∷ [])
    ∷ (27 ∷ 91 ∷ 66 ∷ [])
    ∷ (27 ∷ 91 ∷ 67 ∷ [])
    ∷ (27 ∷ 91 ∷ 68 ∷ [])
    ∷ (127 ∷ [])
    ∷ (10 ∷ [])
    ∷ (1 ∷ [])
    ∷ (5 ∷ [])
    ∷ (11 ∷ [])
    ∷ (25 ∷ [])
    ∷ (3 ∷ [])
    ∷ (6 ∷ [])
    ∷ (2 ∷ [])
    ∷ (27 ∷ 91 ∷ 51 ∷ 126 ∷ [])
    ∷ (9 ∷ [])
    ∷ (4 ∷ [])
    ∷ (12 ∷ [])
    ∷ (13 ∷ [])
    ∷ (27 ∷ 127 ∷ [])
    ∷ (27 ∷ 98 ∷ [])
    ∷ (27 ∷ 102 ∷ [])
    ∷ (23 ∷ [])
    ∷ (16 ∷ [])
    ∷ (14 ∷ [])
    ∷ (27 ∷ 100 ∷ [])
    ∷ (24 ∷ [])
    ∷ []

-- Whether strncmp returns 0. A list ends in a 0 byte.
unfoldable pub strncmp_eq : List ℕ → List ℕ → ℕ → Bool
strncmp_eq a b zero = true
strncmp_eq [] [] (suc n) = true
strncmp_eq [] (y ∷ b) (suc n) = y == 0
strncmp_eq (x ∷ a) [] (suc n) = x == 0
strncmp_eq (x ∷ a) (y ∷ b) (suc n) = x == y && (x == 0 || strncmp_eq a b n)

-- The loop of vt100_find_cmd, from the command `i` on.
unfoldable pub find_from : List (List ℕ) → (i : ℕ) → (buf : List ℕ) → (size : ℕ) → Parsed
find_from [] i buf size = done
find_from (str ∷ cmds) i buf size =
    let rest = find_from cmds (i + 1) buf size in
    let cmdlen = min (length str) vt100_buf_size in
    if size == cmdlen && strncmp_eq buf str cmdlen then found i else rest

unfoldable pub vt100_find_cmd : List ℕ → ℕ → Parsed
vt100_find_cmd buf size = find_from vt100_cmd_list 0 buf size

-- The state and the position that a byte finds.
abbrev pub restart : Option ℕ → ParseState → ParseState × ℕ
restart none s = (state_init, 0)
restart (some pos) s = if leb vt100_buf_size pos then (state_init, 0) else (s, pos)

-- The switch of vt100_parse_input, `buf` holding the byte `c` already.
unfoldable pub parse_in : ParseState → (buf : List ℕ) → (size c : ℕ) → CliVt100 × Parsed
parse_in state_init buf size c =
    if c == 27
    then (record { bufpos = some size; buf = buf; state = state_escape }, continue)
    else (record { bufpos = none; buf = buf; state = state_init }, vt100_find_cmd buf size)
parse_in state_escape buf size c =
    if c == 91
    then (record { bufpos = some size; buf = buf; state = state_csi }, continue)
    else if leb 48 c && leb c 127
    then (record { bufpos = none; buf = buf; state = state_escape }, vt100_find_cmd buf size)
    else (record { bufpos = some size; buf = buf; state = state_escape }, continue)
parse_in state_csi buf size c =
    if leb 64 c && leb c 126
    then (record { bufpos = none; buf = buf; state = state_csi }, vt100_find_cmd buf size)
    else (record { bufpos = some size; buf = buf; state = state_csi }, continue)
parse_in state_done buf size c = (record { bufpos = none; buf = buf; state = state_done }, continue)
parse_in state_continue buf size c =
    (record { bufpos = none; buf = buf; state = state_continue }, continue)

unfoldable pub vt100_parse_input : CliVt100 → ℕ → CliVt100 × Parsed
vt100_parse_input vt c =
    let (s, pos) = restart vt.bufpos vt.state in parse_in s (set vt.buf pos c) (pos + 1) c

-- calloc fills the buffer with 0.
unfoldable pub vt100_setup : CliVt100
vt100_setup = record { bufpos = none; buf = replicate vt100_buf_size 0; state = state_init }

-- What cli_input does for one byte: run a command of the table, or put a character on the line.
pub data Event : Type 0 where
  do_cmd : ℕ → Event
  display : ℕ → Event

unfoldable pub event_of : Parsed → ℕ → List Event
event_of (found zero) c = []
event_of (found (suc i)) c = do_cmd (suc i) ∷ []
event_of done c = display c ∷ []
event_of continue c = []

-- The loop of cli_input.
unfoldable pub cli_input : CliVt100 → List ℕ → CliVt100 × List Event
cli_input vt [] = (vt, [])
cli_input vt (c ∷ str) =
    let (vt', ret) = vt100_parse_input vt c in
    let (vt'', events) = cli_input vt' str in (vt'', event_of ret c ++ events)
