-- ===== src/Vt100/Bounds.antt =====
-- The escape parser of lib/cli/cli_vt100.c stays inside its buffer of eight bytes.
use pktgen_dpdk.Base.{
  ℕ, ◌+◌, ◌≤◌, ◌<◌, ◌≡◌, inl, inr, refl, arith, ◌&&◌, Option, none, some, List, [], ◌∷◌, leb, ◌==◌,
  length, set, length-set, Bool-cases, ◌∙◌,
}
use pktgen_dpdk.Vt100.Parse.{
  vt100_buf_size, ParseState, state_init, state_escape, state_csi, state_done, state_continue,
  CliVt100, restart, parse_in, vt100_parse_input, vt100_setup, cli_input,
}

abbrev pub PosFits : Option ℕ → Type 0
PosFits none = 0 ≤ 0
PosFits (some pos) = pos ≤ vt100_buf_size

pub record IsBounded (vt : CliVt100) : Type 0 where
  pub pos : PosFits vt.bufpos
  pub size : length vt.buf ≡ vt100_buf_size

pub restart_lt : (p : Option ℕ) (s : ParseState) → (restart p s).1 < vt100_buf_size
restart_lt none s = omega arith
restart_lt (some pos) s = ground arith

parse_in-IsBounded :
    (s : ParseState) (buf : List ℕ) (size c : ℕ)
    → size ≤ vt100_buf_size
    → length buf ≡ vt100_buf_size
    → IsBounded (parse_in s buf size c).0
unfolding parse_in
parse_in-IsBounded state_init buf size c h l = elim (Bool-cases (c == 27)) [
  | inl e ↦ rw e (record { pos = h; size = l })
  | inr e ↦ rw e (record { pos = omega arith; size = l })
]
parse_in-IsBounded state_escape buf size c h l = elim (Bool-cases (c == 91)) [
  | inl e ↦ rw e (record { pos = h; size = l })
  | inr e ↦ elim (Bool-cases (leb 48 c && leb c 127)) [
    | inl e' ↦ rw (e, e') (record { pos = omega arith; size = l })
    | inr e' ↦ rw (e, e') (record { pos = h; size = l })
  ]
]
parse_in-IsBounded state_csi buf size c h l = elim (Bool-cases (leb 64 c && leb c 126)) [
  | inl e ↦ rw e (record { pos = omega arith; size = l })
  | inr e ↦ rw e (record { pos = h; size = l })
]
parse_in-IsBounded state_done buf size c h l = record { pos = omega arith; size = l }
parse_in-IsBounded state_continue buf size c h l = record { pos = omega arith; size = l }

-- A byte is written inside the buffer, and the parser is in bounds again, whatever the byte is.
pub vt100_parse_input-IsBounded :
    (vt : CliVt100) (c : ℕ)
    → IsBounded vt
    → ((restart vt.bufpos vt.state).1 < length vt.buf) × IsBounded (vt100_parse_input vt c).0
unfolding vt100_parse_input
vt100_parse_input-IsBounded vt c b =
    let l = restart_lt vt.bufpos vt.state in
    (
      omega (arith, l, b.size),
      parse_in-IsBounded (restart vt.bufpos vt.state).0
          (set vt.buf (restart vt.bufpos vt.state).1 c) ((restart vt.bufpos vt.state).1 + 1) c
          (omega (arith, l)) (length-set vt.buf _ c ∙ b.size),
    )

vt100_setup-IsBounded : IsBounded vt100_setup
unfolding vt100_setup
vt100_setup-IsBounded = record { pos = omega arith; size = refl }

input-IsBounded : (vt : CliVt100) (str : List ℕ) → IsBounded vt → IsBounded (cli_input vt str).0
unfolding cli_input
input-IsBounded vt [] b = b
input-IsBounded vt (c ∷ str) b =
    input-IsBounded (vt100_parse_input vt c).0 str (vt100_parse_input-IsBounded vt c b).1

-- From the parser that vt100_setup makes, any input leaves the parser in bounds.
pub cli_input-IsBounded : (str : List ℕ) → IsBounded (cli_input vt100_setup str).0
cli_input-IsBounded str = input-IsBounded vt100_setup str vt100_setup-IsBounded
