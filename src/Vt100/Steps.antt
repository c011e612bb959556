-- ===== src/Vt100/Steps.antt =====
-- How the escape parser of lib/cli/cli_vt100.c takes a byte at the start, in the middle and at the end of a
-- sequence.
use pktgen_dpdk.Base.{
  ℕ, suc, ◌+◌, ◌≤◌, ◌<◌, ◌≡◌, refl, arith, false, none, some, List, [], ◌∷◌, ◌++◌, leb, length, set,
  take, length-set, length-append, ap, ◌∙◌,
}
use pktgen_dpdk.Vt100.Parse.{
  vt100_buf_size, ParseState, state_init, Parsed, continue, CliVt100, vt100_find_cmd, restart,
  parse_in, vt100_parse_input, Event, event_of, cli_input,
}
use pktgen_dpdk.Vt100.Lookup.{command, vt100_find_cmd_lem, take-set}

-- The parser waits for the first byte of a sequence.
pub record IsIdle (vt : CliVt100) : Type 0 where
  pub no_pos : vt.bufpos ≡ none
  pub size : length vt.buf ≡ vt100_buf_size

-- The state in the middle of a sequence whose bytes so far are the first `n` of `buf`.
abbrev pub within : ParseState → (n : ℕ) → (buf : List ℕ) → CliVt100
within s n buf = record { bufpos = some n; buf = buf; state = s }

abbrev pub prepend : List Event → CliVt100 × List Event → CliVt100 × List Event
prepend es (vt, es') = (vt, es ++ es')

-- The bytes `str` are read with the events `es`, and leave the parser idle.
pub record Reads (vt : CliVt100) (str : List ℕ) (es : List Event) : Type 0 where
  pub next : CliVt100
  pub idle : IsIdle next
  pub run : (more : List ℕ) → cli_input vt (str ++ more) ≡ prepend es (cli_input next more)

pub cli_input_step :
    (vt : CliVt100) (c : ℕ) (str : List ℕ) {vt' : CliVt100} {ret : Parsed}
    → vt100_parse_input vt c ≡ (vt', ret)
    → cli_input vt (c ∷ str) ≡ prepend (event_of ret c) (cli_input vt' str)
unfolding cli_input
cli_input_step vt c str e =
    ap (λ p. ((cli_input p.0 str).0, event_of p.1 c ++ (cli_input p.0 str).1)) e

pub not_full : (n : ℕ) → n < vt100_buf_size → leb vt100_buf_size n ≡ false
not_full n h = ground arith

-- A byte in the middle of a sequence.
pub inside :
    (s : ParseState) (n : ℕ) (buf : List ℕ) (c : ℕ)
    → n < vt100_buf_size
    → vt100_parse_input (within s n buf) c ≡ parse_in s (set buf n c) (n + 1) c
unfolding vt100_parse_input
inside s n buf c h = rw (not_full n h) refl

-- The first byte of a sequence.
pub starting :
    (vt : CliVt100) (c : ℕ)
    → IsIdle vt
    → vt100_parse_input vt c ≡ parse_in state_init (set vt.buf 0 c) 1 c
unfolding vt100_parse_input
starting vt c idle =
    ap
      (λ p.
        parse_in (restart p vt.state).0 (set vt.buf (restart p vt.state).1 c)
          ((restart p vt.state).1 + 1) c)
      idle.no_pos

-- What a parser in the middle of a sequence does with the bytes to come.
pub record IsWithin (seen : List ℕ) (n : ℕ) (buf : List ℕ) : Type 0 where
  pub full : length buf ≡ vt100_buf_size
  pub count : length seen ≡ n
  pub bytes : take n buf ≡ seen

pub IsWithin-longer :
    {seen : List ℕ} {n : ℕ} {buf : List ℕ} (c : ℕ)
    → n < vt100_buf_size
    → IsWithin seen n buf
    → IsWithin (seen ++ (c ∷ [])) (n + 1) (set buf n c)
IsWithin-longer {seen} {n} {buf} c h w = record {
  full = length-set buf n c ∙ w.full;
  count = omega (arith, length-append seen (c ∷ []), w.count);
  bytes =
      (let e : n + 1 ≡ suc n = omega arith in ap (λ k. take k (set buf n c)) e)
      ∙ take-set buf n c (omega (arith, w.full))
      ∙ ap (λ l. l ++ (c ∷ [])) w.bytes;
}

-- The last byte of a sequence.
pub last_byte :
    (vt : CliVt100) (c n : ℕ) {seen buf : List ℕ} (s : ParseState)
    → IsWithin seen n buf
    → n ≤ vt100_buf_size
    → vt100_parse_input vt c
      ≡ (record { bufpos = none; buf = buf; state = s }, vt100_find_cmd buf n)
    → Reads vt (c ∷ []) (event_of (command seen) c)
last_byte vt c n {seen} {buf} s w h e =
    let f : vt100_find_cmd buf n ≡ command seen =
      vt100_find_cmd_lem buf n (omega (arith, w.full, h)) ∙ ap command w.bytes in
    record {
      next = record { bufpos = none; buf = buf; state = s };
      idle = record { no_pos = refl; size = w.full };
      run = λ more.
          cli_input_step vt c more e
          ∙ ap
              (λ r.
                prepend (event_of r c)
                  (cli_input (record { bufpos = none; buf = buf; state = s }) more))
              f;
    }

-- A byte that the parser waits behind.
pub waits :
    (vt : CliVt100) (c : ℕ) (str : List ℕ) (es : List Event) {vt' : CliVt100}
    → vt100_parse_input vt c ≡ (vt', continue)
    → Reads vt' str es
    → Reads vt (c ∷ str) es
unfolding cli_input event_of
waits vt c str es e r = record {
  next = r.next;
  idle = r.idle;
  run = λ more. cli_input_step vt c (str ++ more) e ∙ r.run more;
}

pub first_byte : (vt : CliVt100) (c : ℕ) → IsIdle vt → IsWithin (c ∷ []) 1 (set vt.buf 0 c)
first_byte vt c idle = record {
  full = length-set vt.buf 0 c ∙ idle.size;
  count = refl;
  bytes = take-set vt.buf 0 c (omega (arith, idle.size));
}
