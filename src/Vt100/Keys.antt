-- ===== src/Vt100/Keys.antt =====
-- What the escape parser of lib/cli/cli_vt100.c makes of whole key sequences.
use pktgen_dpdk.Base.{
  ℕ, ◌+◌, ◌≤◌, ◌<◌, ◌≡◌, ◌≢◌, ◌⊎◌, refl, arith, true, false, ◌&&◌, List, [], ◌∷◌, ◌++◌, leb, ne→==,
  length, set, append_assoc, ap, ◌∙◌,
}
use pktgen_dpdk.Vt100.Parse.{
  vt100_buf_size, state_init, state_escape, state_csi, CliVt100, parse_in, Event, event_of,
  cli_input,
}
use pktgen_dpdk.Vt100.Lookup.{command}
use pktgen_dpdk.Vt100.Steps.{
  IsIdle, within, Reads, inside, starting, IsWithin, IsWithin-longer, last_byte, waits, first_byte,
}

-- The first byte but ESC, the second after ESC, and the last after ESC [.
pub data KeySeq : Type 0 where
  plain : ℕ → KeySeq
  meta : ℕ → KeySeq
  csi : List ℕ → ℕ → KeySeq

abbrev pub bytes_of : KeySeq → List ℕ
bytes_of (plain c) = c ∷ []
bytes_of (meta c) = 27 ∷ (c ∷ [])
bytes_of (csi ps f) = 27 ∷ (91 ∷ (ps ++ (f ∷ [])))

abbrev pub last_of : KeySeq → ℕ
last_of (plain c) = c
last_of (meta c) = c
last_of (csi ps f) = f

-- A byte that does not end a sequence that began with ESC [.
abbrev pub AreParams : List ℕ → Type 0
AreParams [] = 0 ≤ 0
AreParams (p ∷ ps) = ((p < 64) ⊎ (126 < p)) × AreParams ps

abbrev pub IsSeq : KeySeq → Type 0
IsSeq (plain c) = c ≢ 27
IsSeq (meta c) = (c ≢ 91) × (48 ≤ c) × (c ≤ 127)
IsSeq (csi ps f) = AreParams ps × (64 ≤ f) × (f ≤ 126) × (length ps + 3 ≤ vt100_buf_size)

-- The event of a whole sequence: its command of the table, or its last byte as a character.
abbrev pub event : KeySeq → List Event
event k = event_of (command (bytes_of k)) (last_of k)

Reads-plain : (vt : CliVt100) (c : ℕ) → IsIdle vt → c ≢ 27 → Reads vt (c ∷ []) (event (plain c))
unfolding parse_in
Reads-plain vt c idle h =
    last_byte vt c 1 state_init (first_byte vt c idle) (omega arith)
      (starting vt c idle ∙ rw (ne→== c 27 h) refl)

after_esc :
    (vt : CliVt100) (str : List ℕ) {es : List Event}
    → IsIdle vt
    → Reads (within state_escape 1 (set vt.buf 0 27)) str es
    → Reads vt (27 ∷ str) es
unfolding parse_in
after_esc vt str {es} idle r = waits vt 27 str es (starting vt 27 idle) r

is_meta : (c : ℕ) → 48 ≤ c → c ≤ 127 → (leb 48 c && leb c 127) ≡ true
is_meta c l u = ground arith

Reads-meta :
    (vt : CliVt100) (c : ℕ) → IsIdle vt → IsSeq (meta c) → Reads vt (27 ∷ (c ∷ [])) (event (meta c))
unfolding parse_in
Reads-meta vt c idle h =
    let w = first_byte vt 27 idle in
    after_esc vt (c ∷ []) idle (
      last_byte _ c 2 state_escape (IsWithin-longer c (omega arith) w) (omega arith) (
        inside state_escape 1 (set vt.buf 0 27) c (omega arith)
        ∙ rw (ne→== c 91 h.0, is_meta c h.1 h.2) refl))

is_final : (f : ℕ) → 64 ≤ f → f ≤ 126 → (leb 64 f && leb f 126) ≡ true
is_final f l u = ground arith

is_param : (p : ℕ) → (p < 64) ⊎ (126 < p) → (leb 64 p && leb p 126) ≡ false
is_param p h = ground arith

Reads-params :
    (ps : List ℕ) (f n : ℕ) {seen buf : List ℕ}
    → AreParams ps
    → 64 ≤ f
    → f ≤ 126
    → n + length ps < vt100_buf_size
    → IsWithin seen n buf
    → Reads
        (within state_csi n buf)
        (ps ++ (f ∷ []))
        (event_of (command (seen ++ (ps ++ (f ∷ [])))) f)
unfolding parse_in
Reads-params [] f n {seen} {buf} a l u h w =
    last_byte _ f (n + 1) state_csi (IsWithin-longer f (omega (arith, h)) w) (omega (arith, h))
      (inside state_csi n buf f (omega (arith, h)) ∙ rw (is_final f l u) refl)
Reads-params (p ∷ ps) f n {seen} {buf} a l u h w =
    let r =
      Reads-params ps f (n + 1) a.1 l u (omega (arith, h))
        (IsWithin-longer p (omega (arith, h)) w) in
    let r' =
      waits (within state_csi n buf) p (ps ++ (f ∷ [])) _
        (inside state_csi n buf p (omega (arith, h)) ∙ rw (is_param p a.0) refl) r in
    rw (← append_assoc seen (p ∷ []) (ps ++ (f ∷ []))) r'

Reads-csi :
    (vt : CliVt100) (ps : List ℕ) (f : ℕ)
    → IsIdle vt
    → IsSeq (csi ps f)
    → Reads vt (bytes_of (csi ps f)) (event (csi ps f))
unfolding parse_in
Reads-csi vt ps f idle h =
    let w = IsWithin-longer 91 (omega arith) (first_byte vt 27 idle) in
    let r = Reads-params ps f 2 h.0 h.1 h.2 (omega (arith, h.3)) w in
    after_esc vt (91 ∷ (ps ++ (f ∷ []))) idle
      (waits _ 91 (ps ++ (f ∷ [])) _ (inside state_escape 1 (set vt.buf 0 27) 91 (omega arith)) r)

reads : (vt : CliVt100) (k : KeySeq) → IsIdle vt → IsSeq k → Reads vt (bytes_of k) (event k)
reads vt (plain c) idle h = Reads-plain vt c idle h
reads vt (meta c) idle h = Reads-meta vt c idle h
reads vt (csi ps f) idle h = Reads-csi vt ps f idle h

abbrev pub AllSeq : List KeySeq → Type 0
AllSeq [] = 0 ≤ 0
AllSeq (k ∷ ks) = IsSeq k × AllSeq ks

abbrev pub all_bytes : List KeySeq → List ℕ
all_bytes [] = []
all_bytes (k ∷ ks) = bytes_of k ++ all_bytes ks

abbrev pub all_events : List KeySeq → List Event
all_events [] = []
all_events (k ∷ ks) = event k ++ all_events ks

-- cli_input reads key sequences one after the other: the commands that it runs and the characters
-- that it displays are those of the sequences, in order, and it waits for a new sequence then. A
-- sequence is a byte but ESC, ESC with a byte from `0` to DEL but `[`, or ESC `[` with at most five
-- other bytes and a byte from `@` to `~`.
pub cli_input_lem :
    (vt : CliVt100) (ks : List KeySeq)
    → IsIdle vt
    → AllSeq ks
    → let (vt', es) = cli_input vt (all_bytes ks) in IsIdle vt' × (es ≡ all_events ks)
unfolding cli_input
cli_input_lem vt [] idle h = (idle, refl)
cli_input_lem vt (k ∷ ks) idle h =
    let r = reads vt k idle h.0 in
    let rest = cli_input_lem r.next ks r.idle h.1 in
    rw (r.run (all_bytes ks)) (rest.0, ap (λ es. event k ++ es) rest.1)
