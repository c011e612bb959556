-- ===== src/History/Add.antt =====
-- What cli_history_add and cli_history_del of lib/cli/cli_history.c keep.
use pktgen_dpdk.Base.{
  ℕ, suc, ◌+◌, ◌-◌, ◌≤◌, ◌<◌, ◌≡◌, ◌≢◌, inl, inr, refl, arith, Bool, true, false, Option, none,
  some, List, [], ◌∷◌, ◌++◌, map, append-nil, append_assoc, ap, sym, ◌∙◌, Bool-cases, length, drop,
  length-append, length-map, if◌then◌else◌, when, unless,
}
use pktgen_dpdk.History.State.{Line, CliHist, Cursor, History, same_line, last}
use pktgen_dpdk.History.Ops.{cli_hist_alloc, reuse_first, is_last_line, put_line, cli_history_add}

-- The lines of the history, the oldest first.
abbrev lines_of : List CliHist → List Line
lines_of l = map (λ h. h.line) l

abbrev pub lines : History → List Line
lines cli = lines_of cli.hd_hist

abbrev pub ids : List CliHist → List ℕ
ids l = map (λ h. h.id) l

abbrev pub NotIn : ℕ → List ℕ → Type 0
NotIn i [] = 0 ≤ 0
NotIn i (j ∷ l) = (i ≢ j) × NotIn i l

abbrev pub Distinct : List ℕ → Type 0
Distinct [] = 0 ≤ 0
Distinct (i ∷ l) = NotIn i l × Distinct l

-- A history of `cap` entries: each is on one of the two queues, once.
pub record IsHeld (cap : ℕ) (cli : History) : Type 0 where
  pub mem : cli.hist_mem ≡ true
  pub positive : 0 < cap
  pub count : length cli.hd_hist + length cli.free_hist ≡ cap
  pub distinct : Distinct (ids cli.hd_hist ++ cli.free_hist)

-- What a history of `cap` lines keeps of a new one: the last `cap` lines, and nothing new if the
-- line repeats the last one.
abbrev pub last_line : List Line → Option Line
last_line [] = none
last_line (x ∷ []) = some x
last_line (x ∷ (y ∷ l)) = last_line (y ∷ l)

abbrev pub repeats : Option Line → Line → Bool
repeats none line = false
repeats (some l) line = same_line l line

abbrev pub newest : {A : Type 0} → ℕ → List A → List A
newest cap l = drop (length l - cap) l

abbrev pub remember : ℕ → Line → List Line → List Line
remember cap line ls = if repeats (last_line ls) line then ls else newest cap (ls ++ (line ∷ []))

abbrev pub OnSome : {A : Type 0} → (A → Type 0) → Option A → Type 0
OnSome P none = 1 ≤ 0
OnSome P (some x) = P x

NotIn-append : (i : ℕ) (l m : List ℕ) → NotIn i l → NotIn i m → NotIn i (l ++ m)
NotIn-append i [] m h k = k
NotIn-append i (x ∷ l) m h k = (h.0, NotIn-append i l m h.1 k)

Distinct-rotate : (l : List ℕ) (i : ℕ) → NotIn i l → Distinct l → Distinct (l ++ (i ∷ []))
Distinct-rotate [] i h k = (omega arith, omega arith)
Distinct-rotate (x ∷ l) i h k =
    (NotIn-append x l (i ∷ []) k.0 ((λ e. h.0 (sym e)), omega arith), Distinct-rotate l i h.1 k.1)

map_append : {A B : Type 0} → (f : A → B) (l m : List A) → map f (l ++ m) ≡ map f l ++ map f m
map_append f [] m = refl
map_append f (x ∷ l) m = ap (λ r. f x ∷ r) (map_append f l m)

last_lem :
    (l : List CliHist) (line : Line)
    → is_last_line (last l) line ≡ repeats (last_line (map (λ h. h.line) l)) line
last_lem [] line = refl
last_lem (x ∷ []) line = refl
last_lem (x ∷ (y ∷ l)) line = last_lem (y ∷ l) line

newest_short : {A : Type 0} → (cap : ℕ) (l : List A) → length l ≤ cap → newest cap l ≡ l
newest_short cap l h = let e : length l - cap ≡ 0 = omega (arith, h) in ap (λ n. drop n l) e

newest_drop :
    {A : Type 0} → (cap : ℕ) (x : A) (l : List A) → length l ≡ cap → newest cap (x ∷ l) ≡ l
newest_drop cap x l h =
    let e : suc (length l) - cap ≡ 1 = omega (arith, h) in ap (λ n. drop n (x ∷ l)) e

abbrev pub fields : Bool → ℕ → List CliHist → List ℕ → Cursor → ℕ → History
fields mem nb hd free curr next = record {
  hist_mem = mem;
  nb_hist = nb;
  hd_hist = hd;
  free_hist = free;
  curr_hist = curr;
  next_id = next;
}

-- A new line goes to the tail, on a free entry or else on the first.
put_at :
    (cap : ℕ) (mem : Bool) (nb : ℕ) (hd : List CliHist) (free : List ℕ) (curr : Cursor) (next : ℕ)
    (line : Line)
    → let cli = fields mem nb hd free curr next in
      IsHeld cap cli
      → OnSome
          (λ h. IsHeld cap h × (lines h ≡ newest cap (lines cli ++ (line ∷ []))))
          (put_line (cli_hist_alloc cli) line)
unfolding put_line cli_hist_alloc reuse_first
put_at cap mem nb [] [] curr next line h = absurd (omega (arith, h.count, h.positive))
put_at cap mem nb (x ∷ l) [] curr next line h =
    let e : CliHist = record { id = x.id; line = line } in
    let moved : ids (l ++ (e ∷ [])) ++ [] ≡ ids l ++ (x.id ∷ []) =
      append-nil (ids (l ++ (e ∷ []))) ∙ map_append (λ h. h.id) l (e ∷ []) in
    let d : Distinct (x.id ∷ ids l) = rw (sym (append-nil (ids l))) h.distinct in
    let size : length (lines_of l ++ (line ∷ [])) ≡ cap =
      omega (arith, length-append (lines_of l) (line ∷ []), length-map l (λ h. h.line), h.count) in
    (
      record {
        mem = h.mem;
        positive = h.positive;
        count = omega (arith, length-append l (e ∷ []), h.count);
        distinct = rw moved (Distinct-rotate (ids l) x.id d.0 d.1);
      },
      map_append (λ h. h.line) l (e ∷ [])
          ∙ sym (newest_drop cap x.line (lines_of l ++ (line ∷ [])) size),
    )
put_at cap mem nb hd (i ∷ rest) curr next line h =
    let e : CliHist = record { id = i; line = line } in
    let moved : ids (hd ++ (e ∷ [])) ++ rest ≡ ids hd ++ (i ∷ rest) =
      ap (λ l. l ++ rest) (map_append (λ h. h.id) hd (e ∷ []))
      ∙ append_assoc (ids hd) (i ∷ []) rest in
    let size : length (lines_of hd ++ (line ∷ [])) ≤ cap =
      omega
        (arith, length-append (lines_of hd) (line ∷ []), length-map hd (λ h. h.line), h.count) in
    (
      record {
        mem = h.mem;
        positive = h.positive;
        count = omega (arith, length-append hd (e ∷ []), h.count);
        distinct = rw moved h.distinct;
      },
      map_append (λ h. h.line) hd (e ∷ [])
          ∙ sym (newest_short cap (lines_of hd ++ (line ∷ [])) size),
    )

put_lem :
    (cap : ℕ) (cli : History) (line : Line)
    → IsHeld cap cli
    → OnSome
        (λ h. IsHeld cap h × (lines h ≡ newest cap (lines cli ++ (line ∷ []))))
        (put_line (cli_hist_alloc cli) line)
put_lem cap cli line h =
    put_at cap cli.hist_mem cli.nb_hist cli.hd_hist cli.free_hist cli.curr_hist cli.next_id line h

-- cli_history_add keeps the last `cap` lines, without one that repeats the last line, and keeps
-- every entry of the history on one queue.
pub cli_history_add_lem :
    (cap : ℕ) (cli : History) (line : Line)
    → IsHeld cap cli
    → OnSome
        (λ h. IsHeld cap h × (lines h ≡ remember cap line (lines cli)))
        (cli_history_add cli (some line))
unfolding cli_history_add
cli_history_add_lem cap cli line h =
    let Kept : Option History → Type 0 =
      OnSome (λ h'. IsHeld cap h' × (lines h' ≡ remember cap line (lines cli))) in
    when Kept cli.hist_mem _ _ h.mem (elim (Bool-cases (repeats (last_line (lines cli)) line)) [
      | inl e ↦ when Kept _ _ _ (last_lem cli.hd_hist line ∙ e) (h, rw e refl)
      | inr e ↦ unless Kept _ _ _ (last_lem cli.hd_hist line ∙ e) (rw e (put_lem cap cli line h))
    ])
