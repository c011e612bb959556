-- ===== src/History/Browse.antt =====
-- How cli_history_prev and cli_history_next of lib/cli/cli_history.c walk through the lines.
use pktgen_dpdk.Base.{
  ℕ, zero, suc, ◌-◌, ◌<◌, ◌≡◌, refl, arith, true, Option, none, some, List, [], ◌∷◌, ap, sym, subst,
  ◌∙◌, length, get_elem?, if◌then◌else◌, when, unless,
}
use pktgen_dpdk.History.State.{Line, CliHist, null, entry, History, first, last}
use pktgen_dpdk.History.Ops.{
  unless_empty, prev_of, next_of, go_to, is_at, step_prev, step_next, on_lines, cli_history_prev,
  cli_history_next,
}
use pktgen_dpdk.History.Add.{lines, ids, Distinct, OnSome}
use pktgen_dpdk.History.Positions.{
  get-map, prev_of_lem, next_of_lem, last_lem, get-lt, lt-get, some_of, first_lem, first-get,
  is_first, is_last, not_last,
}

-- The cursor stands on the entry at position `i`, or on none.
pub record IsAt (cli : History) (i : ℕ) : Type 0 where
  pub at : CliHist
  pub there : get_elem? cli.hd_hist i ≡ some at
  pub cursor : cli.curr_hist ≡ entry at.id

abbrev pub IsCursor : History → Option ℕ → Type 0
IsCursor cli none = cli.curr_hist ≡ null
IsCursor cli (some i) = IsAt cli i

-- A step back from the newest line, or to the line before; the oldest line stays.
abbrev pub back : (size : ℕ) → Option ℕ → ℕ
back size none = size - 1
back size (some zero) = 0
back size (some (suc i)) = i

-- The result of a step to position `i`: the line there, with the lines as they were.
abbrev pub Shows : History → ℕ → Option (History × Option Line) → Type 0
Shows cli i = OnSome (λ r.
    IsAt r.0 i
    × (r.1 ≡ get_elem? (lines cli) i)
    × (r.0.hd_hist ≡ cli.hd_hist)
    × (r.0.hist_mem ≡ cli.hist_mem))

-- The cursor goes to the entry at a position.
go_lem :
    (cli : History) (o : Option CliHist) (i : ℕ)
    → o ≡ get_elem? cli.hd_hist i
    → i < length cli.hd_hist
    → Shows cli i (go_to cli o)
go_lem cli none i e h = absurd (get-lt cli.hd_hist i h (sym e))
go_lem cli (some x) i e h = (
  record { at = x; there = sym e; cursor = refl },
  sym (get-map (λ h. h.line) cli.hd_hist i (sym e)),
  refl,
  refl,
)

step_prev_at :
    (cli : History) (i : ℕ) {x : CliHist}
    → Distinct (ids cli.hd_hist)
    → get_elem? cli.hd_hist i ≡ some x
    → Shows cli (back 0 (some i)) (step_prev cli (entry x.id))
unfolding step_prev
step_prev_at cli zero {x} d e =
    when (Shows cli 0) (is_at (first cli.hd_hist) x.id) _ _ (is_first cli.hd_hist e)
      (go_lem cli (first cli.hd_hist) 0 (first-get cli.hd_hist) (lt-get cli.hd_hist 0 e))
step_prev_at cli (suc i) {x} d e =
    unless (Shows cli i) (is_at (first cli.hd_hist) x.id) _ _ (first_lem cli.hd_hist i d e) (
      go_lem cli (prev_of x.id cli.hd_hist) i (prev_of_lem cli.hd_hist i d e)
        (omega (arith, lt-get cli.hd_hist (suc i) e)))

step_prev_lem :
    (cli : History) (p : Option ℕ)
    → Distinct (ids cli.hd_hist)
    → 0 < length cli.hd_hist
    → IsCursor cli p
    → Shows cli (back (length cli.hd_hist) p) (step_prev cli cli.curr_hist)
unfolding step_prev
step_prev_lem cli none d h c =
    subst (λ k. Shows cli (length cli.hd_hist - 1) (step_prev cli k)) (sym c)
      (go_lem cli (last cli.hd_hist) (length cli.hd_hist - 1) (last_lem cli.hd_hist)
        (omega (arith, h)))
step_prev_lem cli (some zero) d h c =
    subst (λ k. Shows cli 0 (step_prev cli k)) (sym c.cursor) (step_prev_at cli 0 d c.there)
step_prev_lem cli (some (suc i)) d h c =
    subst (λ k. Shows cli i (step_prev cli k)) (sym c.cursor) (step_prev_at cli (suc i) d c.there)

on_lines_lem :
    (cli : History) (P : Option (History × Option Line) → Type 0)
    (r : Option (History × Option Line))
    → cli.hist_mem ≡ true
    → 0 < length cli.hd_hist
    → P r
    → P (on_lines cli r)
on_lines_lem cli P r m h p = when P cli.hist_mem _ _ m (not_empty cli.hd_hist h)
  where
    not_empty : (l : List CliHist) → 0 < length l → P (unless_empty cli l r)
    not_empty [] h = absurd (omega (arith, h))
    not_empty (x ∷ l) h = p

-- cli_history_prev shows the newest line, then each older one, and stays at the oldest.
pub cli_history_prev_lem :
    (cli : History) (p : Option ℕ)
    → cli.hist_mem ≡ true
    → Distinct (ids cli.hd_hist)
    → 0 < length cli.hd_hist
    → IsCursor cli p
    → Shows cli (back (length cli.hd_hist) p) (cli_history_prev cli)
unfolding cli_history_prev
cli_history_prev_lem cli p m d h c =
    on_lines_lem cli (Shows cli (back (length cli.hd_hist) p)) (step_prev cli cli.curr_hist) m h
      (step_prev_lem cli p d h c)

-- A step to the line after, or the empty line behind the newest one.
abbrev pub ShowsNext : History → Option ℕ → Option (History × Option Line) → Type 0
ShowsNext cli none r = r ≡ some (cli, none)
ShowsNext cli (some i) r =
    ((suc i < length cli.hd_hist) → Shows cli (suc i) r)
    × ((suc i ≡ length cli.hd_hist) → r ≡ some (cli, some []))

step_next_lem :
    (cli : History) (p : Option ℕ)
    → Distinct (ids cli.hd_hist)
    → IsCursor cli p
    → ShowsNext cli p (step_next cli cli.curr_hist)
unfolding step_next
step_next_lem cli none d c = ap (step_next cli) c
step_next_lem cli (some i) d c = (
  λ h.
      subst (λ k. Shows cli (suc i) (step_next cli k)) (sym c.cursor)
        (unless (Shows cli (suc i)) (is_at (last cli.hd_hist) c.at.id) _ _
          (not_last cli.hd_hist i d c.there h)
          (let (y, f) = some_of (get_elem? cli.hd_hist (suc i)) (get-lt cli.hd_hist (suc i) h) in
            go_lem cli (next_of c.at.id cli.hd_hist) (suc i)
              (next_of_lem cli.hd_hist i d c.there f ∙ sym f) h)),
  λ h.
      ap (step_next cli) c.cursor
      ∙ ap (λ b. if b then some (cli, some []) else go_to cli (next_of c.at.id cli.hd_hist))
          (is_last cli.hd_hist i c.there h),
)

-- cli_history_next shows the line after the one that the cursor is at, the empty line at the newest,
-- and nothing if the cursor is at none.
pub cli_history_next_lem :
    (cli : History) (p : Option ℕ)
    → cli.hist_mem ≡ true
    → Distinct (ids cli.hd_hist)
    → 0 < length cli.hd_hist
    → IsCursor cli p
    → ShowsNext cli p (cli_history_next cli)
unfolding cli_history_next
cli_history_next_lem cli p m d h c =
    on_lines_lem cli (ShowsNext cli p) (step_next cli cli.curr_hist) m h (step_next_lem cli p d c)
