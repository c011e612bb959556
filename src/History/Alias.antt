-- ===== src/History/Alias.antt =====
-- What the history of lib/cli/cli_history.c loses when cli_execute of lib/cli/cli.c runs an alias.
use pktgen_dpdk.Base.{
  ℕ, suc, ◌+◌, ◌<◌, ◌≡◌, refl, arith, Bool, true, Option, none, some, List, [], ◌∷◌, ◌++◌, subst,
  length, length-append, ◌-◌, Bool-cases, inl, inr, when, unless,
}
use pktgen_dpdk.History.State.{Line, CliHist, Cursor, History, last}
use pktgen_dpdk.History.Ops.{
  is_last_line, cli_hist_alloc, put_line, reuse_first, cli_history_add, cli_history_del,
  remove_last,
}
use pktgen_dpdk.History.Add.{fields, OnSome}

-- How many entries are on the two queues.
pub record Total (n : ℕ) (cli : History) : Type 0 where
  pub mem : cli.hist_mem ≡ true
  pub count : length cli.hd_hist + length cli.free_hist ≡ n

-- The calls that cli_execute makes for an alias: its line is added and deleted again, then the
-- line that it stands for is added.
abbrev pub then_add : Option History → Line → Option History
then_add none line = none
then_add (some cli) line = cli_history_add cli (some line)

abbrev pub then_del : Option History → Option History
then_del none = none
then_del (some cli) = some (cli_history_del cli)

unfoldable pub alias_run : History → Line → Line → Option History
alias_run cli name line = then_add (then_del (cli_history_add cli (some name))) line

unfoldable pub alias_runs : Option History → List (Line × Line) → Option History
alias_runs cli [] = cli
alias_runs none (run ∷ runs) = none
alias_runs (some cli) (run ∷ runs) = alias_runs (alias_run cli run.0 run.1) runs

Kept : ℕ → History → Type 0
Kept n cli = Total n cli × (0 < length cli.hd_hist)

put-Total :
    (n : ℕ) (mem : Bool) (nb : ℕ) (hd : List CliHist) (free : List ℕ) (curr : Cursor) (next : ℕ)
    (line : Line)
    → 0 < n
    → Total n (fields mem nb hd free curr next)
    → OnSome (Kept n) (put_line (cli_hist_alloc (fields mem nb hd free curr next)) line)
unfolding put_line cli_hist_alloc reuse_first Kept
put-Total n mem nb [] [] curr next line p h = absurd (omega (arith, h.count, p))
put-Total n mem nb (x ∷ l) [] curr next line p h =
    let size = length-append l (record { id = x.id; line = line } ∷ []) in
    (record { mem = h.mem; count = omega (arith, size, h.count) }, omega (arith, size))
put-Total n mem nb hd (i ∷ rest) curr next line p h =
    let size = length-append hd (record { id = i; line = line } ∷ []) in
    (record { mem = h.mem; count = omega (arith, size, h.count) }, omega (arith, size))

repeat_size : (l : List CliHist) (line : Line) → is_last_line (last l) line ≡ true → 0 < length l
repeat_size [] line e = absurd cc
repeat_size (x ∷ l) line e = omega arith

add-Total :
    (n : ℕ) (cli : History) (line : Line)
    → 0 < n
    → Total n cli
    → OnSome (Kept n) (cli_history_add cli (some line))
unfolding cli_history_add Kept
add-Total n cli line p h =
    when (OnSome (Kept n)) cli.hist_mem _ _ h.mem
      (elim (Bool-cases (is_last_line (last cli.hd_hist) line)) [
        | inl e ↦ when (OnSome (Kept n)) _ _ _ e (h, repeat_size cli.hd_hist line e)
        | inr e ↦ unless (OnSome (Kept n)) _ _ _ e (
            put-Total n cli.hist_mem cli.nb_hist cli.hd_hist cli.free_hist cli.curr_hist cli.next_id
              line p h)
      ])

length-remove_last : (l : List CliHist) → length (remove_last l) ≡ length l - 1
length-remove_last [] = refl
length-remove_last (x ∷ []) = refl
length-remove_last (x ∷ (y ∷ l)) = omega (arith, length-remove_last (y ∷ l))

del-Total : (n : ℕ) (cli : History) → Kept (suc n) cli → Total n (cli_history_del cli)
unfolding cli_history_del Kept
del-Total n cli h = when (Total n) cli.hist_mem _ _ h.0.mem (record {
  mem = h.0.mem;
  count = omega (arith, length-remove_last cli.hd_hist, h.0.count, h.1);
})

empty_at :
    (mem : Bool) (nb : ℕ) (hd : List CliHist) (free : List ℕ) (curr : Cursor) (next : ℕ)
    (line : Line)
    → length hd + length free ≡ 0
    → put_line (cli_hist_alloc (fields mem nb hd free curr next)) line ≡ none
unfolding put_line cli_hist_alloc reuse_first
empty_at mem nb [] [] curr next line h = refl
empty_at mem nb (x ∷ hd) [] curr next line h = absurd (omega (arith, h))
empty_at mem nb hd (i ∷ rest) curr next line h = absurd (omega (arith, h))

empty_add : (cli : History) (line : Line) → Total 0 cli → cli_history_add cli (some line) ≡ none
unfolding cli_history_add
empty_add cli line h =
    let P : Option History → Type 0 = λ r. r ≡ none in
    when P cli.hist_mem _ _ h.mem (elim (Bool-cases (is_last_line (last cli.hd_hist) line)) [
      | inl e ↦ absurd (omega (arith, repeat_size cli.hd_hist line e, h.count))
      | inr e ↦ unless P _ _ _ e (
          empty_at cli.hist_mem cli.nb_hist cli.hd_hist cli.free_hist cli.curr_hist cli.next_id line
            h.count)
    ])

on_some :
    {P Q : History → Type 0} (o : Option History)
    → ((cli : History) → P cli → Q cli)
    → OnSome P o
    → OnSome Q o
on_some none f p = p
on_some (some cli) f p = f cli p

Kept-Total : (n : ℕ) (cli : History) → Kept n cli → Total n cli
unfolding Kept
Kept-Total n cli k = k.0

run-Total :
    (n : ℕ) (cli : History) (name line : Line)
    → Total (suc n) cli
    → (0 < n → OnSome (Total n) (alias_run cli name line))
      × (n ≡ 0 → alias_run cli name line ≡ none)
unfolding alias_run
run-Total n cli name line h =
    go (cli_history_add cli (some name)) (add-Total (suc n) cli name (omega arith) h)
  where
    go :
        (o : Option History)
        → OnSome (Kept (suc n)) o
        → (0 < n → OnSome (Total n) (then_add (then_del o) line))
          × (n ≡ 0 → then_add (then_del o) line ≡ none)
    go none k = absurd (omega (arith, k))
    go (some cli') k =
        let cli'' = cli_history_del cli' in
        let d = del-Total n cli' k in
        (
          λ p.
              on_some (cli_history_add cli'' (some line)) (Kept-Total n)
                (add-Total n cli'' line p d),
          λ e. empty_add cli'' line (subst (λ m. Total m cli'') e d),
        )

runs_lem :
    (runs : List (Line × Line)) (o : Option History)
    → 0 < length runs
    → OnSome (Total (length runs)) o
    → alias_runs o runs ≡ none
unfolding alias_runs
runs_lem [] o p h = absurd (omega (arith, p))
runs_lem (run ∷ runs) none p h = refl
runs_lem (run ∷ []) (some cli) p h = (run-Total 0 cli run.0 run.1 h).1 refl
runs_lem (run ∷ (run' ∷ runs)) (some cli) p h =
    runs_lem (run' ∷ runs) (alias_run cli run.0 run.1) (omega arith)
      ((run-Total (suc (length runs)) cli run.0 run.1 h).0 (omega arith))

-- Each run but the last leaves one entry less.
kept_lem :
    (runs : List (Line × Line)) (n : ℕ) (o : Option History)
    → OnSome (Total (length runs + suc n)) o
    → (cli' : History) × (alias_runs o runs ≡ some cli') × Total (suc n) cli'
unfolding alias_runs
kept_lem [] n none h = absurd (omega (arith, h))
kept_lem [] n (some cli) h = (cli, refl, subst (λ m. Total m cli) (zero_plus (suc n)) h)
  where
    zero_plus : (n : ℕ) → 0 + n ≡ n
    zero_plus n = omega arith
kept_lem (run ∷ runs) n none h = absurd (omega (arith, h))
kept_lem (run ∷ runs) n (some cli) h = kept_lem runs n (alias_run cli run.0 run.1) (
    (run-Total (length runs + suc n) cli run.0 run.1
        (subst (λ m. Total m cli) (one_out (length runs) n) h)).0
      (some_left (length runs) n))
  where
    one_out : (l n : ℕ) → suc l + suc n ≡ suc (l + suc n)
    one_out l n = omega arith

    some_left : (l n : ℕ) → 0 < l + suc n
    some_left l n = omega arith

-- A history of a queue with memory loses one entry with each alias that runs, as long as one is left,
-- and the run behind as many as leave one entry puts a line on the head of the empty queue.
pub alias_runs_lem :
    (cli : History) (before after : List (Line × Line)) (run : Line × Line)
    → Total (suc (length before + length after)) cli
    → ((cli' : History) × (alias_runs (some cli) before ≡ some cli')
        × Total (suc (length after)) cli')
      × (alias_runs (some cli) (before ++ (after ++ (run ∷ []))) ≡ none)
alias_runs_lem cli before after run h = (
  kept_lem before (length after) (some cli)
      (subst (λ m. Total m cli) (regroup (length before) (length after)) h),
  runs_lem (before ++ (after ++ (run ∷ []))) (some cli) (subst (λ m. 0 < m) size (omega arith))
      (subst (λ m. Total m cli) size h),
)
  where
    regroup : (a b : ℕ) → suc (a + b) ≡ a + suc b
    regroup a b = omega arith

    one_more : (a b c d : ℕ) → c ≡ a + d → d ≡ b + 1 → suc (a + b) ≡ c
    one_more a b c d e f = omega arith

    size : suc (length before + length after) ≡ length (before ++ (after ++ (run ∷ [])))
    size =
        one_more (length before) (length after) _ _ (length-append before (after ++ (run ∷ [])))
          (length-append after (run ∷ []))
