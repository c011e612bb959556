-- ===== src/History/Tests.antt =====
-- Runs of the history.
use pktgen_dpdk.Base.{◌≡◌, refl, arith, [], ◌∷◌, some, none, true, false, length}
use pktgen_dpdk.History.State.{null, entry, History, same_line}
use pktgen_dpdk.History.Ops.{cli_history_add, cli_set_history}
use pktgen_dpdk.History.Add.{IsHeld, OnSome, lines, cli_history_add_lem}
use pktgen_dpdk.History.Resize.{cli_set_history_grows}
use pktgen_dpdk.History.Alias.{alias_runs, alias_runs_lem, Total}

-- The lines "a" and "b" of at most two.
abbrev two_lines : History
two_lines = record {
  hist_mem = true;
  nb_hist = 2;
  hd_hist = record { id = 0; line = 97 ∷ [] } ∷ record { id = 1; line = 98 ∷ [] } ∷ [];
  free_hist = [];
  curr_hist = null;
  next_id = 2;
}

two_lines-IsHeld : IsHeld 2 two_lines
two_lines-IsHeld = record {
  mem = refl;
  positive = omega arith;
  count = refl;
  distinct = (((λ e. absurd cc), omega arith), (omega arith, omega arith));
}

cli_history_add_lem_example :
    OnSome
      (λ h. IsHeld 2 h × (lines h ≡ (98 ∷ []) ∷ (99 ∷ []) ∷ []))
      (cli_history_add two_lines (some (99 ∷ [])))
unfolding same_line
cli_history_add_lem_example = cli_history_add_lem 2 two_lines (99 ∷ []) two_lines-IsHeld

abbrev at_oldest : History
at_oldest = record two_lines { curr_hist = entry 0 }

abbrev no_history : History
no_history = record {
  hist_mem = false;
  nb_hist = 0;
  hd_hist = [];
  free_hist = [];
  curr_hist = null;
  next_id = 0;
}

cli_set_history_grows_example :
    let cli' = (cli_set_history two_lines 1 true).0 in
    (cli'.nb_hist ≡ 1) × (cli'.hd_hist ≡ []) × (length cli'.free_hist ≡ 3)
cli_set_history_grows_example =
    cli_set_history_grows 2 1 two_lines two_lines-IsHeld (omega arith) (λ e. absurd cc)

alias_runs_lem_example :
    ((cli' : History) × (alias_runs (some two_lines) ((99 ∷ [], 100 ∷ []) ∷ []) ≡ some cli')
      × Total 1 cli')
    × (alias_runs (some two_lines) ((99 ∷ [], 100 ∷ []) ∷ (99 ∷ [], 100 ∷ []) ∷ []) ≡ none)
alias_runs_lem_example =
    alias_runs_lem two_lines ((99 ∷ [], 100 ∷ []) ∷ []) [] (99 ∷ [], 100 ∷ [])
      (record { mem = refl; count = refl })
