-- ===== src/History/Resize.antt =====
-- cli_set_history of lib/cli/cli_history.c, and the entries that its memory loses.
use pktgen_dpdk.Base.{
  ℕ, zero, suc, ◌+◌, ◌<◌, ◌≡◌, ◌≢◌, refl, arith, Bool, true, false, List, [], ◌∷◌, ◌++◌, ap, ap₂,
  sym, subst, ◌==◌, length, length-append, ne→==, unless, when,
}
use pktgen_dpdk.History.State.{CliHist, History}
use pktgen_dpdk.History.Ops.{
  cli_hist_free, clear_from, cli_history_clear, cli_history_delete, new_entries, allocate,
  cli_set_history,
}
use pktgen_dpdk.History.Add.{ids, IsHeld, NotIn, Distinct}

length-new_entries : (i n : ℕ) → length (new_entries i n) ≡ n
length-new_entries i zero = refl
length-new_entries i (suc n) = ap suc (length-new_entries (i + 1) n)

NotIn-new : (i j n : ℕ) → i < j → NotIn i (new_entries j n)
NotIn-new i j zero h = omega arith
NotIn-new i j (suc n) h =
    ((λ e. absurd (omega (arith, e, h))), NotIn-new i (j + 1) n (omega (arith, h)))

Distinct-new : (i n : ℕ) → Distinct (new_entries i n)
Distinct-new i zero = omega arith
Distinct-new i (suc n) = (NotIn-new i (i + 1) n (omega arith), Distinct-new (i + 1) n)

-- A command line without a history gets one of as many entries as it asks for.
pub cli_set_history-IsHeld :
    (cli : History) (n : ℕ)
    → 0 < n
    → cli.hist_mem ≡ false
    → cli.hd_hist ≡ []
    → cli.free_hist ≡ []
    → let (cli', ok) = cli_set_history cli n true in IsHeld n cli' × (ok ≡ true)
unfolding cli_set_history allocate
cli_set_history-IsHeld cli n h m e f =
    let P : History × Bool → Type 0 = λ r. IsHeld n r.0 × (r.1 ≡ true) in
    let new = new_entries cli.next_id n in
    let all : ids cli.hd_hist ++ (cli.free_hist ++ new) ≡ new =
      ap₂ (λ a b. ids a ++ (b ++ new)) e f in
    unless P (n == 0) _ _ (ne→== n 0 (omega (arith, h))) (
      unless P cli.hist_mem _ _ m (
        record {
          mem = refl;
          positive = h;
          count = omega (
            arith,
            ap length e,
            ap length f,
            length-append cli.free_hist new,
            length-new_entries cli.next_id n,
          );
          distinct = subst Distinct (sym all) (Distinct-new cli.next_id n);
        },
        refl,
      ))

clear_lem :
    (l : List CliHist) (cli : History)
    → let cli' = clear_from cli l in
      (cli'.hd_hist ≡ []) × (length cli'.free_hist ≡ length cli.free_hist + length l)
unfolding clear_from cli_hist_free
clear_lem [] cli = (refl, omega arith)
clear_lem (h ∷ l) cli =
    let r = clear_lem l (cli_hist_free (record cli { hd_hist = l }) h.id) in
    (r.0, omega (arith, r.1, length-append cli.free_hist (h.id ∷ [])))

-- A history of `cap` entries that is told to keep `n` lines keeps `cap + n`: the entries of the old
-- memory stay on the free queue.
pub cli_set_history_grows :
    (cap n : ℕ) (cli : History)
    → IsHeld cap cli
    → 0 < n
    → n ≢ cli.nb_hist
    → let cli' = (cli_set_history cli n true).0 in
      (cli'.nb_hist ≡ n) × (cli'.hd_hist ≡ []) × (length cli'.free_hist ≡ cap + n)
unfolding cli_set_history allocate cli_history_delete cli_history_clear
cli_set_history_grows cap n cli h p ne =
    let P : History × Bool → Type 0 =
      λ r. (r.0.nb_hist ≡ n) × (r.0.hd_hist ≡ []) × (length r.0.free_hist ≡ cap + n) in
    let cleared =
      when (λ c. length c.free_hist ≡ cap) cli.hist_mem (clear_from cli cli.hd_hist) cli h.mem
        (omega (arith, clear_lem cli.hd_hist cli, h.count)) in
    unless P (n == 0) _ _ (ne→== n 0 (omega (arith, p))) (
      when P cli.hist_mem _ _ h.mem (
        unless P (n == cli.nb_hist) _ _ (ne→== n cli.nb_hist ne) (
          refl,
          refl,
          omega (
            arith,
            length-append (cli_history_clear cli).free_hist
                (new_entries (cli_history_clear cli).next_id n),
            length-new_entries (cli_history_clear cli).next_id n,
            cleared,
          ),
        )))
