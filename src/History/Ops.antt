-- ===== src/History/Ops.antt =====
-- The operations of lib/cli/cli_history.c. The outer `none` is an access to an entry that is not on
-- the queue, or to the head of a queue as if it were an entry.
use pktgen_dpdk.Base.{
  ℕ, zero, suc, ◌+◌, Bool, true, false, Option, none, some, List, [], ◌∷◌, ◌++◌, map, ◌==◌,
  if◌then◌else◌, get_elem?,
}
use pktgen_dpdk.History.State.{
  Line, CliHist, Cursor, null, entry, head, History, same_line, first, last,
}

unfoldable pub cli_hist_alloc : History → History × Option ℕ
cli_hist_alloc cli = alloc cli.free_hist
  where
    alloc : List ℕ → History × Option ℕ
    alloc [] = (cli, none)
    alloc (hist ∷ rest) = (record cli { free_hist = rest }, some hist)

-- The entry is off hd_hist already; its line is freed.
unfoldable pub cli_hist_free : History → ℕ → History
cli_hist_free cli hist = record cli { free_hist = cli.free_hist ++ (hist ∷ []) }

-- CIRCLEQ_INSERT_TAIL of the entry with its new line.
abbrev pub insert_tail : History → ℕ → Line → History
insert_tail cli id line = record cli {
  hd_hist = cli.hd_hist ++ (record { id = id; line = line } ∷ []);
}

-- Without a free entry the first one is used again.
unfoldable pub reuse_first : History → Line → Option History
reuse_first cli line = reuse cli.hd_hist
  where
    reuse : List CliHist → Option History
    reuse [] = none
    reuse (h ∷ rest) = some (insert_tail (record cli { hd_hist = rest }) h.id line)

abbrev pub is_last_line : Option CliHist → Line → Bool
is_last_line none line = false
is_last_line (some h) line = same_line h.line line

unfoldable pub put_line : History × Option ℕ → Line → Option History
put_line (cli, some h) line = some (insert_tail cli h line)
put_line (cli, none) line = reuse_first cli line

-- `none` is the NULL line.
unfoldable pub cli_history_add : History → Option Line → Option History
cli_history_add cli none = some cli
cli_history_add cli (some line) =
    if cli.hist_mem
    then if is_last_line (last cli.hd_hist) line
      then some cli
      else put_line (cli_hist_alloc cli) line
    else some cli

abbrev pub remove_last : List CliHist → List CliHist
remove_last [] = []
remove_last (x ∷ []) = []
remove_last (x ∷ (y ∷ l)) = x ∷ remove_last (y ∷ l)

-- The entry that leaves the queue is on no queue then.
unfoldable pub cli_history_del : History → History
cli_history_del cli = if cli.hist_mem then record cli { hd_hist = remove_last cli.hd_hist } else cli

unfoldable pub cli_history_line : History → (lineno : ℕ) → Option Line
cli_history_line cli lineno =
    if cli.hist_mem then get_elem? (map (λ h. h.line) cli.hd_hist) lineno else none

-- CIRCLEQ_LOOP_PREV of an entry that is not the first.
unfoldable pub prev_of : ℕ → List CliHist → Option CliHist
prev_of id [] = none
prev_of id (x ∷ []) = none
prev_of id (x ∷ (y ∷ l)) = let rest = prev_of id (y ∷ l) in if y.id == id then some x else rest

-- CIRCLEQ_LOOP_NEXT of an entry that is not the last.
unfoldable pub next_of : ℕ → List CliHist → Option CliHist
next_of id [] = none
next_of id (x ∷ []) = none
next_of id (x ∷ (y ∷ l)) = let rest = next_of id (y ∷ l) in if x.id == id then some y else rest

-- The cursor goes to an entry, and its line is the result.
abbrev pub go_to : History → Option CliHist → Option (History × Option Line)
go_to cli none = none
go_to cli (some h) = some (record cli { curr_hist = entry h.id }, some h.line)

abbrev pub is_at : Option CliHist → ℕ → Bool
is_at none id = false
is_at (some h) id = h.id == id

unfoldable pub step_prev : History → Cursor → Option (History × Option Line)
step_prev cli null = go_to cli (last cli.hd_hist)
step_prev cli (entry id) =
    if is_at (first cli.hd_hist) id
    then go_to cli (first cli.hd_hist)
    else go_to cli (prev_of id cli.hd_hist)
step_prev cli head = none

unfoldable pub step_next : History → Cursor → Option (History × Option Line)
step_next cli null = some (cli, none)
step_next cli (entry id) =
    if is_at (last cli.hd_hist) id then some (cli, some []) else go_to cli (next_of id cli.hd_hist)
step_next cli head = none

-- `r`, unless the list is empty.
abbrev pub unless_empty :
    History → List CliHist → Option (History × Option Line) → Option (History × Option Line)
unless_empty cli [] r = some (cli, none)
unless_empty cli (h ∷ l) r = r

abbrev pub on_lines : History → Option (History × Option Line) → Option (History × Option Line)
on_lines cli r = if cli.hist_mem then unless_empty cli cli.hd_hist r else some (cli, none)

unfoldable pub cli_history_prev : History → Option (History × Option Line)
cli_history_prev cli = on_lines cli (step_prev cli cli.curr_hist)

unfoldable pub cli_history_next : History → Option (History × Option Line)
cli_history_next cli = on_lines cli (step_next cli cli.curr_hist)

-- The entries go to free_hist, the first one first. The cursor stays.
unfoldable pub clear_from : History → List CliHist → History
clear_from cli [] = record cli { hd_hist = [] }
clear_from cli (h ∷ l) = clear_from (cli_hist_free (record cli { hd_hist = l }) h.id) l

unfoldable pub cli_history_clear : History → History
cli_history_clear cli = if cli.hist_mem then clear_from cli cli.hd_hist else cli

-- The memory is not freed, and its entries stay on free_hist.
unfoldable pub cli_history_delete : History → History
cli_history_delete cli = record (cli_history_clear cli) {
  hd_hist = [];
  hist_mem = false;
  nb_hist = 0;
}

-- The addresses of `n` new entries.
abbrev pub new_entries : (from n : ℕ) → List ℕ
new_entries from zero = []
new_entries from (suc n) = from ∷ new_entries (from + 1) n

-- `got` is whether calloc found memory. The result is 0 (true) or -1.
unfoldable pub allocate : History → (nb_hist : ℕ) → (got : Bool) → History × Bool
allocate cli nb_hist true = (
  record cli {
    nb_hist = nb_hist;
    hist_mem = true;
    free_hist = cli.free_hist ++ new_entries cli.next_id nb_hist;
    next_id = cli.next_id + nb_hist;
  },
  true,
)
allocate cli nb_hist false = (record cli { nb_hist = nb_hist; hist_mem = false }, false)

unfoldable pub cli_set_history : History → (nb_hist : ℕ) → (got : Bool) → History × Bool
cli_set_history cli nb_hist got =
    if nb_hist == 0
    then (cli_history_delete cli, true)
    else if cli.hist_mem
    then if nb_hist == cli.nb_hist
      then (cli, true)
      else allocate (cli_history_delete cli) nb_hist got
    else allocate cli nb_hist got

unfoldable pub cli_history_reset : History → History
cli_history_reset cli = record cli { curr_hist = at (first cli.hd_hist) }
  where
    at : Option CliHist → Cursor
    at none = head
    at (some h) = entry h.id
