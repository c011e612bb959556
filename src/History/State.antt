-- ===== src/History/State.antt =====
-- The history fields of struct cli, and its queues hd_hist and free_hist as lists.
use pktgen_dpdk.Base.{ℕ, Bool, true, false, ◌&&◌, Option, none, some, List, [], ◌∷◌, ◌==◌}

-- A line is the bytes before its 0 byte.
abbrev pub Line : Type 0
Line = List ℕ

-- struct cli_hist on the queue hd_hist; `id` stands for its address.
pub record CliHist : Type 0 where
  pub id : ℕ
  pub line : Line

-- `cli->curr_hist`: NULL, an entry, or the head of the queue taken for one.
pub data Cursor : Type 0 where
  null : Cursor
  entry : ℕ → Cursor
  head : Cursor

-- `hist_mem` is whether the pointer is not NULL. The entries on free_hist hold no line. The
-- addresses from `next_id` on were never allocated.
pub record History : Type 0 where
  pub hist_mem : Bool
  pub nb_hist : ℕ
  pub hd_hist : List CliHist
  pub free_hist : List ℕ
  pub curr_hist : Cursor
  pub next_id : ℕ

-- strcmp(a, b) == 0
unfoldable pub same_line : Line → Line → Bool
same_line [] [] = true
same_line [] (y ∷ b) = false
same_line (x ∷ a) [] = false
same_line (x ∷ a) (y ∷ b) = x == y && same_line a b

-- CIRCLEQ_FIRST and CIRCLEQ_LAST; `none` is the head of the queue.
abbrev pub first : List CliHist → Option CliHist
first [] = none
first (x ∷ l) = some x

abbrev pub last : List CliHist → Option CliHist
last [] = none
last (x ∷ []) = some x
last (x ∷ (y ∷ l)) = last (y ∷ l)
