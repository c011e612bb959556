-- ===== src/Env/State.antt =====
-- lib/cli/cli_env.h and the functions of lib/cli/cli_env.c. Allocations succeed.
use pktgen_dpdk.Base.{
  ℕ, zero, suc, ◌+◌, ◌-◌, Bool, true, false, Option, none, some, List, [], ◌∷◌, ◌++◌, ltb, leb,
  ◌==◌, if◌then◌else◌, length, take, drop, Str, same_str,
}

-- `sfunc` computes the value that a reader gets from the stored one, or NULL; `none` is NULL.
pub record EnvNode : Type 0 where
  pub var : Str
  pub val : Str
  pub sfunc : Option (Str → Option Str)

-- The queue as a list, from its head. `count` stays below 2^31.
pub record CliEnv : Type 0 where
  pub head : List EnvNode
  pub count : ℕ

unfoldable pub cli_env_create : CliEnv
cli_env_create = record { head = []; count = 0 }

-- The loop of cli_env_destroy: it frees the first node until there is none.
unfoldable pub cli_env_destroy : List EnvNode → (count : ℕ) → CliEnv
cli_env_destroy [] count = record { head = []; count = count }
cli_env_destroy (n ∷ head) count = cli_env_destroy head (count - 1)

unfoldable pub find_env : List EnvNode → (var : Str) → Option EnvNode
find_env [] var = none
find_env (n ∷ head) var =
    let rest = find_env head var in if same_str var n.var then some n else rest

-- A write to the node that find_env finds.
unfoldable pub update_env : List EnvNode → (var : Str) → (EnvNode → EnvNode) → List EnvNode
update_env [] var f = []
update_env (n ∷ head) var f =
    let rest = update_env head var f in if same_str var n.var then f n ∷ head else n ∷ rest

-- TAILQ_REMOVE of the node that find_env finds.
unfoldable pub remove_env : List EnvNode → (var : Str) → List EnvNode
remove_env [] var = []
remove_env (n ∷ head) var =
    let rest = remove_env head var in if same_str var n.var then head else n ∷ rest

abbrev pub safe_val : Option Str → Str
safe_val none = []
safe_val (some val) = val

abbrev pub new_node : (var val : Str) → EnvNode
new_node var val = record { var = var; val = val; sfunc = none }

abbrev pub with_val : Str → EnvNode → EnvNode
with_val val n = record n { val = val }

abbrev pub set_found : CliEnv → (var val : Str) → Option EnvNode → CliEnv
set_found env var val none = record {
  head = env.head ++ (new_node var val ∷ []);
  count = env.count + 1;
}
set_found env var val (some n) = record env { head = update_env env.head var (with_val val) }

-- The environment after the call. It succeeds where the variable is not NULL.
unfoldable pub env_set : CliEnv → (var : Str) → (val : Option Str) → CliEnv
env_set env var val = set_found env var (safe_val val) (find_env env.head var)

-- The environment and whether the call returned 0.
unfoldable pub cli_env_set : CliEnv → (var val : Option Str) → CliEnv × Bool
cli_env_set env none val = (env, false)
cli_env_set env (some var) val = (env_set env var val, true)

abbrev pub with_sfunc : Option (Str → Option Str) → EnvNode → EnvNode
with_sfunc sfunc n = record n { sfunc = sfunc }

unfoldable pub cli_env_string :
    CliEnv
    → (var : Option Str) → (sfunc : Option (Str → Option Str)) → (val : Option Str) → CliEnv × Bool
cli_env_string env none sfunc val = (env, false)
cli_env_string env (some var) sfunc val =
    let env = env_set env var val in
    (record env { head = update_env env.head var (with_sfunc sfunc) }, true)

-- What a reader gets of a node.
abbrev pub read_node : EnvNode → Option Str
read_node n = elim n.sfunc [ none ↦ some n.val | some f ↦ f n.val ]

abbrev pub read_found : Option EnvNode → Option Str
read_found none = none
read_found (some n) = read_node n

unfoldable pub cli_env_get : CliEnv → (var : Str) → Option Str
cli_env_get env var = read_found (find_env env.head var)

abbrev pub del_found : CliEnv → (var : Str) → Option EnvNode → CliEnv × Bool
del_found env var none = (env, false)
del_found env var (some n) =
    (record { head = remove_env env.head var; count = env.count - 1 }, true)

unfoldable pub cli_env_del : CliEnv → (var : Str) → CliEnv × Bool
cli_env_del env var = del_found env var (find_env env.head var)

unfoldable pub cli_env_count : CliEnv → ℕ
cli_env_count env = env.count

-- The loop of cli_env_get_all behind `n` nodes.
unfoldable pub get_all : List EnvNode → (n max_size : ℕ) → List EnvNode
get_all [] n max_size = []
get_all (node ∷ head) n max_size =
    let rest = get_all head (n + 1) max_size in if n + 1 == max_size then node ∷ [] else node ∷ rest

unfoldable pub cli_env_get_all : CliEnv → (max_size : ℕ) → List EnvNode
cli_env_get_all env max_size = get_all env.head 0 max_size

abbrev pub further : Option ℕ → Option ℕ
further none = none
further (some n) = some (suc n)

-- The distance to a byte; `none` where strchr returns NULL.
unfoldable pub strchr : Str → (c : ℕ) → Option ℕ
strchr [] c = none
strchr (x ∷ s) c = if x == c then some 0 else further (strchr s c)

-- The bracket that closes the one at the start of a text.
unfoldable pub closing : Str → Option ℕ
closing [] = none
closing (b ∷ s) = if b == 123 then some 125 else if b == 40 then some 41 else none

abbrev pub find_closing : Str → Option ℕ → Option ℕ
find_closing s none = none
find_closing s (some c) = strchr s c

-- The distance from a `$` to the bracket that closes its variable, if it starts one. `s` is the text
-- behind the byte `c`.
unfoldable pub variable : (c : ℕ) (s : Str) → Option ℕ
variable c s = if c == 36 then find_closing s (closing s) else none

-- The value of a variable, or "oops!".
abbrev pub or_oops : Option Str → Str
or_oops none = 111 ∷ 111 ∷ 112 ∷ 115 ∷ 33 ∷ []
or_oops (some v) = v

-- The loop of cli_env_substitution: `i` is the index of the text in the line, `skip` the bytes up to the
-- closing bracket that `p` was moved to, and `remaining` the bytes left in `tmp`. The result is what it
-- writes to `tmp`.
unfoldable pub substitute : CliEnv → (sz i remaining skip : ℕ) → Str → Str
substitute env sz i remaining skip [] = []
substitute env sz i remaining (suc skip) (c ∷ s) = substitute env sz (i + 1) remaining skip s
substitute env sz i remaining zero (c ∷ s) = if leb sz i then [] else elim (variable c s) [
  | none ↦ if leb remaining 1 then [] else c ∷ substitute env sz (i + 1) (remaining - 1) zero s
  | some n ↦
      let v = or_oops (cli_env_get env (take (n - 1) (drop 1 s))) in
      let v' = if ltb 1 remaining then take (remaining - 1) v else [] in
      v' ++ substitute env sz (i + 1) (remaining - length v') (suc n) s
]

-- The line after the call; `sz` is the size of its buffer.
unfoldable pub cli_env_substitution : CliEnv → (line : Str) → (sz : ℕ) → Str
cli_env_substitution env line sz =
    if sz == 0 then line else take (sz - 1) (substitute env sz 0 sz 0 line)
