-- ===== src/Env/Tests.antt =====
-- Runs of lib/cli/cli_env.c.
use pktgen_dpdk.Base.{◌-◌, ◌≡◌, refl, true, none, some, [], ◌∷◌, take, Str, same_str, arith}
use pktgen_dpdk.Env.State.{
  CliEnv, cli_env_set, cli_env_get, cli_env_substitution, find_env, substitute, variable, closing,
  strchr, safe_val, cli_env_get_all, get_all,
}
use pktgen_dpdk.Env.Vars.{no_nodes, one_node, IsValid}
use pktgen_dpdk.Env.Refine.{Writes, seen, cli_env_set_lem}
use pktgen_dpdk.Env.Expand.{Expands}
use pktgen_dpdk.Env.Substitute.{cli_env_substitution_lem}

-- One variable: "a" with the value "12".
abbrev one_var : CliEnv
one_var = record {
  head = record { var = 97 ∷ []; val = 49 ∷ 50 ∷ []; sfunc = none } ∷ [];
  count = 1;
}

one_var-IsValid : IsValid one_var
unfolding find_env
one_var-IsValid = record { distinct = one_node _ [] refl no_nodes; counted = refl }

cli_env_set_lem_example :
    (env' : CliEnv) × (cli_env_set one_var (some (98 ∷ [])) none ≡ (env', true))
    × Writes one_var env' (98 ∷ []) (seen one_var (98 ∷ []) (safe_val none))
cli_env_set_lem_example = cli_env_set_lem one_var (98 ∷ []) none one_var-IsValid

-- "x${a}y$(b)" in a buffer of 16 bytes.
abbrev line : Str
line = 120 ∷ 36 ∷ 123 ∷ 97 ∷ 125 ∷ 121 ∷ 36 ∷ 40 ∷ 98 ∷ 41 ∷ []

substituted :
    cli_env_substitution one_var line 16 ≡ 120 ∷ 49 ∷ 50 ∷ 121 ∷ 111 ∷ 111 ∷ 112 ∷ 115 ∷ 33 ∷ []
unfolding cli_env_substitution substitute variable closing strchr cli_env_get find_env same_str
substituted = refl

-- The loop stops where the buffer ends.
cut_short : cli_env_substitution one_var line 6 ≡ 120 ∷ 49 ∷ 50 ∷ 121 ∷ []
unfolding cli_env_substitution substitute variable closing strchr cli_env_get find_env same_str
cut_short = refl

-- With room for no node the loop of cli_env_get_all still writes every node.
no_limit : cli_env_get_all one_var 0 ≡ one_var.head
unfolding cli_env_get_all get_all
no_limit = refl

cli_env_substitution_lem_example :
    (t : Str) × Expands one_var line t × (cli_env_substitution one_var line 16 ≡ take (16 - 1) t)
cli_env_substitution_lem_example = cli_env_substitution_lem one_var line 16 (omega arith)
