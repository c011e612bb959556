-- ===== src/Env/Refine.antt =====
-- What lib/cli/cli_env.c promises of its variables.
use pktgen_dpdk.Base.{
  ℕ, suc, ◌+◌, ◌-◌, ◌≡◌, ◌≢◌, refl, sym, ap, ◌∙◌, subst, Bool, true, false, Option, none, some, [],
  ◌∷◌, ◌++◌, length, length-append, Str, arith,
}
use pktgen_dpdk.Env.State.{
  EnvNode, CliEnv, find_env, update_env, remove_env, env_set, cli_env_set, cli_env_string,
  cli_env_get, cli_env_del, read_node, read_found, safe_val, new_node, with_val, with_sfunc,
  set_found, del_found,
}
use pktgen_dpdk.Env.Vars.{
  IsValid, mapped, find-update_self, find-update_other, length-update, Distinct-update,
}
use pktgen_dpdk.Env.Remove.{
  find-remove_self, find-remove_other, Distinct-remove, length-remove, find-append_self,
  find-append_other, Distinct-append,
}

abbrev pub apply_sfunc : Option (Str → Option Str) → Str → Option Str
apply_sfunc none val = some val
apply_sfunc (some f) val = f val

-- How a reader sees the value of a variable: through its function, if it has one.
pub seen : CliEnv → (var val : Str) → Option Str
seen env var val = elim (find_env env.head var) [
  | none ↦ some val
  | some n ↦ apply_sfunc n.sfunc val
]

-- A valid environment in which one variable reads as given and all others as before.
pub record Writes (env env' : CliEnv) (var : Str) (val : Option Str) : Type 0 where
  pub valid : IsValid env'
  pub reads : cli_env_get env' var ≡ val
  pub others : (w : Str) → w ≢ var → cli_env_get env' w ≡ cli_env_get env w

same_read : (n : EnvNode) → read_node n ≡ apply_sfunc n.sfunc n.val
same_read n = go n.sfunc
  where
    go :
        (f : Option (Str → Option Str))
        → elim f [ none ↦ some n.val | some g ↦ g n.val ] ≡ apply_sfunc f n.val
    go none = refl
    go (some g) = refl

update_lem :
    (env : CliEnv) (var : Str) (f : EnvNode → EnvNode) (n : EnvNode)
    → IsValid env
    → ((n : EnvNode) → (f n).var ≡ n.var)
    → find_env env.head var ≡ some n
    → Writes env (record env { head = update_env env.head var f }) var (read_node (f n))
unfolding cli_env_get
update_lem env var f n v keeps e = record {
  valid = record {
    distinct = Distinct-update f keeps env.head var v.distinct;
    counted = v.counted ∙ sym (length-update f keeps env.head var);
  };
  reads = ap read_found (find-update_self f keeps env.head var ∙ ap (mapped f) e);
  others = λ w ne. ap read_found (find-update_other f keeps env.head var w ne);
}

append_lem :
    (env : CliEnv) (n : EnvNode)
    → IsValid env
    → find_env env.head n.var ≡ none
    → Writes env (record { head = env.head ++ (n ∷ []); count = env.count + 1 }) n.var (read_node n)
unfolding cli_env_get
append_lem env n v e = record {
  valid = record {
    distinct = Distinct-append env.head n e v.distinct;
    counted = ap (λ c. c + 1) v.counted ∙ sym (length-append env.head (n ∷ []));
  };
  reads = ap read_found (find-append_self env.head n e);
  others = λ w ne. ap read_found (find-append_other env.head n w ne);
}

abbrev set_result : CliEnv → (var : Str) → (val : Option Str) → Option EnvNode → CliEnv × Bool
set_result env var val o = (set_found env var (safe_val val) o, true)

-- cli_env_set gives a variable its value, the empty one for NULL, keeps its function if it has one, and
-- keeps all other variables.
pub cli_env_set_lem :
    (env : CliEnv) (var : Str) (val : Option Str)
    → IsValid env
    → (env' : CliEnv) × (cli_env_set env (some var) val ≡ (env', true))
      × Writes env env' var (seen env var (safe_val val))
unfolding cli_env_set env_set seen
cli_env_set_lem env var val v = go (find_env env.head var) refl
  where
    go :
        (o : Option EnvNode)
        → find_env env.head var ≡ o
        → (env' : CliEnv) × (set_result env var val o ≡ (env', true))
          × Writes env env' var
              (elim o [ none ↦ some (safe_val val) | some n ↦ apply_sfunc n.sfunc (safe_val val) ])
    go none e = (
      set_found env var (safe_val val) none,
      refl,
      append_lem env (new_node var (safe_val val)) v e,
    )
    go (some n) e = (
      set_found env var (safe_val val) (some n),
      refl,
      subst (λ r. Writes env (set_found env var (safe_val val) (some n)) var r)
          (same_read (with_val (safe_val val) n))
          (update_lem env var (with_val (safe_val val)) n v (λ n. refl) e),
    )

remove_lem :
    (env : CliEnv) (var : Str) (n : EnvNode)
    → IsValid env
    → find_env env.head var ≡ some n
    → Writes env (record { head = remove_env env.head var; count = env.count - 1 }) var none
      × (suc (env.count - 1) ≡ env.count)
unfolding cli_env_get
remove_lem env var n v e =
    let fewer = length-remove env.head var n e in
    (
      record {
        valid = record {
          distinct = Distinct-remove env.head var v.distinct;
          counted =
              one_less env.count (length env.head) (length (remove_env env.head var)) v.counted
                fewer;
        };
        reads = ap read_found (find-remove_self env.head var v.distinct);
        others = λ w ne. ap read_found (find-remove_other env.head var w ne);
      },
      one_more env.count (length env.head) (length (remove_env env.head var)) v.counted fewer,
    )
  where
    one_less : (c l m : ℕ) → c ≡ l → suc m ≡ l → c - 1 ≡ m
    one_less c l m e f = omega arith

    one_more : (c l m : ℕ) → c ≡ l → suc m ≡ l → suc (c - 1) ≡ c
    one_more c l m e f = omega arith

-- cli_env_del of a variable that is there takes it out and keeps all others; of any other it fails and
-- changes nothing.
pub cli_env_del_lem :
    (env : CliEnv) (var : Str)
    → IsValid env
    → (find_env env.head var ≢ none
        → (env' : CliEnv) × (cli_env_del env var ≡ (env', true))
          × Writes env env' var none
          × (suc env'.count ≡ env.count))
      × (find_env env.head var ≡ none → cli_env_del env var ≡ (env, false))
unfolding cli_env_del
cli_env_del_lem env var v = go (find_env env.head var) refl
  where
    go :
        (o : Option EnvNode)
        → find_env env.head var ≡ o
        → (o ≢ none
            → (env' : CliEnv) × (del_found env var o ≡ (env', true))
              × Writes env env' var none
              × (suc env'.count ≡ env.count))
          × (o ≡ none → del_found env var o ≡ (env, false))
    go none e = (λ ne. absurd (ne refl), λ q. refl)
    go (some n) e =
        let (w, count) = remove_lem env var n v e in
        (
          λ ne. (record { head = remove_env env.head var; count = env.count - 1 }, refl, w, count),
          λ q. absurd cc,
        )

-- A write behind a write to the same variable.
write_twice :
    {env env1 env2 : CliEnv} {var : Str} {a b : Option Str}
    → Writes env env1 var a
    → Writes env1 env2 var b
    → Writes env env2 var b
write_twice w1 w2 = record {
  valid = w2.valid;
  reads = w2.reads;
  others = λ w ne. w2.others w ne ∙ w1.others w ne;
}

-- The function of a variable that is there.
sfunc_lem :
    (env : CliEnv) (var : Str) (sfunc : Option (Str → Option Str)) (n : EnvNode)
    → IsValid env
    → find_env env.head var ≡ some n
    → Writes env
        (record env { head = update_env env.head var (with_sfunc sfunc) })
        var
        (apply_sfunc sfunc n.val)
sfunc_lem env var sfunc n v e =
    subst (λ r. Writes env (record env { head = update_env env.head var (with_sfunc sfunc) }) var r)
      (same_read (with_sfunc sfunc n)) (update_lem env var (with_sfunc sfunc) n v (λ n. refl) e)

abbrev string_result :
    CliEnv
    → (var : Str) → Option (Str → Option Str)
    → (val : Option Str) → Option EnvNode
    → CliEnv × Bool
string_result env var sfunc val o =
    let env = set_found env var (safe_val val) o in
    (record env { head = update_env env.head var (with_sfunc sfunc) }, true)

-- cli_env_string also gives the variable the function through which it reads.
pub cli_env_string_lem :
    (env : CliEnv) (var : Str) (sfunc : Option (Str → Option Str)) (val : Option Str)
    → IsValid env
    → (env' : CliEnv) × (cli_env_string env (some var) sfunc val ≡ (env', true))
      × Writes env env' var (apply_sfunc sfunc (safe_val val))
unfolding cli_env_string env_set
cli_env_string_lem env var sfunc val v = go (find_env env.head var) refl
  where
    go :
        (o : Option EnvNode)
        → find_env env.head var ≡ o
        → (env' : CliEnv) × (string_result env var sfunc val o ≡ (env', true))
          × Writes env env' var (apply_sfunc sfunc (safe_val val))
    go none e =
        let n = new_node var (safe_val val) in
        let env1 = set_found env var (safe_val val) none in
        let w = append_lem env n v e in
        (
          record env1 { head = update_env env1.head var (with_sfunc sfunc) },
          refl,
          write_twice w (sfunc_lem env1 var sfunc n w.valid (find-append_self env.head n e)),
        )
    go (some n) e =
        let n1 = with_val (safe_val val) n in
        let env1 = set_found env var (safe_val val) (some n) in
        let w = update_lem env var (with_val (safe_val val)) n v (λ n. refl) e in
        let found =
          find-update_self (with_val (safe_val val)) (λ n. refl) env.head var
          ∙ ap (mapped (with_val (safe_val val))) e in
        (
          record env1 { head = update_env env1.head var (with_sfunc sfunc) },
          refl,
          write_twice w (sfunc_lem env1 var sfunc n1 w.valid found),
        )
