-- ===== src/Env/Vars.antt =====
-- The variables of lib/cli/cli_env.c as a map from names to values.
use pktgen_dpdk.Base.{
  same_str_refl, found_none, ◌≢◌, Bool-cases, taken, skipped, suc, ◌≡◌, ◌≢◌, refl, sym, ap, ◌∙◌,
  subst, inl, inr, true, false, Bool-cases, Option, none, some, List, [], ◌∷◌, taken, skipped,
  length, Str, same_str, same_str_refl, same_str_lem,
}
use pktgen_dpdk.Env.State.{EnvNode, CliEnv, find_env, update_env}

-- No variable stands twice in the queue.
pub data Distinct : List EnvNode → Type 0 where
  no_nodes : Distinct []
  one_node :
      (n : EnvNode) (head : List EnvNode)
      → find_env head n.var ≡ none
      → Distinct head
      → Distinct (n ∷ head)

pub record IsValid (env : CliEnv) : Type 0 where
  pub distinct : Distinct env.head
  pub counted : env.count ≡ length env.head

abbrev pub mapped : (EnvNode → EnvNode) → Option EnvNode → Option EnvNode
mapped f none = none
mapped f (some n) = some (f n)

pub not_same : (a b : Str) → a ≢ b → same_str a b ≡ false
not_same a b ne = elim (Bool-cases (same_str a b)) [
  | inl e ↦ absurd (ne (same_str_lem a b e))
  | inr e ↦ e
]

-- The first node, whether or not it has the variable.
pub find_first :
    (n : EnvNode) (head : List EnvNode) (w : Str)
    → same_str w n.var ≡ true
    → find_env (n ∷ head) w ≡ some n
unfolding find_env
find_first n head w e = taken (same_str w n.var) (some n) (find_env head w) e

pub find_later :
    (n : EnvNode) (head : List EnvNode) (w : Str)
    → same_str w n.var ≡ false
    → find_env (n ∷ head) w ≡ find_env head w
unfolding find_env
find_later n head w e = skipped (same_str w n.var) (some n) (find_env head w) e

pub find_absent :
    (n : EnvNode) (head : List EnvNode) (w : Str)
    → find_env (n ∷ head) w ≡ none
    → (same_str w n.var ≡ false) × (find_env head w ≡ none)
unfolding find_env
find_absent n head w e = found_none (same_str w n.var) n (find_env head w) e

module _ (f : EnvNode → EnvNode) (keeps : (n : EnvNode) → (f n).var ≡ n.var) where
  pub find-update_self :
      (head : List EnvNode) (var : Str)
      → find_env (update_env head var f) var ≡ mapped f (find_env head var)
  unfolding find_env update_env
  find-update_self [] var = refl
  find-update_self (n ∷ head) var = elim (Bool-cases (same_str var n.var)) [
    | inl e ↦
        ap (λ l. find_env l var)
          (taken (same_str var n.var) (f n ∷ head) (n ∷ update_env head var f) e)
        ∙ find_first (f n) head var (ap (same_str var) (keeps n) ∙ e)
        ∙ sym (ap (mapped f) (find_first n head var e))
    | inr e ↦
        ap (λ l. find_env l var)
          (skipped (same_str var n.var) (f n ∷ head) (n ∷ update_env head var f) e)
        ∙ find_later n (update_env head var f) var e
        ∙ find-update_self head var
        ∙ sym (ap (mapped f) (find_later n head var e))
  ]

  pub find-update_other :
      (head : List EnvNode) (var w : Str)
      → w ≢ var
      → find_env (update_env head var f) w ≡ find_env head w
  unfolding update_env
  find-update_other [] var w ne = refl
  find-update_other (n ∷ head) var w ne = elim (Bool-cases (same_str var n.var)) [
    | inl e ↦
        let other = not_same w n.var (λ q. ne (q ∙ sym (same_str_lem var n.var e))) in
        ap (λ l. find_env l w)
          (taken (same_str var n.var) (f n ∷ head) (n ∷ update_env head var f) e)
        ∙ find_later (f n) head w (ap (same_str w) (keeps n) ∙ other)
        ∙ sym (find_later n head w other)
    | inr e ↦
        ap (λ l. find_env l w)
          (skipped (same_str var n.var) (f n ∷ head) (n ∷ update_env head var f) e)
        ∙ elim (Bool-cases (same_str w n.var)) [
          | inl t ↦ find_first n (update_env head var f) w t ∙ sym (find_first n head w t)
          | inr t ↦
              find_later n (update_env head var f) w t
              ∙ find-update_other head var w ne
              ∙ sym (find_later n head w t)
        ]
  ]

  pub length-update :
      (head : List EnvNode) (var : Str) → length (update_env head var f) ≡ length head
  unfolding update_env
  length-update [] var = refl
  length-update (n ∷ head) var = elim (Bool-cases (same_str var n.var)) [
    | inl e ↦ ap length (taken (same_str var n.var) (f n ∷ head) (n ∷ update_env head var f) e)
    | inr e ↦
        ap length (skipped (same_str var n.var) (f n ∷ head) (n ∷ update_env head var f) e)
        ∙ ap suc (length-update head var)
  ]

  still_none :
      (head : List EnvNode) (var w : Str)
      → find_env head w ≡ none
      → find_env (update_env head var f) w ≡ none
  still_none head var w e = elim (Bool-cases (same_str w var)) [
    | inl t ↦
        subst (λ u. find_env (update_env head u f) w ≡ none) (same_str_lem w var t)
          (find-update_self head w ∙ ap (mapped f) e)
    | inr t ↦ find-update_other head var w (λ q. cc (t, ap (same_str w) q, same_str_refl w)) ∙ e
  ]

  pub Distinct-update :
      (head : List EnvNode) (var : Str) → Distinct head → Distinct (update_env head var f)
  unfolding update_env
  Distinct-update [] var d = d
  Distinct-update (n ∷ head) var (one_node n' head' e d) = elim (Bool-cases (same_str var n.var)) [
    | inl t ↦
        subst Distinct (sym (taken (same_str var n.var) (f n ∷ head) (n ∷ update_env head var f) t))
          (one_node (f n) head (ap (find_env head) (keeps n) ∙ e) d)
    | inr t ↦
        subst Distinct
          (sym (skipped (same_str var n.var) (f n ∷ head) (n ∷ update_env head var f) t))
          (one_node n (update_env head var f) (still_none head var n.var e)
            (Distinct-update head var d))
  ]
