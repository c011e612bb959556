-- ===== src/Env/Remove.antt =====
-- The removal and the appending of variables in lib/cli/cli_env.c.
use pktgen_dpdk.Base.{
  suc, ◌≡◌, ◌≢◌, refl, sym, ap, ◌∙◌, subst, inl, inr, Bool-cases, none, some, List, [], ◌∷◌, ◌++◌,
  taken, skipped, length, Str, same_str, same_str_refl, same_str_lem,
}
use pktgen_dpdk.Env.State.{EnvNode, find_env, remove_env}
use pktgen_dpdk.Env.Vars.{
  Distinct, no_nodes, one_node, not_same, find_first, find_later, find_absent,
}

pub find-remove_self :
    (head : List EnvNode) (var : Str) → Distinct head → find_env (remove_env head var) var ≡ none
unfolding find_env remove_env
find-remove_self [] var d = refl
find-remove_self (n ∷ head) var (one_node n' head' e d) = elim (Bool-cases (same_str var n.var)) [
  | inl t ↦
      ap (λ l. find_env l var) (taken (same_str var n.var) head (n ∷ remove_env head var) t)
      ∙ subst (λ u. find_env head u ≡ none) (sym (same_str_lem var n.var t)) e
  | inr t ↦
      ap (λ l. find_env l var) (skipped (same_str var n.var) head (n ∷ remove_env head var) t)
      ∙ find_later n (remove_env head var) var t
      ∙ find-remove_self head var d
]

pub find-remove_other :
    (head : List EnvNode) (var w : Str)
    → w ≢ var
    → find_env (remove_env head var) w ≡ find_env head w
unfolding remove_env
find-remove_other [] var w ne = refl
find-remove_other (n ∷ head) var w ne = elim (Bool-cases (same_str var n.var)) [
  | inl t ↦
      ap (λ l. find_env l w) (taken (same_str var n.var) head (n ∷ remove_env head var) t)
      ∙ sym (find_later n head w (not_same w n.var (λ q. ne (q ∙ sym (same_str_lem var n.var t)))))
  | inr t ↦
      ap (λ l. find_env l w) (skipped (same_str var n.var) head (n ∷ remove_env head var) t)
      ∙ elim (Bool-cases (same_str w n.var)) [
        | inl s ↦ find_first n (remove_env head var) w s ∙ sym (find_first n head w s)
        | inr s ↦
            find_later n (remove_env head var) w s
            ∙ find-remove_other head var w ne
            ∙ sym (find_later n head w s)
      ]
]

-- What is not there is not there after a removal.
absent_after :
    (head : List EnvNode) (var w : Str)
    → find_env head w ≡ none
    → find_env (remove_env head var) w ≡ none
unfolding remove_env
absent_after [] var w e = e
absent_after (n ∷ head) var w e =
    let (s, rest) = find_absent n head w e in
    elim (Bool-cases (same_str var n.var)) [
      | inl t ↦
          ap (λ l. find_env l w) (taken (same_str var n.var) head (n ∷ remove_env head var) t)
          ∙ rest
      | inr t ↦
          ap (λ l. find_env l w) (skipped (same_str var n.var) head (n ∷ remove_env head var) t)
          ∙ find_later n (remove_env head var) w s
          ∙ absent_after head var w rest
    ]

pub Distinct-remove :
    (head : List EnvNode) (var : Str) → Distinct head → Distinct (remove_env head var)
unfolding remove_env
Distinct-remove [] var d = d
Distinct-remove (n ∷ head) var (one_node n' head' e d) = elim (Bool-cases (same_str var n.var)) [
  | inl t ↦ subst Distinct (sym (taken (same_str var n.var) head (n ∷ remove_env head var) t)) d
  | inr t ↦ subst Distinct (sym (skipped (same_str var n.var) head (n ∷ remove_env head var) t)) (
      one_node n (remove_env head var) (absent_after head var n.var e) (Distinct-remove head var d))
]

pub length-remove :
    (head : List EnvNode) (var : Str) (n : EnvNode)
    → find_env head var ≡ some n
    → suc (length (remove_env head var)) ≡ length head
unfolding find_env remove_env
length-remove [] var n e = absurd cc
length-remove (m ∷ head) var n e = elim (Bool-cases (same_str var m.var)) [
  | inl t ↦ ap (λ l. suc (length l)) (taken (same_str var m.var) head (m ∷ remove_env head var) t)
  | inr t ↦
      ap (λ l. suc (length l)) (skipped (same_str var m.var) head (m ∷ remove_env head var) t)
      ∙ ap suc (length-remove head var n (sym (find_later m head var t) ∙ e))
]

-- A new node at the tail.
pub find-append_self :
    (head : List EnvNode) (n : EnvNode)
    → find_env head n.var ≡ none
    → find_env (head ++ (n ∷ [])) n.var ≡ some n
find-append_self [] n e = find_first n [] n.var (same_str_refl n.var)
find-append_self (m ∷ head) n e =
    let (s, rest) = find_absent m head n.var e in
    find_later m (head ++ (n ∷ [])) n.var s ∙ find-append_self head n rest

pub find-append_other :
    (head : List EnvNode) (n : EnvNode) (w : Str)
    → w ≢ n.var
    → find_env (head ++ (n ∷ [])) w ≡ find_env head w
find-append_other [] n w ne = find_later n [] w (not_same w n.var ne)
find-append_other (m ∷ head) n w ne = elim (Bool-cases (same_str w m.var)) [
  | inl s ↦ find_first m (head ++ (n ∷ [])) w s ∙ sym (find_first m head w s)
  | inr s ↦
      find_later m (head ++ (n ∷ [])) w s
      ∙ find-append_other head n w ne
      ∙ sym (find_later m head w s)
]

pub Distinct-append :
    (head : List EnvNode) (n : EnvNode)
    → find_env head n.var ≡ none
    → Distinct head
    → Distinct (head ++ (n ∷ []))
Distinct-append [] n e d = one_node n [] e no_nodes
Distinct-append (m ∷ head) n e (one_node m' head' f d) =
    let (s, rest) = find_absent m head n.var e in
    one_node m (head ++ (n ∷ []))
      (find-append_other head n m.var (λ q. cc (s, ap (same_str n.var) q, same_str_refl n.var)) ∙ f)
      (Distinct-append head n rest d)
