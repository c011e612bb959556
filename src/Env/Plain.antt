-- ===== src/Env/Plain.antt =====
-- The bytes of a line of lib/cli/cli_env.c that start no variable.
use pktgen_dpdk.Base.{
  ℕ, ◌≡◌, refl, sym, ap, ◌∙◌, subst, inl, inr, Bool, true, false, Bool-cases, Option, none, some,
  [], ◌∷◌, taken, skipped, ◌==◌, ==_iff, if◌then◌else◌, Str,
}
use pktgen_dpdk.Env.State.{strchr, further, variable, closing, find_closing}
use pktgen_dpdk.Env.Expand.{
  Without, without_all, without_one, IsPlain, no_dollar, at_end, no_bracket, open_brace, open_paren,
}

strchr-Without : (c : ℕ) (s : Str) → Without c s → strchr s c ≡ none
unfolding strchr
strchr-Without c [] w = refl
strchr-Without c (x ∷ s) (without_one x' s' e w) =
    skipped (x == c) (some 0) (further (strchr s c)) e ∙ ap further (strchr-Without c s w)

further-none : (o : Option ℕ) → further o ≡ none → o ≡ none
further-none none e = refl
further-none (some n) e = absurd cc

Without-strchr : (c : ℕ) (s : Str) → strchr s c ≡ none → Without c s
unfolding strchr
Without-strchr c [] e = without_all
Without-strchr c (x ∷ s) e = elim (Bool-cases (x == c)) [
  | inl t ↦ absurd (cc (sym (taken (x == c) (some 0) (further (strchr s c)) t) ∙ e))
  | inr t ↦ without_one x s t (
      Without-strchr c s
        (further-none (strchr s c) (sym (skipped (x == c) (some 0) (further (strchr s c)) t) ∙ e)))
]

either_way : (b : Bool) (o : Option ℕ) → o ≡ none → (if b then o else none) ≡ none
either_way true o e = e
either_way false o e = refl

pub variable-IsPlain : (c : ℕ) (s : Str) → IsPlain c s → variable c s ≡ none
unfolding variable closing strchr
variable-IsPlain c s (no_dollar c' s' e) = skipped (c == 36) _ _ e
variable-IsPlain c s (at_end c') = either_way (c == 36) none refl
variable-IsPlain c s (no_bracket c' b s' e f) =
    either_way (c == 36) _
      (ap (find_closing (b ∷ s')) (skipped (b == 123) _ _ e ∙ skipped (b == 40) _ _ f))
variable-IsPlain c s (open_brace c' s' w) =
    either_way (c == 36) _ (ap further (strchr-Without 125 s' w))
variable-IsPlain c s (open_paren c' s' w) =
    either_way (c == 36) _ (ap further (strchr-Without 41 s' w))

bracket_cases :
    (c b : ℕ) (s : Str) → find_closing (b ∷ s) (closing (b ∷ s)) ≡ none → IsPlain c (b ∷ s)
unfolding closing strchr
bracket_cases c b s e = elim (Bool-cases (b == 123)) [
  | inl t ↦
      let at = (==_iff b 123).0 t in
      subst (λ b. IsPlain c (b ∷ s)) (sym at)
        (open_brace c s (
          Without-strchr 125 s (
            further-none (strchr s 125)
              (subst (λ b. find_closing (b ∷ s) (closing (b ∷ s)) ≡ none) at e))))
  | inr t ↦ elim (Bool-cases (b == 40)) [
    | inl u ↦
        let at = (==_iff b 40).0 u in
        subst (λ b. IsPlain c (b ∷ s)) (sym at)
          (open_paren c s (
            Without-strchr 41 s (
              further-none (strchr s 41)
                (subst (λ b. find_closing (b ∷ s) (closing (b ∷ s)) ≡ none) at e))))
    | inr u ↦ no_bracket c b s t u
  ]
]

pub IsPlain-variable : (c : ℕ) (s : Str) → variable c s ≡ none → IsPlain c s
unfolding variable
IsPlain-variable c [] e = at_end c
IsPlain-variable c (b ∷ s) e = elim (Bool-cases (c == 36)) [
  | inl t ↦ bracket_cases c b s (sym (taken (c == 36) _ _ t) ∙ e)
  | inr t ↦ no_dollar c (b ∷ s) t
]
