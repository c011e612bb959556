-- ===== src/Env/Expand.antt =====
-- cli_env_substitution of lib/cli/cli_env.c against what the substitution of variables means.
use pktgen_dpdk.Base.{
  ℕ, zero, suc, ◌+◌, ◌-◌, ◌≡◌, ◌≤◌, refl, sym, ap, ◌∙◌, inl, inr, false, Bool-cases, Option, none,
  some, [], ◌∷◌, ◌++◌, taken, skipped, ◌==◌, ==_iff, eq→==, take, drop, length, Str, arith, Bool,
  ap₂, if◌then◌else◌, subst, true,
}
use pktgen_dpdk.Env.State.{
  CliEnv, cli_env_get, strchr, further, variable, or_oops, substitute, closing, find_closing,
}

-- A byte that a text does not hold.
pub data Without (c : ℕ) : Str → Type 0 where
  without_all : Without c []
  without_one : (x : ℕ) (s : Str) → (x == c) ≡ false → Without c s → Without c (x ∷ s)

-- A byte that starts no variable: it is no `$`, no opening bracket follows, or none that is closed.
pub data IsPlain : (c : ℕ) → Str → Type 0 where
  no_dollar : (c : ℕ) (s : Str) → (c == 36) ≡ false → IsPlain c s
  at_end : (c : ℕ) → IsPlain c []
  no_bracket : (c b : ℕ) (s : Str) → (b == 123) ≡ false → (b == 40) ≡ false → IsPlain c (b ∷ s)
  open_brace : (c : ℕ) (s : Str) → Without 125 s → IsPlain c (123 ∷ s)
  open_paren : (c : ℕ) (s : Str) → Without 41 s → IsPlain c (40 ∷ s)

-- The meaning of the substitution: `${name}` and `$(name)` stand for the value of the variable, the name
-- ends at the first closing bracket of the same kind, and every byte that starts no variable stands for
-- itself.
pub data Expands (env : CliEnv) : Str → Str → Type 0 where
  nothing : Expands env [] []
  plain : (c : ℕ) (s t : Str) → IsPlain c s → Expands env s t → Expands env (c ∷ s) (c ∷ t)
  braces :
      (name s t : Str)
      → Without 125 name
      → Expands env s t
      → Expands env (36 ∷ 123 ∷ name ++ (125 ∷ s)) (or_oops (cli_env_get env name) ++ t)
  parens :
      (name s t : Str)
      → Without 41 name
      → Expands env s t
      → Expands env (36 ∷ 40 ∷ name ++ (41 ∷ s)) (or_oops (cli_env_get env name) ++ t)

-- strchr finds the first byte.
pub strchr-append :
    (c : ℕ) (name s : Str) → Without c name → strchr (name ++ (c ∷ s)) c ≡ some (length name)
unfolding strchr
strchr-append c [] s w = taken (c == c) (some 0) (further (strchr s c)) (eq→== c c refl)
strchr-append c (x ∷ name) s (without_one x' n' e w) =
    skipped (x == c) (some 0) (further (strchr (name ++ (c ∷ s)) c)) e
    ∙ ap further (strchr-append c name s w)

pub record Found (c : ℕ) (s : Str) (n : ℕ) : Type 0 where
  pub name : Str
  pub rest : Str
  pub split : s ≡ name ++ (c ∷ rest)
  pub at : length name ≡ n
  pub free : Without c name

some_eq : (a b : ℕ) → some a ≡ some b → a ≡ b
some_eq a b e = cc e

further_lem : (o : Option ℕ) (n : ℕ) → further o ≡ some n → (m : ℕ) × (o ≡ some m) × (suc m ≡ n)
further_lem none n e = absurd cc
further_lem (some m) n e = (m, refl, some_eq (suc m) n e)

pub strchr_lem : (c : ℕ) (s : Str) (n : ℕ) → strchr s c ≡ some n → Found c s n
unfolding strchr
strchr_lem c [] n e = absurd cc
strchr_lem c (x ∷ s) n e = elim (Bool-cases (x == c)) [
  | inl t ↦ record {
    name = [];
    rest = s;
    split = ap (λ y. y ∷ s) ((==_iff x c).0 t);
    at = some_eq 0 n (sym (taken (x == c) (some 0) (further (strchr s c)) t) ∙ e);
    free = without_all;
  }
  | inr t ↦
      let (m, f, g) =
        further_lem (strchr s c) n (sym (skipped (x == c) (some 0) (further (strchr s c)) t) ∙ e) in
      let found = strchr_lem c s m f in
      record {
        name = x ∷ found.name;
        rest = found.rest;
        split = ap (λ l. x ∷ l) found.split;
        at = ap suc found.at ∙ g;
        free = without_one x found.name t found.free;
      }
]

pub take_name : (name s : Str) → take (length name) (name ++ s) ≡ name
take_name [] s = refl
take_name (x ∷ name) s = ap (λ l. x ∷ l) (take_name name s)

pub drop_name : (name s : Str) (c : ℕ) → drop (suc (length name)) (name ++ (c ∷ s)) ≡ s
drop_name [] s c = refl
drop_name (x ∷ name) s c = drop_name name s c

take-none : (n : ℕ) (t : Str) → n ≡ 0 → [] ≡ take n t
take-none zero t e = refl
take-none (suc n) t e = absurd (omega arith)

whole : (k : ℕ) → suc k ≡ suc k - 0
whole k = omega arith

both_less : (k n : ℕ) → k - n ≡ suc k - suc n
both_less k n = omega arith

pub take-append : (k : ℕ) (v t : Str) → take k (v ++ t) ≡ take k v ++ take (k - length v) t
take-append zero v t = take-none (0 - length v) t (omega arith)
take-append (suc k) [] t = ap (λ n. take n t) (whole k)
take-append (suc k) (x ∷ v) t =
    ap (λ l. x ∷ l) (take-append k v t ∙ ap (λ n. take k v ++ take n t) (both_less k (length v)))

pub take-nil : (k : ℕ) → take {A = ℕ} k [] ≡ []
take-nil zero = refl
take-nil (suc k) = refl

pub take-take : (k : ℕ) (s : Str) → take k (take k s) ≡ take k s
take-take zero s = refl
take-take (suc k) [] = refl
take-take (suc k) (x ∷ s) = ap (λ l. x ∷ l) (take-take k s)

-- The bytes that `p` jumps over.
pub skip_lem :
    (env : CliEnv) (sz i r n : ℕ) (s : Str)
    → n ≤ length s
    → substitute env sz i r n s ≡ substitute env sz (i + n) r zero (drop n s)
unfolding substitute
skip_lem env sz i r zero s le = ap (λ j. substitute env sz j r zero s) (omega arith)
skip_lem env sz i r (suc n) [] le = absurd (omega arith)
skip_lem env sz i r (suc n) (c ∷ s) le =
    skip_lem env sz (i + 1) r n s (omega arith)
    ∙ ap (λ j. substitute env sz j r zero (drop n s)) (omega arith)

-- A `$` that starts a variable, with its name and its closing bracket.
pub data IsVariable : Str → Type 0 where
  in_braces :
      (s name rest : Str) → s ≡ 36 ∷ 123 ∷ name ++ (125 ∷ rest) → Without 125 name → IsVariable s
  in_parens :
      (s name rest : Str) → s ≡ 36 ∷ 40 ∷ name ++ (41 ∷ rest) → Without 41 name → IsVariable s

only_if :
    (b : Bool) (o : Option ℕ) (m : ℕ) → (if b then o else none) ≡ some m → (b ≡ true) × (o ≡ some m)
only_if true o m e = (refl, e)
only_if false o m e = absurd cc

-- The search goes on behind an opening bracket, which is no closing one.
behind_bracket :
    (b close m : ℕ) (s : Str)
    → (b == close) ≡ false
    → strchr (b ∷ s) close ≡ some m
    → (n : ℕ) × (strchr s close ≡ some n)
unfolding strchr
behind_bracket b close m s ne e =
    let (n, f, g) =
      further_lem (strchr s close) m
        (sym (skipped (b == close) (some 0) (further (strchr s close)) ne) ∙ e) in
    (n, f)

text_of : (c b x : ℕ) (s : Str) → c ≡ 36 → b ≡ x → c ∷ b ∷ s ≡ 36 ∷ x ∷ s
text_of c b x s e f = ap₂ (λ c b. c ∷ b ∷ s) e f

pub variable_cases : (c : ℕ) (s : Str) (m : ℕ) → variable c s ≡ some m → IsVariable (c ∷ s)
unfolding variable closing
variable_cases c [] m e = absurd (cc ((only_if (c == 36) none m e).1))
variable_cases c (b ∷ s) m e =
    let (dollar, look) = only_if (c == 36) (find_closing (b ∷ s) (closing (b ∷ s))) m e in
    elim (Bool-cases (b == 123)) [
      | inl t ↦
          let at = (==_iff b 123).0 t in
          let (n, f) =
            behind_bracket b 125 m s (subst (λ b. (b == 125) ≡ false) (sym at) refl)
              (sym (ap (find_closing (b ∷ s)) (taken (b == 123) _ _ t)) ∙ look) in
          let found = strchr_lem 125 s n f in
          in_braces (c ∷ b ∷ s) found.name found.rest
            (text_of c b 123 s ((==_iff c 36).0 dollar) at ∙ ap (λ l. 36 ∷ 123 ∷ l) found.split)
            found.free
      | inr t ↦ elim (Bool-cases (b == 40)) [
        | inl u ↦
            let at = (==_iff b 40).0 u in
            let (n, f) = behind_bracket b 41 m s (subst (λ b. (b == 41) ≡ false) (sym at) refl) (
              sym (ap (find_closing (b ∷ s)) (skipped (b == 123) _ _ t ∙ taken (b == 40) _ _ u))
              ∙ look) in
            let found = strchr_lem 41 s n f in
            in_parens (c ∷ b ∷ s) found.name found.rest
              (text_of c b 40 s ((==_iff c 36).0 dollar) at ∙ ap (λ l. 36 ∷ 40 ∷ l) found.split)
              found.free
        | inr u ↦ absurd (
            cc (
              sym (ap (find_closing (b ∷ s)) (skipped (b == 123) _ _ t ∙ skipped (b == 40) _ _ u))
              ∙ look))
      ]
    ]
