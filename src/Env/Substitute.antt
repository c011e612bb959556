-- ===== src/Env/Substitute.antt =====
-- cli_env_substitution of lib/cli/cli_env.c writes the start of the expansion of its line.
use pktgen_dpdk.Base.{
  length-drop, length-take, min, length-append, ℕ, zero, suc, ◌+◌, ◌-◌, ◌≡◌, ◌<◌, ◌≤◌, refl, sym,
  ap, ◌∙◌, subst, inl, inr, false, Option, none, some, Option-cases, [], ◌∷◌, ◌++◌, taken, skipped,
  if◌then◌else◌, ltb, leb, lt→ltb, ◌==◌, take, drop, length, length-append, length-take, Str, min,
  arith,
}
use pktgen_dpdk.Env.State.{
  further, CliEnv, cli_env_get, strchr, closing, variable, or_oops, substitute,
  cli_env_substitution,
}
use pktgen_dpdk.Env.Plain.{variable-IsPlain, IsPlain-variable}
use pktgen_dpdk.Env.Expand.{
  in_braces, in_parens, variable_cases, Expands, nothing, plain, braces, parens, strchr-append,
  take_name, drop_name, take-append, take-nil, take-take, skip_lem,
}

next_lt : (i n sz : ℕ) → i + suc n < sz → i + 1 + n < sz
next_lt i n sz lt = omega arith

two_less : (r : ℕ) → 1 ≤ suc (suc r) - 1
two_less r = omega arith

above : (r : ℕ) → leb (suc (suc r)) 1 ≡ false
above r = ground arith

take_cons : (k c : ℕ) (t : Str) → 1 ≤ k → c ∷ take (k - 1) t ≡ take k (c ∷ t)
take_cons zero c t le = absurd (omega arith)
take_cons (suc k) c t le = ap (λ n. c ∷ take n t) (less k)
  where
    less : (k : ℕ) → suc k - 1 ≡ k
    less k = omega arith

fits : (i n l m sz : ℕ) → i + suc l < sz → suc n ≤ l → m ≡ l - suc n → i + 1 + suc n + m < sz
fits i n l m sz lt le e = omega arith

left_over : (r l m : ℕ) → 1 ≤ r → m ≡ min (r - 1) l → 1 ≤ r - m
left_over r l m pos e = omega arith

same_left : (r l m : ℕ) → 1 ≤ r → m ≡ min (r - 1) l → r - m - 1 ≡ r - 1 - l
same_left r l m pos e = omega arith

module _ (env : CliEnv) (sz : ℕ) where
  Result : (i r : ℕ) (s t : Str) → Type 0
  Result i r s t = i + length s < sz → 1 ≤ r → substitute env sz i r zero s ≡ take (r - 1) t

  before_end : (i : ℕ) (c : ℕ) (s : Str) → i + suc (length s) < sz → leb sz i ≡ false
  before_end i c s lt = ground arith

  -- The round of the loop behind the look for a variable.
  abbrev shown : (r : ℕ) → Str → Str
  shown r v = if ltb 1 r then take (r - 1) v else []

  abbrev value_at : (n : ℕ) → Str → Str
  value_at n s = or_oops (cli_env_get env (take (n - 1) (drop 1 s)))

  abbrev after_look : (i r c : ℕ) → Str → Option ℕ → Str
  after_look i r c s o = elim o [
    | none ↦ if leb r 1 then [] else c ∷ substitute env sz (i + 1) (r - 1) zero s
    | some n ↦
        shown r (value_at n s)
        ++ substitute env sz (i + 1) (r - length (shown r (value_at n s))) (suc n) s
  ]

  look_lem :
      (i r c : ℕ) (s : Str)
      → i + suc (length s) < sz
      → substitute env sz i r zero (c ∷ s) ≡ after_look i r c s (variable c s)
  unfolding substitute
  look_lem i r c s lt = skipped (leb sz i) _ _ (before_end i c s lt)

  plain_lem :
      (i r c : ℕ) (s t : Str)
      → variable c s ≡ none
      → Result (i + 1) (r - 1) s t
      → Result i r (c ∷ s) (c ∷ t)
  unfolding Result
  plain_lem i r c s t e rest lt pos =
      look_lem i r c s lt ∙ ap (after_look i r c s) e ∙ by_room r rest pos
    where
      by_room :
          (r : ℕ)
          → (i + 1 + length s < sz
              → 1 ≤ r - 1
              → substitute env sz (i + 1) (r - 1) zero s ≡ take (r - 1 - 1) t)
          → 1 ≤ r
          → (if leb r 1 then [] else c ∷ substitute env sz (i + 1) (r - 1) zero s)
            ≡ take (r - 1) (c ∷ t)
      by_room zero rest pos = absurd (omega arith)
      by_room (suc zero) rest pos = refl
      by_room (suc (suc r)) rest pos =
          skipped (leb (suc (suc r)) 1) _ _ (above r)
          ∙ ap (λ l. c ∷ l) (rest (next_lt i (length s) sz lt) (two_less r))
          ∙ take_cons (suc (suc r) - 1) c t (two_less r)

  shown_lem : (r : ℕ) (v : Str) → 1 ≤ r → shown r v ≡ take (r - 1) v
  shown_lem zero v pos = absurd (omega arith)
  shown_lem (suc zero) v pos = refl
  shown_lem (suc (suc r)) v pos =
      taken (ltb 1 (suc (suc r))) _ _ (lt→ltb 1 (suc (suc r)) (omega arith))

  -- A variable of which the closing bracket is `n` bytes behind the `$` and one more.
  variable_lem :
      (i r n : ℕ) (s name rest t : Str)
      → variable 36 s ≡ some n
      → take (n - 1) (drop 1 s) ≡ name
      → drop (suc n) s ≡ rest
      → suc n ≤ length s
      → ((j q : ℕ) → Result j q rest t)
      → Result i r (36 ∷ s) (or_oops (cli_env_get env name) ++ t)
  unfolding Result
  variable_lem i r n s name rest t e named dropped le all lt pos =
      let v = or_oops (cli_env_get env name) in
      look_lem i r 36 s lt
      ∙ ap (after_look i r 36 s) e
      ∙ ap
          (λ w.
            shown r (or_oops (cli_env_get env w))
            ++ substitute env sz (i + 1) (r - length (shown r (or_oops (cli_env_get env w))))
                (suc n) s)
          named
      ∙ ap (λ w. w ++ substitute env sz (i + 1) (r - length w) (suc n) s) (shown_lem r v pos)
      ∙ ap (λ w. take (r - 1) v ++ w)
          (skip_lem env sz (i + 1) (r - length (take (r - 1) v)) (suc n) s le
            ∙ ap (substitute env sz (i + 1 + suc n) (r - length (take (r - 1) v)) zero) dropped
            ∙ all (i + 1 + suc n) (r - length (take (r - 1) v))
                (fits i n (length s) (length rest) sz lt le
                  (ap length (sym dropped) ∙ length-drop (suc n) s))
                (left_over r (length v) (length (take (r - 1) v)) pos (length-take (r - 1) v))
            ∙ ap (λ k. take k t)
                (same_left r (length v) (length (take (r - 1) v)) pos (length-take (r - 1) v)))
      ∙ sym (take-append (r - 1) v t)

  -- The name between two brackets, at the start of `name ++ close ∷ s`.
  bracket_lem :
      (i r bracket close : ℕ) (name s t : Str)
      → variable 36 (bracket ∷ name ++ (close ∷ s)) ≡ some (suc (length name))
      → ((j q : ℕ) → Result j q s t)
      → Result i r (36 ∷ bracket ∷ name ++ (close ∷ s)) (or_oops (cli_env_get env name) ++ t)
  bracket_lem i r bracket close name s t e all =
      variable_lem i r (suc (length name)) (bracket ∷ name ++ (close ∷ s)) name s t e
        (ap (λ n. take n (name ++ (close ∷ s))) (one_less (length name))
          ∙ take_name name (close ∷ s))
        (drop_name name s close)
        (room (length name) (length (name ++ (close ∷ s))) (length s)
          (length-append name (close ∷ s)))
        all
    where
      one_less : (n : ℕ) → suc n - 1 ≡ n
      one_less n = omega arith

      room : (n l m : ℕ) → l ≡ n + suc m → suc (suc n) ≤ suc l
      room n l m e = omega arith

  substitute_lem : (s t : Str) → Expands env s t → (i r : ℕ) → Result i r s t
  unfolding Result substitute variable closing strchr
  substitute_lem s t nothing i r = λ lt pos. sym (take-nil (r - 1))
  substitute_lem s t (plain c s' t' e x) i r =
      plain_lem i r c s' t' (variable-IsPlain c s' e) (substitute_lem s' t' x (i + 1) (r - 1))
  substitute_lem s t (braces name s' t' w x) i r =
      bracket_lem i r 123 125 name s' t' (ap further (strchr-append 125 name s' w))
        (λ j q. substitute_lem s' t' x j q)
  substitute_lem s t (parens name s' t' w x) i r =
      bracket_lem i r 40 41 name s' t' (ap further (strchr-append 41 name s' w))
        (λ j q. substitute_lem s' t' x j q)

  pub at_start :
      (s t : Str)
      → Expands env s t
      → length s < sz
      → substitute env sz 0 sz zero s ≡ take (sz - 1) t
  unfolding Result
  at_start s t x lt =
      substitute_lem s t x 0 sz (from_zero (length s) sz lt) (some_room (length s) sz lt)
    where
      from_zero : (n m : ℕ) → n < m → 0 + n < m
      from_zero n m lt = omega arith

      some_room : (n m : ℕ) → n < m → 1 ≤ m
      some_room n m lt = omega arith

-- What stands behind a variable is shorter.
shorter :
    (c b close : ℕ) (name rest s : Str) (n : ℕ)
    → s ≡ c ∷ b ∷ name ++ (close ∷ rest)
    → length s ≤ suc n
    → length rest ≤ n
shorter c b close name rest s n e le =
    by_lengths (length s) (length (name ++ (close ∷ rest))) (length name) (length rest)
      (ap length e) (length-append name (close ∷ rest)) le
  where
    by_lengths : (l m a r : ℕ) → l ≡ suc (suc m) → m ≡ a + suc r → l ≤ suc n → r ≤ n
    by_lengths l m a r e f le = omega arith

-- Every line has an expansion.
total : (env : CliEnv) (n : ℕ) (s : Str) → length s ≤ n → (t : Str) × Expands env s t
total env n [] le = ([], nothing)
total env zero (c ∷ s) le = absurd (omega arith)
total env (suc n) (c ∷ s) le = elim (Option-cases (variable c s)) [
  | inl e ↦
      let (t, x) = total env n s (omega arith) in (c ∷ t, plain c s t (IsPlain-variable c s e) x)
  | inr (m, e) ↦ elim (variable_cases c s m e) [
    | in_braces s' name rest split free ↦
        let (t, x) = total env n rest (shorter 36 123 125 name rest (c ∷ s) n split le) in
        (
          or_oops (cli_env_get env name) ++ t,
          subst (λ l. Expands env l (or_oops (cli_env_get env name) ++ t)) (sym split)
              (braces name rest t free x),
        )
    | in_parens s' name rest split free ↦
        let (t, x) = total env n rest (shorter 36 40 41 name rest (c ∷ s) n split le) in
        (
          or_oops (cli_env_get env name) ++ t,
          subst (λ l. Expands env l (or_oops (cli_env_get env name) ++ t)) (sym split)
              (parens name rest t free x),
        )
  ]
]

take_all : (n : ℕ) (t : Str) → length t ≤ n → take n t ≡ t
take_all n [] le = take-nil n
take_all zero (c ∷ t) le = absurd (omega arith)
take_all (suc n) (c ∷ t) le = ap (λ l. c ∷ l) (take_all n t (omega arith))

-- A line has one expansion only: in a buffer that is large enough it is what the loop writes.
pub Expands_unique : (env : CliEnv) (s t t' : Str) → Expands env s t → Expands env s t' → t ≡ t'
Expands_unique env s t t' x x' =
    by_size (length s + (length t + length t')) (omega arith) (omega arith) (omega arith)
  where
    by_size : (n : ℕ) → length s ≤ n → length t ≤ n → length t' ≤ n → t ≡ t'
    by_size n a b c =
        sym (take_all (suc n - 1) t (omega arith))
        ∙ sym (at_start env (suc n) s t x (omega arith))
        ∙ at_start env (suc n) s t' x' (omega arith)
        ∙ take_all (suc n - 1) t' (omega arith)

-- Every line has an expansion, and cli_env_substitution of a line that fits its buffer of `sz` bytes
-- leaves the first `sz - 1` bytes of it in the line.
pub cli_env_substitution_lem :
    (env : CliEnv) (line : Str) (sz : ℕ)
    → length line < sz
    → (t : Str) × Expands env line t × (cli_env_substitution env line sz ≡ take (sz - 1) t)
unfolding cli_env_substitution
cli_env_substitution_lem env line sz lt =
    let (t, x) = total env (length line) line (omega arith) in
    (
      t,
      x,
      skipped (sz == 0) _ _ (not_zero (length line) sz lt)
          ∙ ap (take (sz - 1)) (at_start env sz line t x lt)
          ∙ take-take (sz - 1) t,
    )
  where
    not_zero : (n sz : ℕ) → n < sz → (sz == 0) ≡ false
    not_zero n sz lt = ground arith
