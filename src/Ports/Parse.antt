-- ===== src/Ports/Parse.antt =====
-- portlist_parse of lib/utils/portlist.c: which ports a list selects, and which lists it refuses.
use pktgen_dpdk.Base.{
  ℕ, zero, suc, ◌^◌, ◌≡◌, refl, sym, ap, ap₂, ◌∙◌, subst, inl, inr, Bool, true, false, not, ◌&&◌,
  ◌||◌, Bool-cases, Option, none, some, List, [], ◌∷◌, ltb, leb, if◌then◌else◌, min, max, bit,
  bit-zero, bit-bit_or, Str, both, same_str, arith, ◌≤◌, u64,
}
use native.Mathlib.Nat.{pow-le-pow_right}
use pktgen_dpdk.Ports.Text.{pg_strtok}
use pktgen_dpdk.Ports.State.{
  token_range, set_portlist_bits, parse_tokens, all_name, all_ports, portlist_parse,
}
use pktgen_dpdk.Ports.Bits.{one_when, bit_power, bit-set_portlist_bits}

-- A token whose range does not go down and ends below 64.
unfoldable pub is_good : Str → Bool
is_good s = let (ps, pe) = token_range s in not (ltb pe ps || leb 64 pe)

unfoldable pub all_good : List Str → Bool
all_good [] = true
all_good (s ∷ split) = is_good s && all_good split

word_power : (n : ℕ) → suc n ≤ 64 → u64 (2 ^ n) ≡ 2 ^ n
word_power n le =
    small (2 ^ n) (pow-le-pow_right {n = 2} (omega arith) {i = n} {j = 63} (omega arith))
  where
    small : (p : ℕ) → p ≤ 2 ^ 63 → u64 p ≡ p
    small p le = omega arith

module _ (max_ethports : ℕ) where
  -- 1 for a port of the token's range, cut at the number of ports; its first port counts in any case.
  unfoldable pub selects : Str → (i : ℕ) → ℕ
  selects s i =
      let (ps, pe) = token_range s in
      if leb ps i && leb i (max ps (min pe max_ethports)) then 1 else 0

  unfoldable pub selected : List Str → (i : ℕ) → ℕ
  selected [] i = 0
  selected (s ∷ split) i = max (selects s i) (selected split i)

  abbrev after_test : (ps pe : ℕ) → List Str → (map : ℕ) → Bool → Option ℕ
  after_test ps pe split map b = elim b [
    | true ↦ none
    | false ↦ parse_tokens max_ethports split (set_portlist_bits ps (min pe max_ethports) map)
  ]

  pub parse_good :
      (split : List Str) (map : ℕ)
      → all_good split ≡ true
      → (m : ℕ) × (parse_tokens max_ethports split map ≡ some m)
        × ((i : ℕ) → bit m i ≡ max (bit map i) (selected split i))
  unfolding all_good is_good parse_tokens selected selects
  parse_good [] map e = (map, refl, λ i. no_more (bit map i))
    where
      no_more : (b : ℕ) → b ≡ max b 0
      no_more b = omega arith
  parse_good (s ∷ split) map e =
      let (ps, pe) = token_range s in
      let bad = ltb pe ps || leb 64 pe in
      let (good, rest) = both (not bad) (all_good split) e in
      let (m, done, bits) =
        parse_good split (set_portlist_bits ps (min pe max_ethports) map) rest in
      (
        m,
        ap (after_test ps pe split map) (not_bad bad good) ∙ done,
        λ i.
            bits i
            ∙ ap (λ b. max b (selected split i))
                (bit-set_portlist_bits ps (min pe max_ethports) map i)
            ∙ regroup (bit map i)
                (if leb ps i && leb i (max ps (min pe max_ethports)) then 1 else 0)
                (selected split i),
      )
    where
      not_bad : (b : Bool) → not b ≡ true → b ≡ false
      not_bad true e = absurd cc
      not_bad false e = refl

      regroup : (a b c : ℕ) → max (max a b) c ≡ max a (max b c)
      regroup a b c = omega arith

  pub parse_bad :
      (split : List Str) (map : ℕ)
      → all_good split ≡ false
      → parse_tokens max_ethports split map ≡ none
  unfolding all_good is_good parse_tokens
  parse_bad [] map e = absurd cc
  parse_bad (s ∷ split) map e =
      let (ps, pe) = token_range s in
      by_test ps pe (λ map. parse_bad split map) (ltb pe ps || leb 64 pe) e
    where
      by_test :
          (ps pe : ℕ)
          → ((map : ℕ) → all_good split ≡ false → parse_tokens max_ethports split map ≡ none)
          → (bad : Bool) → (not bad && all_good split) ≡ false
          → after_test ps pe split map bad ≡ none
      by_test ps pe rest true e = refl
      by_test ps pe rest false e = rest (set_portlist_bits ps (min pe max_ethports) map) e

  pub bit-all_ports : (n i : ℕ) → n ≤ 64 → bit (all_ports n 0) i ≡ (if ltb i n then 1 else 0)
  unfolding all_ports
  bit-all_ports zero i le = bit-zero i ∙ none_below i
    where
      none_below : (i : ℕ) → ◌≡◌ {A = ℕ} 0 (if ltb i 0 then 1 else 0)
      none_below i = ground arith
  bit-all_ports (suc n) i le =
      bit-bit_or (all_ports n 0) (u64 (2 ^ n)) i
      ∙ ap₂ max (bit-all_ports n i (omega arith))
          (ap (λ p. bit p i) (word_power n le) ∙ bit_power n i)
      ∙ next i n
    where
      next :
          (i n : ℕ)
          → max (if ltb i n then 1 else 0) (one_when i n) ≡ (if ltb i (suc n) then 1 else 0)
      next i n = ground arith

  -- What a list of ports says of port `i`: "all" selects the ports of the system, any other list those
  -- of its tokens.
  pub listed : Str → (nb_ports i : ℕ) → ℕ
  listed str nb_ports i =
      if same_str str all_name
      then (if ltb i nb_ports then 1 else 0)
      else selected (pg_strtok str (44 ∷ []) 64) i

  -- A list is well formed when it is "all" or when all its tokens are good.
  pub is_list : Str → Bool
  is_list [] = false
  is_list (c ∷ str) = same_str (c ∷ str) all_name || all_good (pg_strtok (c ∷ str) (44 ∷ []) 64)

  abbrev by_name : List Str → (nb_ports : ℕ) → Bool → Option ℕ
  by_name split nb_ports b =
      if b then some (all_ports nb_ports 0) else parse_tokens max_ethports split 0

  -- What the call has to give: nothing for a list that is not well formed, and else a number with the
  -- bit of each port that the list selects, and no other.
  pub IsAnswer : Str → (nb_ports : ℕ) → Option ℕ → Type 0
  IsAnswer str nb_ports none = is_list str ≡ false
  IsAnswer str nb_ports (some m) =
      (is_list str ≡ true) × ((i : ℕ) → bit m i ≡ listed str nb_ports i)

  -- The answer, from the two tests.
  IsAnswerFrom : (named : Bool) (split : List Str) (nb_ports : ℕ) → Option ℕ → Type 0
  IsAnswerFrom named split nb_ports none = (named || all_good split) ≡ false
  IsAnswerFrom named split nb_ports (some m) =
      ((named || all_good split) ≡ true)
      × ((i : ℕ)
          → bit m i ≡ (if named then (if ltb i nb_ports then 1 else 0) else selected split i))

  by_name-IsAnswerFrom :
      (named : Bool) (split : List Str) (nb_ports : ℕ)
      → nb_ports ≤ 64
      → IsAnswerFrom named split nb_ports (by_name split nb_ports named)
  unfolding IsAnswerFrom
  by_name-IsAnswerFrom true split nb_ports le = (refl, λ i. bit-all_ports nb_ports i le)
  by_name-IsAnswerFrom false split nb_ports le = elim (Bool-cases (all_good split)) [
    | inl good ↦
        let (m, done, bits) = parse_good split 0 good in
        subst (IsAnswerFrom false split nb_ports) (sym done) (
          good,
          λ i.
              bits i
              ∙ ap (λ b. max b (selected split i)) (bit-zero i)
              ∙ from_none (selected split i),
        )
    | inr bad ↦ subst (IsAnswerFrom false split nb_ports) (sym (parse_bad split 0 bad)) bad
  ]
    where
      from_none : (b : ℕ) → max 0 b ≡ b
      from_none b = omega arith

  empty-IsAnswer : (nb_ports : ℕ) → IsAnswer [] nb_ports none
  unfolding IsAnswer is_list
  empty-IsAnswer nb_ports = refl

  as-IsAnswer :
      (c : ℕ) (str : Str) (nb_ports : ℕ) (r : Option ℕ)
      → IsAnswerFrom (same_str (c ∷ str) all_name) (pg_strtok (c ∷ str) (44 ∷ []) 64) nb_ports r
      → IsAnswer (c ∷ str) nb_ports r
  unfolding IsAnswer IsAnswerFrom is_list listed
  as-IsAnswer c str nb_ports none a = a
  as-IsAnswer c str nb_ports (some m) a = a

  -- portlist_parse takes exactly the well formed lists, and the number that it gives has the bit of
  -- each port that the list selects, and no other.
  pub portlist_parse_lem :
      (str : Str) (nb_ports : ℕ)
      → nb_ports ≤ 64
      → IsAnswer str nb_ports (portlist_parse max_ethports str nb_ports)
  unfolding portlist_parse
  portlist_parse_lem [] nb_ports le = empty-IsAnswer nb_ports
  portlist_parse_lem (c ∷ str) nb_ports le =
      as-IsAnswer c str nb_ports (portlist_parse max_ethports (c ∷ str) nb_ports) (
        by_name-IsAnswerFrom (same_str (c ∷ str) all_name) (pg_strtok (c ∷ str) (44 ∷ []) 64)
          nb_ports le)
