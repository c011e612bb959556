-- ===== src/Ports/Listing.antt =====
-- What portlist_parse of lib/utils/portlist.c gives for a list of ports that is written with digits.
use pktgen_dpdk.Base.{
  ℕ, ◌-◌, ◌^◌, ◌<◌, ◌≤◌, ◌≡◌, refl, sym, ap, ap₂, ◌∙◌, subst, inl, inr, Bool, true, false, not,
  ◌&&◌, ◌||◌, Bool-cases, Option, none, some, List, [], ◌∷◌, ◌++◌, map, length, ltb, leb, ◌==◌,
  if◌then◌else◌, skipped, min, max, both, bit, bit-zero, same_str, Str, arith,
}
use pktgen_dpdk.Ports.State.{portlist_parse, parse_tokens, all_name, all_ports}
use pktgen_dpdk.Ports.Text.{pg_strtok}
use pktgen_dpdk.Ports.Parse.{
  is_good, all_good, selects, selected, parse_good, parse_bad, bit-all_ports,
}
use pktgen_dpdk.Ports.Numbers.{
  digit, Item, port, ports, text_of, first_of, last_of, IsItem, token_range_lem,
}
use pktgen_dpdk.Ports.Tokens.{more, AllItems, pg_strtok_lem}

-- The ports of an item go up and are below 64.
pub is_upward : Item → Bool
is_upward p = leb (first_of p) (last_of p) && ltb (last_of p) 64

pub all_upward : List Item → Bool
all_upward [] = true
all_upward (p ∷ ps) = is_upward p && all_upward ps

is_good-text_of : (p : Item) → IsItem p → is_good (text_of p) ≡ is_upward p
unfolding is_good is_upward
is_good-text_of p d =
    ap (λ (r : ℕ × ℕ). not (ltb (r.1) (r.0) || leb 64 (r.1))) (token_range_lem p d)
    ∙ same_test (first_of p) (last_of p)
  where
    same_test :
        (a b : ℕ)
        → not (ltb (min b (2 ^ 64 - 1)) (min a (2 ^ 64 - 1)) || leb 64 (min b (2 ^ 64 - 1)))
          ≡ (leb a b && ltb b 64)
    same_test a b = ground arith

all_good-map : (ps : List Item) → AllItems ps → all_good (map text_of ps) ≡ all_upward ps
unfolding all_good all_upward AllItems
all_good-map [] ds = refl
all_good-map (p ∷ ps) (d, ds) = ap₂ ◌&&◌ (is_good-text_of p d) (all_good-map ps ds)

module _ (max_ethports : ℕ) where
  -- 1 for a port of the item, cut at the number of ports; its first port counts in any case.
  pub of_item : Item → (i : ℕ) → ℕ
  of_item p i =
      if leb (first_of p) i && leb i (max (first_of p) (min (last_of p) max_ethports)) then 1 else 0

  pub of_items : List Item → (i : ℕ) → ℕ
  of_items [] i = 0
  of_items (p ∷ ps) i = max (of_item p i) (of_items ps i)

  selects-text_of :
      (p : Item) (i : ℕ)
      → IsItem p
      → is_upward p ≡ true
      → selects max_ethports (text_of p) i ≡ of_item p i
  unfolding selects of_item is_upward
  selects-text_of p i d e =
      ap (λ (r : ℕ × ℕ). if leb (r.0) i && leb i (max (r.0) (min (r.1) max_ethports)) then 1 else 0)
        (token_range_lem p d
          ∙ ap₂ (λ m n. (m, n)) (small_first (first_of p) (last_of p) e)
              (small_last (first_of p) (last_of p) e))
    where
      small_first : (a b : ℕ) → (leb a b && ltb b 64) ≡ true → min a (2 ^ 64 - 1) ≡ a
      small_first a b e = ground arith

      small_last : (a b : ℕ) → (leb a b && ltb b 64) ≡ true → min b (2 ^ 64 - 1) ≡ b
      small_last a b e = ground arith

  selected-map :
      (ps : List Item) (i : ℕ)
      → AllItems ps
      → all_upward ps ≡ true
      → selected max_ethports (map text_of ps) i ≡ of_items ps i
  unfolding selected of_items all_upward AllItems
  selected-map [] i ds e = refl
  selected-map (p ∷ ps) i (d, ds) e =
      let (one, rest) = both (is_upward p) (all_upward ps) e in
      ap₂ max (selects-text_of p i d one) (selected-map ps i ds rest)

  -- What the call has to give for the items: nothing if one of them goes down or ends at 64 or more, and
  -- else the number with the bits of their ports, and no other.
  pub IsListed : List Item → Option ℕ → Type 0
  IsListed ps none = all_upward ps ≡ false
  IsListed ps (some m) = (all_upward ps ≡ true) × ((i : ℕ) → bit m i ≡ of_items ps i)

  parse_tokens-IsListed :
      (ps : List Item) → AllItems ps → IsListed ps (parse_tokens max_ethports (map text_of ps) 0)
  unfolding IsListed
  parse_tokens-IsListed ps ds = elim (Bool-cases (all_upward ps)) [
    | inl up ↦
        let (m, done, bits) =
          parse_good max_ethports (map text_of ps) 0 (all_good-map ps ds ∙ up) in
        subst (IsListed ps) (sym done) (
          up,
          λ i. bits i ∙ ap₂ max (bit-zero i) (selected-map ps i ds up) ∙ from_none (of_items ps i),
        )
    | inr down ↦
        subst (IsListed ps)
          (sym (parse_bad max_ethports (map text_of ps) 0 (all_good-map ps ds ∙ down))) down
  ]
    where
      from_none : (b : ℕ) → max 0 b ≡ b
      from_none b = omega arith

  -- A list that begins with a digit is not "all".
  portlist_parse-digit :
      (c : ℕ) (s : Str) (nb_ports : ℕ)
      → c ≤ 57
      → portlist_parse max_ethports (c ∷ s) nb_ports
        ≡ parse_tokens max_ethports (pg_strtok (c ∷ s) (44 ∷ []) 64) 0
  unfolding portlist_parse same_str
  portlist_parse-digit c s nb_ports high =
      skipped (same_str (c ∷ s) all_name) _ _
        (ap (λ b. b && same_str s (108 ∷ 108 ∷ [])) (other c high))
    where
      other : (c : ℕ) → c ≤ 57 → (c == 97) ≡ false
      other c high = ground arith

  portlist_parse-items :
      (p : Item) (ps : List Item) (nb_ports : ℕ)
      → IsItem p
      → portlist_parse max_ethports (text_of p ++ more ps) nb_ports
        ≡ parse_tokens max_ethports (pg_strtok (text_of p ++ more ps) (44 ∷ []) 64) 0
  unfolding text_of IsItem
  portlist_parse-items (port c s) ps nb_ports (digit c' s' low high d) =
      portlist_parse-digit c (s ++ more ps) nb_ports high
  portlist_parse-items (ports c s d t) ps nb_ports (digit c' s' low high a, b) =
      portlist_parse-digit c ((s ++ (45 ∷ d ∷ t)) ++ more ps) nb_ports high

  -- portlist_parse of at most 64 items with commas between them, each the decimal digits of a port or of
  -- a first and a last port with a dash between, gives nothing if an item goes down or ends at 64 or
  -- more, and else the number with exactly the bits of the ports of the items, each cut at
  -- RTE_MAX_ETHPORTS with its first port in any case. For "all" and at most 64 ports in the system it gives
  -- the bits of these.
  pub portlist_parse_items_lem :
      (p : Item) (ps : List Item) (nb_ports : ℕ)
      → IsItem p
      → AllItems ps
      → length ps < 64
      → nb_ports ≤ 64
      → IsListed (p ∷ ps) (portlist_parse max_ethports (text_of p ++ more ps) nb_ports)
        × ((m : ℕ) × (portlist_parse max_ethports all_name nb_ports ≡ some m)
            × ((i : ℕ) → bit m i ≡ (if ltb i nb_ports then 1 else 0)))
  unfolding portlist_parse same_str AllItems
  portlist_parse_items_lem p ps nb_ports d ds lt le = (
    subst (IsListed (p ∷ ps))
        (sym (
          portlist_parse-items p ps nb_ports d
          ∙ ap (λ l. parse_tokens max_ethports l 0) (pg_strtok_lem p ps 64 d ds lt)))
        (parse_tokens-IsListed (p ∷ ps) (d, ds)),
    (all_ports nb_ports 0, refl, λ i. bit-all_ports max_ethports nb_ports i le),
  )
