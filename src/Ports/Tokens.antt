-- ===== src/Ports/Tokens.antt =====
-- How pg_strtok of lib/common/pg_strings.c splits a list of ports.
use pktgen_dpdk.Base.{
  ℕ, zero, suc, ◌<◌, ◌≤◌, ◌≡◌, refl, ap, ap₂, ◌∙◌, false, ◌||◌, Option, none, some, List, [], ◌∷◌,
  ◌++◌, map, length, subst, append-nil, ◌==◌, skipped, Str, arith,
}
use pktgen_dpdk.Ports.Text.{
  isspace, trim_front, keep, trim_back, pg_strtrim, is_delim, skip_delims, token, strtok_at,
  strtok_r, pg_strtok,
}
use pktgen_dpdk.Ports.Numbers.{AllDigits, digit, no_space, Item, port, ports, text_of, IsItem}

-- Neither a comma nor white space.
data IsClean : Str → Type 0 where
  clean_nil : IsClean []
  clean_one :
      (c : ℕ) (s : Str) → (c == 44) ≡ false → isspace c ≡ false → IsClean s → IsClean (c ∷ s)

comma : Str
comma = 44 ∷ []

is_delim_comma : (c : ℕ) → (c == 44) ≡ false → is_delim (44 ∷ []) c ≡ false
unfolding is_delim
is_delim_comma c e = ap (λ b. b || false) e

token-end : (s : Str) → IsClean s → token (44 ∷ []) (s ++ []) ≡ (s, [])
unfolding token
token-end [] k = refl
token-end (c ∷ s) (clean_one c' s' e f k) =
    skipped (is_delim (44 ∷ []) c) _ _ (is_delim_comma c e)
    ∙ ap (λ (r : Str × Str). (c ∷ r.0, r.1)) (token-end s k)

token-append : (s t : Str) → IsClean s → token (44 ∷ []) (s ++ (44 ∷ t)) ≡ (s, t)
unfolding token is_delim
token-append [] t k = refl
token-append (c ∷ s) t (clean_one c' s' e f k) =
    skipped (is_delim (44 ∷ []) c) _ _ (is_delim_comma c e)
    ∙ ap (λ (r : Str × Str). (c ∷ r.0, r.1)) (token-append s t k)

trim_back-IsClean : (s : Str) → IsClean s → trim_back s ≡ s
unfolding trim_back
trim_back-IsClean [] k = refl
trim_back-IsClean (c ∷ s) (clean_one c' s' e f k) = ap (keep c) (trim_back-IsClean s k) ∙ kept s
  where
    kept : (s : Str) → keep c s ≡ c ∷ s
    kept [] = skipped (isspace c) [] (c ∷ []) f
    kept (x ∷ s) = refl

pg_strtrim-IsClean : (s : Str) → IsClean s → pg_strtrim s ≡ s
unfolding pg_strtrim trim_front
pg_strtrim-IsClean s k = ap trim_back (front s k) ∙ trim_back-IsClean s k
  where
    front : (s : Str) → IsClean s → trim_front s ≡ s
    front [] k = refl
    front (c ∷ s) (clean_one c' s' e f k) = skipped (isspace c) (trim_front s) (c ∷ s) f

-- What follows an item: a comma and the next ones.
unfoldable pub more : List Item → Str
more [] = []
more (q ∷ ps) = 44 ∷ (text_of q ++ more ps)

behind_comma : List Item → Str
behind_comma [] = []
behind_comma (q ∷ ps) = text_of q ++ more ps

strtok_r-more :
    (c : ℕ) (s : Str) (ps : List Item)
    → IsClean (c ∷ s)
    → strtok_r (44 ∷ []) ((c ∷ s) ++ more ps) ≡ some (c ∷ s, behind_comma ps)
unfolding strtok_r skip_delims more behind_comma
strtok_r-more c s ps (clean_one c' s' e f k) =
    ap (strtok_at (44 ∷ [])) (skipped (is_delim (44 ∷ []) c) _ _ (is_delim_comma c e))
    ∙ ap some (by_rest ps)
  where
    by_rest : (ps : List Item) → token (44 ∷ []) ((c ∷ s) ++ more ps) ≡ (c ∷ s, behind_comma ps)
    by_rest [] = token-end (c ∷ s) (clean_one c s e f k)
    by_rest (q ∷ ps) = token-append (c ∷ s) (text_of q ++ more ps) (clean_one c s e f k)

IsClean-digits : (s t : Str) → AllDigits s → IsClean t → IsClean (s ++ t)
IsClean-digits [] t d k = k
IsClean-digits (c ∷ s) t (digit c' s' low high d) k =
    clean_one c (s ++ t) (no_comma c low) (no_space c low high) (IsClean-digits s t d k)
  where
    no_comma : (c : ℕ) → 48 ≤ c → (c == 44) ≡ false
    no_comma c low = ground arith

dash_no_space : isspace 45 ≡ false
unfolding isspace
dash_no_space = refl

IsClean-text_of : (p : Item) → IsItem p → IsClean (text_of p)
unfolding text_of IsItem
IsClean-text_of (port c s) d =
    subst IsClean (append-nil (c ∷ s)) (IsClean-digits (c ∷ s) [] d clean_nil)
IsClean-text_of (ports c s d t) (a, b) = IsClean-digits (c ∷ s) (45 ∷ d ∷ t) a (
    clean_one 45 (d ∷ t) refl dash_no_space
      (subst IsClean (append-nil (d ∷ t)) (IsClean-digits (d ∷ t) [] b clean_nil)))

unfoldable pub AllItems : List Item → Type 0
AllItems [] = zero ≡ zero
AllItems (p ∷ ps) = IsItem p × AllItems ps

strtok_r-item :
    (p : Item) (ps : List Item)
    → IsItem p
    → strtok_r (44 ∷ []) (text_of p ++ more ps) ≡ some (text_of p, behind_comma ps)
unfolding text_of
strtok_r-item (port c s) ps d = strtok_r-more c s ps (IsClean-text_of (port c s) d)
strtok_r-item (ports c s d t) ps k =
    strtok_r-more c (s ++ (45 ∷ d ∷ t)) ps (IsClean-text_of (ports c s d t) k)

nothing_left : (k : ℕ) → pg_strtok [] (44 ∷ []) k ≡ []
unfolding pg_strtok strtok_r skip_delims
nothing_left zero = refl
nothing_left (suc k) = refl

strtok_step :
    (p : Item) (ps : List Item) (k : ℕ) (l : List Str)
    → IsItem p
    → pg_strtok (behind_comma ps) (44 ∷ []) k ≡ l
    → pg_strtok (text_of p ++ more ps) (44 ∷ []) (suc k) ≡ text_of p ∷ l
unfolding pg_strtok
strtok_step p ps k l d e =
    ap
      (λ (o : Option (Str × Str)). elim o [
        | none ↦ []
        | some r ↦ pg_strtrim (r.0) ∷ pg_strtok (r.1) (44 ∷ []) k
      ])
      (strtok_r-item p ps d)
    ∙ ap₂ (λ (x : Str) (l : List Str). x ∷ l) (pg_strtrim-IsClean (text_of p) (IsClean-text_of p d))
        e

-- pg_strtok gives back the texts of the items, if there are not more than it may give.
pub pg_strtok_lem :
    (p : Item) (ps : List Item) (k : ℕ)
    → IsItem p
    → AllItems ps
    → length ps < k
    → pg_strtok (text_of p ++ more ps) (44 ∷ []) k ≡ text_of p ∷ map text_of ps
unfolding behind_comma AllItems
pg_strtok_lem p ps zero d ds lt = absurd (omega arith)
pg_strtok_lem p [] (suc k) d ds lt = strtok_step p [] k [] d (nothing_left k)
pg_strtok_lem p (q ∷ ps) (suc k) d (e, ds) lt =
    strtok_step p (q ∷ ps) k (text_of q ∷ map text_of ps) d
      (pg_strtok_lem q ps k e ds (omega arith))
