-- ===== src/Hmap/Find.antt =====
-- The table of lib/hmap as a plain list: the search from the first slot on, and how a write to one
-- slot changes what it finds.
use pktgen_dpdk.Base.{
  ℕ, zero, suc, ◌<◌, ◌≡◌, ◌≢◌, refl, sym, ap, ◌∙◌, inl, inr, Bool, true, false, Option, none, some,
  List, [], ◌∷◌, length, set, if◌then◌else◌, Bool-cases, arith, taken, found_none, skipped,
}
use pktgen_dpdk.Hmap.State.{Str, HmapType, HmapKvp, empty_kvp, same_key, cmp_fields, hmap_cmp, slot}

-- A slot holds the entry of a prefix and a key.
abbrev pub Owns : HmapKvp → Option Str → Str → Type 0
Owns kvp prefix key = hmap_cmp kvp prefix key ≡ true

-- What a caller reads of an entry: its type and its value.
abbrev pub content : HmapKvp → HmapType × ℕ
content kvp = (kvp.type, kvp.v)

-- The entry of a prefix and a key, searched from the first slot on.
unfoldable pub find : List HmapKvp → Option Str → Str → Option (HmapType × ℕ)
find [] prefix key = none
find (kvp ∷ map) prefix key =
    if hmap_cmp kvp prefix key then some (content kvp) else find map prefix key

-- No two slots hold the entry of the same prefix and key.
unfoldable pub Distinct : List HmapKvp → Type 0
Distinct map =
    (i j : ℕ) (p : Option Str) (k : Str) → Owns (slot map i) p k → Owns (slot map j) p k → i ≡ j

pub empty_kvp_lem : (p : Option Str) (k : Str) → hmap_cmp empty_kvp p k ≡ false
unfolding hmap_cmp cmp_fields same_key
empty_kvp_lem none k = refl
empty_kvp_lem (some p) k = refl

pub Distinct-tail : (kvp : HmapKvp) (map : List HmapKvp) → Distinct (kvp ∷ map) → Distinct map
unfolding Distinct
Distinct-tail kvp map d i j p k a b = pred (d (suc i) (suc j) p k a b)
  where
    pred : {m n : ℕ} → suc m ≡ suc n → m ≡ n
    pred e = omega arith

not_owner : (a b : Bool) → (a ≡ true → b ≡ true) → b ≡ false → a ≡ false
not_owner true b f e = cc (f refl, e)
not_owner false b f e = refl

free_new : (b : Bool) → (b ≡ true → true ≡ false) → b ≡ false
free_new true f = f refl
free_new false f = refl

away : (j : ℕ) → 0 ≢ suc j
away j e = omega arith

away_suc : (i j : ℕ) → i ≢ j → suc i ≢ suc j
away_suc i j ne e = ne (omega arith)

pred_lt : (j n : ℕ) → suc j < suc n → j < n
pred_lt j n lt = omega arith

-- A slot that holds the entry is the one that the search finds.
pub find_owner :
    (map : List HmapKvp) (i : ℕ) (p : Option Str) (k : Str)
    → Distinct map
    → Owns (slot map i) p k
    → find map p k ≡ some (content (slot map i))
unfolding find Distinct
find_owner [] i p k d e = absurd (cc (empty_kvp_lem p k, e))
find_owner (kvp ∷ map) zero p k d e = taken (hmap_cmp kvp p k) (some (content kvp)) (find map p k) e
find_owner (kvp ∷ map) (suc i) p k d e = elim (Bool-cases (hmap_cmp kvp p k)) [
  | inl t ↦ absurd (away i (d zero (suc i) p k t e))
  | inr f ↦
      skipped (hmap_cmp kvp p k) (some (content kvp)) (find map p k) f
      ∙ find_owner map i p k (Distinct-tail kvp map d) e
]

-- Where no slot holds it the search finds nothing.
pub find_nowhere :
    (map : List HmapKvp) (p : Option Str) (k : Str)
    → ((i : ℕ) → hmap_cmp (slot map i) p k ≡ false)
    → find map p k ≡ none
unfolding find
find_nowhere [] p k free = refl
find_nowhere (kvp ∷ map) p k free =
    skipped (hmap_cmp kvp p k) (some (content kvp)) (find map p k) (free zero)
    ∙ find_nowhere map p k (λ i. free (suc i))

pub find-none :
    (map : List HmapKvp) (p : Option Str) (k : Str)
    → find map p k ≡ none
    → (i : ℕ) → hmap_cmp (slot map i) p k ≡ false
unfolding find
find-none [] p k e i = empty_kvp_lem p k
find-none (kvp ∷ map) p k e zero = (found_none (hmap_cmp kvp p k) (content kvp) (find map p k) e).0
find-none (kvp ∷ map) p k e (suc i) =
    find-none map p k ((found_none (hmap_cmp kvp p k) (content kvp) (find map p k) e).1) i

-- A write to one slot, where no other slot holds an entry of the new or of the old one.
pub find-set :
    (map : List HmapKvp) (j : ℕ) (kvp : HmapKvp) (p : Option Str) (k : Str)
    → j < length map
    → (Owns (slot map j) p k → Owns kvp p k)
    → ((i : ℕ) → i ≢ j → Owns kvp p k → hmap_cmp (slot map i) p k ≡ false)
    → find (set map j kvp) p k ≡ (if hmap_cmp kvp p k then some (content kvp) else find map p k)
unfolding find
find-set [] j kvp p k lt same others = absurd (omega arith)
find-set (x ∷ map) zero kvp p k lt same others = elim (Bool-cases (hmap_cmp kvp p k)) [
  | inl t ↦
      taken (hmap_cmp kvp p k) (some (content kvp)) (find map p k) t
      ∙ sym (taken (hmap_cmp kvp p k) (some (content kvp)) (find (x ∷ map) p k) t)
  | inr f ↦
      let old = not_owner (hmap_cmp x p k) (hmap_cmp kvp p k) same f in
      ap (λ rest. if hmap_cmp kvp p k then some (content kvp) else rest)
        (sym (skipped (hmap_cmp x p k) (some (content x)) (find map p k) old))
]
find-set (x ∷ map) (suc j) kvp p k lt same others = elim (Bool-cases (hmap_cmp x p k)) [
  | inl t ↦
      let new = free_new (hmap_cmp kvp p k) (λ o. cc (t, others zero (away j) o)) in
      taken (hmap_cmp x p k) (some (content x)) (find (set map j kvp) p k) t
      ∙ sym (
          skipped (hmap_cmp kvp p k) (some (content kvp)) (find (x ∷ map) p k) new
          ∙ taken (hmap_cmp x p k) (some (content x)) (find map p k) t)
  | inr f ↦
      skipped (hmap_cmp x p k) (some (content x)) (find (set map j kvp) p k) f
      ∙ find-set map j kvp p k (pred_lt j (length map) lt) same
          (λ i ne. others (suc i) (away_suc i j ne))
      ∙ ap (λ rest. if hmap_cmp kvp p k then some (content kvp) else rest)
          (sym (skipped (hmap_cmp x p k) (some (content x)) (find map p k) f))
]

-- The release of one slot, where no other slot holds its entry.
pub find-clear :
    (map : List HmapKvp) (j : ℕ) (p : Option Str) (k : Str)
    → j < length map
    → ((i : ℕ) → i ≢ j → Owns (slot map j) p k → hmap_cmp (slot map i) p k ≡ false)
    → find (set map j empty_kvp) p k ≡ (if hmap_cmp (slot map j) p k then none else find map p k)
unfolding find
find-clear [] j p k lt others = absurd (omega arith)
find-clear (x ∷ map) zero p k lt others =
    skipped (hmap_cmp empty_kvp p k) (some (content empty_kvp)) (find map p k) (empty_kvp_lem p k)
    ∙ elim (Bool-cases (hmap_cmp x p k)) [
      | inl t ↦
          find_nowhere map p k (λ i. others (suc i) (λ e. away i (sym e)) t)
          ∙ sym (taken (hmap_cmp x p k) none (find (x ∷ map) p k) t)
      | inr f ↦ sym (
          skipped (hmap_cmp x p k) none (find (x ∷ map) p k) f
          ∙ skipped (hmap_cmp x p k) (some (content x)) (find map p k) f)
    ]
find-clear (x ∷ map) (suc j) p k lt others = elim (Bool-cases (hmap_cmp x p k)) [
  | inl t ↦
      let other = free_new (hmap_cmp (slot map j) p k) (λ o. cc (t, others zero (away j) o)) in
      taken (hmap_cmp x p k) (some (content x)) (find (set map j empty_kvp) p k) t
      ∙ sym (
          skipped (hmap_cmp (slot map j) p k) none (find (x ∷ map) p k) other
          ∙ taken (hmap_cmp x p k) (some (content x)) (find map p k) t)
  | inr f ↦
      skipped (hmap_cmp x p k) (some (content x)) (find (set map j empty_kvp) p k) f
      ∙ find-clear map j p k (pred_lt j (length map) lt) (λ i ne. others (suc i) (away_suc i j ne))
      ∙ ap (λ rest. if hmap_cmp (slot map j) p k then none else rest)
          (sym (skipped (hmap_cmp x p k) (some (content x)) (find map p k) f))
]
