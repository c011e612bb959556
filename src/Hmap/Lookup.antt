-- ===== src/Hmap/Lookup.antt =====
-- The lookups of lib/hmap/hmap.c.
use pktgen_dpdk.Base.{
  ℕ, zero, suc, ◌<◌, ◌≤◌, ◌≡◌, refl, sym, ap, ◌∙◌, subst, ◌⊎◌, inl, inr, false, Option, none, some,
  List, [], ◌∷◌, length, Option-cases, arith,
}
use pktgen_dpdk.Hmap.State.{Str, HmapType, HmapKvp, Hmap, empty_kvp, hmap_cmp, slot, hmap_get_hash}
use pktgen_dpdk.Hmap.Ops.{hits, hmap_kvp_lookup, hmap_lookup, probe}
use pktgen_dpdk.Hmap.Probe.{probe_some_lem, probe_none_lem}
use pktgen_dpdk.Hmap.Find.{Owns, find, find_owner, find_nowhere, content, empty_kvp_lem}
use pktgen_dpdk.Hmap.Keys.{hits-hmap_cmp}
use pktgen_dpdk.Hmap.Valid.{IsValid, Entries}
use native.Mathlib.Nat.{mod-lt}

abbrev pub read : List HmapKvp → Option ℕ → Option (HmapType × ℕ)
read map none = none
read map (some i) = some (content (slot map i))

abbrev pub value_of : Option (HmapType × ℕ) → Option ℕ
value_of none = none
value_of (some (type, v)) = some v

-- The entries of a map, as hmap_kvp_lookup gives them.
unfoldable pub entries : Hmap → Entries
entries hmap prefix key = read hmap.map (hmap_kvp_lookup hmap prefix (some key))

slot_beyond : (map : List HmapKvp) (i : ℕ) → length map ≤ i → slot map i ≡ empty_kvp
slot_beyond [] i le = refl
slot_beyond (x ∷ map) zero le = absurd (omega arith)
slot_beyond (x ∷ map) (suc i) le = slot_beyond map i (omega arith)

pub within : (i n : ℕ) → (i < n) ⊎ (n ≤ i)
within i n = ground arith

pub hmap_get_hash_lem :
    (hmap : Hmap) (p : Option Str) (k : Str)
    → 8 ≤ hmap.capacity
    → hmap_get_hash hmap p k < hmap.capacity
unfolding hmap_get_hash
hmap_get_hash_lem hmap p k least = mod-lt (hmap.fns.hash_fn p k) (positive hmap.capacity least)
  where
    positive : (c : ℕ) → 8 ≤ c → 0 < c
    positive c q = omega arith

module _ (hmap : Hmap) (v : IsValid hmap) (p : Option Str) (k : Str) where
  pub lookup_some :
      (i : ℕ)
      → hmap_kvp_lookup hmap p (some k) ≡ some i
      → Owns (slot hmap.map i) p k × (i < hmap.capacity)
  unfolding hmap_kvp_lookup
  lookup_some i e =
      let (t, lt) =
        probe_some_lem (hits hmap.fns hmap.map p k) hmap.capacity hmap.capacity
          (hmap_get_hash hmap p k) i (hmap_get_hash_lem hmap p k v.least) e in
      (sym (hits-hmap_cmp hmap.fns hmap.map p k i v.compares) ∙ t, lt)

  pub lookup_none :
      hmap_kvp_lookup hmap p (some k) ≡ none → (i : ℕ) → hmap_cmp (slot hmap.map i) p k ≡ false
  unfolding hmap_kvp_lookup
  lookup_none e i = elim (within i hmap.capacity) [
    | inl lt ↦
        sym (hits-hmap_cmp hmap.fns hmap.map p k i v.compares)
        ∙ probe_none_lem (hits hmap.fns hmap.map p k) hmap.capacity (hmap_get_hash hmap p k) i
            (hmap_get_hash_lem hmap p k v.least) lt e
    | inr le ↦
        ap (λ s. hmap_cmp s p k) (slot_beyond hmap.map i (subst (λ n. n ≤ i) (sym v.size) le))
        ∙ empty_kvp_lem p k
  ]

  -- The circular scan from the hash of a key reads what a search from the first slot on finds,
  -- whatever the hash function.
  pub entries-find : entries hmap p k ≡ find hmap.map p k
  unfolding entries
  entries-find = elim (Option-cases (hmap_kvp_lookup hmap p (some k))) [
    | inl e ↦ ap (read hmap.map) e ∙ sym (find_nowhere hmap.map p k (lookup_none e))
    | inr (i, e) ↦
        ap (read hmap.map) e ∙ sym (find_owner hmap.map i p k v.distinct (lookup_some i e).0)
  ]

  -- hmap_lookup gives the value of the entry.
  pub hmap_lookup-entries : hmap_lookup hmap p (some k) ≡ value_of (entries hmap p k)
  unfolding hmap_lookup entries hmap_kvp_lookup
  hmap_lookup-entries =
      by_result
        (probe (hits hmap.fns hmap.map p k) hmap.capacity hmap.capacity (hmap_get_hash hmap p k))
    where
      by_result :
          (o : Option ℕ)
          → elim o [ none ↦ none | some i ↦ some (slot hmap.map i).v ] ≡ value_of (read hmap.map o)
      by_result none = refl
      by_result (some i) = refl
