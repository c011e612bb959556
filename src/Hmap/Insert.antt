-- ===== src/Hmap/Insert.antt =====
-- __add_value of lib/hmap/hmap.c: the write of a new entry to an empty slot.
use pktgen_dpdk.Base.{
  ℕ, suc, ◌+◌, ◌<◌, ◌≤◌, ◌^◌, ◌≡◌, refl, sym, ap, ◌∙◌, subst, inl, inr, true, false, Option, none,
  some, set, Option-cases, ◌==◌, if◌then◌else◌, u32, arith, skipped,
}
use pktgen_dpdk.Hmap.State.{
  Str, HmapType, HmapKvp, Hmap, type_index, empty_kvp, hmap_cmp, slot, hmap_get_hash, cmp_fields,
}
use pktgen_dpdk.Hmap.Ops.{
  ok, probe, is_empty, filled, add_at, add_value, hmap_kvp_update, prefix_or,
}
use pktgen_dpdk.Hmap.Probe.{probe_some_lem, probe_none_lem}
use pktgen_dpdk.Hmap.Find.{Owns, find, find-none, find-set, empty_kvp_lem}
use pktgen_dpdk.Hmap.Keys.{Owns_lem}
use pktgen_dpdk.Hmap.Slots.{IsSlot, used_slot, used, used-set, room, in_use}
use pktgen_dpdk.Hmap.Valid.{
  IsValid, written, is_empty_lem, IsValid-set, filled_twice, new_kvp, prefix_or-none,
}
use pktgen_dpdk.Hmap.Lookup.{hmap_get_hash_lem}

-- The map after a new entry: valid, of the same size, with one more entry.
pub record IsAdded (hmap hmap' : Hmap) (type : HmapType) (p : Option Str) (k : Str) (val : ℕ)
    : Type 0 where
  pub valid : IsValid hmap'
  pub holds :
      (p' : Option Str) (k' : Str)
      → find hmap'.map p' k' ≡ written (find hmap.map) p k (some (type, val)) p' k'
  pub one_more : hmap'.curr_capacity ≡ suc hmap.curr_capacity
  pub same_size : hmap'.capacity ≡ hmap.capacity
  pub same_limit : hmap'.max_capacity ≡ hmap.max_capacity

some_eq : (a b : Str) → some a ≡ some b → a ≡ b
some_eq a b e = cc e

by_counts : (new old empty one : ℕ) → new + empty ≡ old + one → empty ≡ 0 → one ≡ 1 → suc old ≡ new
by_counts new old empty one e z o = omega arith

next_word :
    (curr capacity most : ℕ)
    → curr < capacity
    → capacity ≤ most
    → most + 32 < 2 ^ 32
    → u32 (curr + 1) ≡ suc curr
next_word curr capacity most lt le words = omega arith

module _ (hmap : Hmap) (v : IsValid hmap) (type : HmapType) (p : Option Str) (k : Str) (val : ℕ)
    (named : (type_index type == 0) ≡ false) (absent : find hmap.map p k ≡ none)
    (more : used hmap.map < hmap.capacity) where
  -- An empty slot is found, wherever the scan starts.
  empty_found :
      (i : ℕ) × (probe (is_empty hmap.map) hmap.capacity hmap.capacity (hmap_get_hash hmap p k)
        ≡ some i)
      × (is_empty hmap.map i ≡ true)
      × (i < hmap.capacity)
  empty_found =
      let test = is_empty hmap.map in
      let h = hmap_get_hash hmap p k in
      let below = hmap_get_hash_lem hmap p k v.least in
      elim (Option-cases (probe test hmap.capacity hmap.capacity h)) [
        | inl e ↦
            let (i, lt, t) = room hmap.map (subst (λ n. used hmap.map < n) (sym v.size) more) in
            absurd
              (cc (t, probe_none_lem test hmap.capacity h i below (subst (λ n. i < n) v.size lt) e))
        | inr (i, e) ↦
            let (t, lt) = probe_some_lem test hmap.capacity hmap.capacity h i below e in
            (i, e, t, lt)
      ]

  abbrev added_at : ℕ → Hmap
  added_at i = record hmap {
    map = set hmap.map i (new_kvp (slot hmap.map i) type p k val);
    curr_capacity = u32 (hmap.curr_capacity + 1);
  }

  add_at-some : (i : ℕ) → i < hmap.capacity → add_at hmap type p k val (some i) ≡ (ok, added_at i)
  unfolding hmap_kvp_update
  add_at-some i lt =
      ap (λ m. (ok, record hmap { map = m; curr_capacity = u32 (hmap.curr_capacity + 1) }))
        (filled_twice hmap.map i (filled (slot hmap.map i) type p k) val
          (subst (λ n. i < n) (sym v.size) lt))

  module _ (i : ℕ) (lt : i < hmap.capacity) (e : slot hmap.map i ≡ empty_kvp) where
    abbrev kvp : HmapKvp
    kvp = new_kvp (slot hmap.map i) type p k val

    kvp-prefix : kvp.prefix ≡ p
    kvp-prefix = ap (λ s. prefix_or p s.prefix) e ∙ prefix_or-none p

    new_IsSlot : IsSlot kvp
    new_IsSlot = used_slot k refl named

    others :
        (p' : Option Str) (k' : Str)
        → Owns kvp p' k'
        → (j : ℕ) → hmap_cmp (slot hmap.map j) p' k' ≡ false
    others p' k' o j =
        let (q, l) = Owns_lem kvp p' k' o in
        subst (λ q. hmap_cmp (slot hmap.map j) q k' ≡ false) (sym kvp-prefix ∙ q)
          (subst (λ m. hmap_cmp (slot hmap.map j) p m ≡ false) (some_eq k k' l)
            (find-none hmap.map p k absent j))

    counted : suc (used hmap.map) ≡ used (set hmap.map i kvp)
    unfolding type_index
    counted =
        by_counts (used (set hmap.map i kvp)) (used hmap.map) (in_use (slot hmap.map i))
          (in_use kvp) (used-set hmap.map i kvp (subst (λ n. i < n) (sym v.size) lt)) (ap in_use e)
          (skipped (type_index type == 0) 0 1 named)

    curr_word : u32 (hmap.curr_capacity + 1) ≡ suc hmap.curr_capacity
    curr_word =
        next_word hmap.curr_capacity hmap.capacity hmap.max_capacity
          (subst (λ n. n < hmap.capacity) (sym v.counted) more) v.most v.words

    added_at-IsAdded : IsAdded hmap (added_at i) type p k val
    unfolding hmap_cmp
    added_at-IsAdded = record {
      valid =
          IsValid-set hmap i kvp (u32 (hmap.curr_capacity + 1)) v lt new_IsSlot
            (λ j p' k' ne o. others p' k' o j) (curr_word ∙ ap suc v.counted ∙ counted);
      holds = λ p' k'.
          find-set hmap.map i kvp p' k' (subst (λ n. i < n) (sym v.size) lt)
            (λ o. absurd (cc (o, ap (λ s. hmap_cmp s p' k') e, empty_kvp_lem p' k')))
            (λ j ne o. others p' k' o j)
          ∙ ap (λ q. if cmp_fields q (some k) p' k' then some (type, val) else find hmap.map p' k')
              kvp-prefix;
      one_more = curr_word;
      same_size = refl;
      same_limit = refl;
    }

  pub add_value_lem :
      (hmap' : Hmap) × (add_value hmap type p k val ≡ (ok, hmap')) × IsAdded hmap hmap' type p k val
  unfolding add_value
  add_value_lem =
      let (i, found, t, lt) = empty_found in
      let e = is_empty_lem hmap.map i (v.slots i) t in
      (added_at i, ap (add_at hmap type p k val) found ∙ add_at-some i lt, added_at-IsAdded i lt e)
