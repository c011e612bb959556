-- ===== src/Hmap/Change.antt =====
-- hmap_update and hmap_del of lib/hmap/hmap.c on an entry that is there.
use pktgen_dpdk.Base.{
  ℕ, ◌+◌, ◌-◌, ◌<◌, ◌≤◌, ◌^◌, ◌≡◌, ◌≢◌, refl, sym, ap, ap₂, ◌∙◌, subst, inl, inr, false, Option,
  none, some, length, set, Bool-cases, ◌==◌, if◌then◌else◌, skipped, u32, arith,
}
use pktgen_dpdk.Hmap.State.{
  Str, HmapKvp, Hmap, type_index, empty_kvp, hmap_cmp, hmap_free, slot, cmp_fields,
}
use pktgen_dpdk.Hmap.Ops.{
  ok, hmap_kvp_lookup, hmap_kvp_update, updated_kvp, hmap_del, freed_at, put,
}
use pktgen_dpdk.Hmap.Find.{Owns, Distinct, find-set, content, empty_kvp_lem, find-clear, find}
use pktgen_dpdk.Hmap.Keys.{Owns_lem, hmap_cmp_same}
use pktgen_dpdk.Hmap.Slots.{
  IsSlot, free_slot, used_slot, used, used_le, in_use, used-set, slot-set_self,
}
use pktgen_dpdk.Hmap.Valid.{IsValid, IsValid-set, written}
use pktgen_dpdk.Hmap.Lookup.{entries, entries-find, lookup_some, read}
use pktgen_dpdk.Hmap.Add.{Holds}

-- A slot that stays in use keeps the count.
same_count : (new old a b : ℕ) → new + a ≡ old + b → a ≡ b → old ≡ new
same_count new old a b e f = omega arith

from_counts :
    (curr u new one : ℕ)
    → curr ≡ u
    → new + one ≡ u + 0
    → one ≡ 1
    → u < 2 ^ 32
    → u32 (curr + 2 ^ 32 - 1) ≡ new
from_counts curr u new one e s o lt = omega arith

one_less_lem :
    (curr u new one : ℕ)
    → curr ≡ u
    → new + one ≡ u + 0
    → one ≡ 1
    → u < 2 ^ 32
    → u32 (curr + 2 ^ 32 - 1) ≡ curr - 1
one_less_lem curr u new one e s o lt = omega arith

module _ (hmap : Hmap) (v : IsValid hmap) (p : Option Str) (k : Str) (i : ℕ)
    (found : hmap_kvp_lookup hmap p (some k) ≡ some i) where
  abbrev pub old : HmapKvp
  old = slot hmap.map i

  owned : Owns old p k
  owned = (lookup_some hmap v p k i found).0

  below : i < length hmap.map
  below = subst (λ n. i < n) (sym v.size) (lookup_some hmap v p k i found).1

  -- The test for the entry is the test for the slot.
  same_test : (p' : Option Str) (k' : Str) → hmap_cmp old p' k' ≡ cmp_fields p (some k) p' k'
  unfolding hmap_cmp
  same_test p' k' = let (q, l) = Owns_lem old p k owned in ap₂ (λ q l. cmp_fields q l p' k') q l

  -- No other slot holds an entry of this one.
  alone :
      (j : ℕ) (p' : Option Str) (k' : Str)
      → j ≢ i
      → Owns old p' k'
      → hmap_cmp (slot hmap.map j) p' k' ≡ false
  unfolding Distinct
  alone j p' k' ne o = elim (Bool-cases (hmap_cmp (slot hmap.map j) p' k')) [
    | inl t ↦ absurd (ne (v.distinct j i p' k' t o))
    | inr f ↦ f
  ]

  pub entry_read : entries hmap p k ≡ some (content old)
  unfolding entries
  entry_read = ap (read hmap.map) found

  -- A new value and count for the entry.
  module _ (new : HmapKvp) (prefixes : new.prefix ≡ old.prefix) (keys : new.key ≡ old.key)
      (types : new.type ≡ old.type) where
    abbrev pub replaced : Hmap
    replaced = put hmap i new

    same_cmp : (p' : Option Str) (k' : Str) → hmap_cmp new p' k' ≡ hmap_cmp old p' k'
    same_cmp = hmap_cmp_same new old prefixes keys

    new_IsSlot : IsSlot old → IsSlot new
    new_IsSlot (free_slot e) = absurd (cc (owned, ap (λ s. hmap_cmp s p k) e, empty_kvp_lem p k))
    new_IsSlot (used_slot l key ne) =
        used_slot l (keys ∙ key) (ap (λ t. type_index t == 0) types ∙ ne)

    replaced-IsValid : IsValid replaced
    replaced-IsValid =
        IsValid-set hmap i new hmap.curr_capacity v (lookup_some hmap v p k i found).1
          (new_IsSlot (v.slots i)) (λ j p' k' ne o. alone j p' k' ne (sym (same_cmp p' k') ∙ o))
          (v.counted
            ∙ same_count (used (set hmap.map i new)) (used hmap.map) (in_use old) (in_use new)
                (used-set hmap.map i new below)
                (ap (λ t. if type_index t == 0 then 0 else 1) (sym types)))

    pub replaced_lem :
        Holds replaced (written (entries hmap) p k (some (old.type, new.v))) hmap.curr_capacity
    replaced_lem = record {
      valid = replaced-IsValid;
      holds = λ p' k'.
          entries-find replaced replaced-IsValid p' k'
          ∙ find-set hmap.map i new p' k' below (λ o. same_cmp p' k' ∙ o)
              (λ j ne o. alone j p' k' ne (sym (same_cmp p' k') ∙ o))
          ∙ ap (λ t. if hmap_cmp new p' k' then some (t, new.v) else find hmap.map p' k') types
          ∙ ap₂ (λ b m. if b then some (old.type, new.v) else m) (same_cmp p' k' ∙ same_test p' k')
              (sym (entries-find hmap v p' k'));
      counts = refl;
    }

    -- A lookup then reads the new slot.
    pub replaced_read :
        (i' : ℕ) → hmap_kvp_lookup replaced p (some k) ≡ some i' → slot replaced.map i' ≡ new
    unfolding Distinct
    replaced_read i' found' =
        let o = (lookup_some replaced replaced-IsValid p k i' found').0 in
        let self = slot-set_self hmap.map i new below in
        let at =
          replaced-IsValid.distinct i' i p k o
            (subst (λ s. Owns s p k) (sym self) (same_cmp p k ∙ owned)) in
        ap (slot replaced.map) at ∙ self

  pub updated_lem :
      (val : ℕ)
      → Holds
          (hmap_kvp_update hmap i val)
          (written (entries hmap) p k (some (old.type, val)))
          hmap.curr_capacity
  unfolding hmap_kvp_update
  updated_lem val = replaced_lem (updated_kvp old val) refl refl refl

  abbrev pub deleted : Hmap
  deleted = record hmap {
    map = set hmap.map i empty_kvp;
    curr_capacity = u32 (hmap.curr_capacity + 2 ^ 32 - 1);
  }

  pub hmap_del-some : hmap_del hmap p (some k) ≡ (ok, deleted)
  unfolding hmap_del hmap_free
  hmap_del-some =
      ap
        (λ o. (
          ok,
          record (freed_at hmap o) {
            curr_capacity = u32 ((freed_at hmap o).curr_capacity + 2 ^ 32 - 1);
          },
        ))
        found
      ∙ ap
          (λ f. (
            ok,
            record hmap {
              map = set hmap.map i (f old);
              curr_capacity = u32 (hmap.curr_capacity + 2 ^ 32 - 1);
            },
          ))
          v.frees

  one_used : in_use old ≡ 1
  one_used = slot_used old (v.slots i) owned
    where
      slot_used : (s : HmapKvp) → IsSlot s → Owns s p k → in_use s ≡ 1
      slot_used s (free_slot e) o = absurd (cc (o, ap (λ s. hmap_cmp s p k) e, empty_kvp_lem p k))
      slot_used s (used_slot l key ne) o = skipped (type_index s.type == 0) 0 1 ne

  in_words : used hmap.map < 2 ^ 32
  in_words =
      fits (used hmap.map) (length hmap.map) hmap.capacity hmap.max_capacity (used_le hmap.map)
        v.size v.most v.words
    where
      fits : (u l c m : ℕ) → u ≤ l → l ≡ c → c ≤ m → m + 32 < 2 ^ 32 → u < 2 ^ 32
      fits u l c m a b d e = omega arith

  one_less : u32 (hmap.curr_capacity + 2 ^ 32 - 1) ≡ used (set hmap.map i empty_kvp)
  unfolding type_index
  one_less =
      from_counts hmap.curr_capacity (used hmap.map) (used (set hmap.map i empty_kvp)) (in_use old)
        v.counted (used-set hmap.map i empty_kvp below) one_used in_words

  deleted-IsValid : IsValid deleted
  deleted-IsValid =
      IsValid-set hmap i empty_kvp (u32 (hmap.curr_capacity + 2 ^ 32 - 1)) v
        (lookup_some hmap v p k i found).1 (free_slot refl)
        (λ j p' k' ne o. absurd (cc (o, empty_kvp_lem p' k'))) one_less

  pub deleted_lem : Holds deleted (written (entries hmap) p k none) (hmap.curr_capacity - 1)
  unfolding type_index
  deleted_lem = record {
    valid = deleted-IsValid;
    holds = λ p' k'.
        entries-find deleted deleted-IsValid p' k'
        ∙ find-clear hmap.map i p' k' below (λ j ne o. alone j p' k' ne o)
        ∙ ap₂ (λ b m. if b then none else m) (same_test p' k') (sym (entries-find hmap v p' k'));
    counts =
        one_less_lem hmap.curr_capacity (used hmap.map) (used (set hmap.map i empty_kvp))
          (in_use old) v.counted (used-set hmap.map i empty_kvp below) one_used in_words;
  }
