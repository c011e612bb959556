-- ===== src/Hmap/Listing.antt =====
-- hmap_list of lib/hmap/hmap.c: the loop that collects the entries for its array.
use pktgen_dpdk.Base.{
  ℕ, zero, suc, ◌+◌, ◌-◌, ◌<◌, ◌≤◌, ◌≡◌, refl, sym, ap, ◌∙◌, subst, inl, inr, true, false, Option,
  none, some, List, [], ◌∷◌, length, drop, Bool-cases, ◌==◌, taken, skipped, arith,
}
use pktgen_dpdk.Hmap.State.{HmapKvp, Hmap, type_index, slot, hmap_count}
use pktgen_dpdk.Hmap.Ops.{has_key, next_slot, hmap_iterate}
use pktgen_dpdk.Hmap.Slots.{IsSlot, free_slot, used_slot, used, in_use}
use pktgen_dpdk.Hmap.Valid.{IsValid}

abbrev prepend : HmapKvp → Option (List HmapKvp) → Option (List HmapKvp)
prepend kvp none = none
prepend kvp (some l) = some (kvp ∷ l)

-- `for (i = 0; hmap_iterate(hmap, &kvp, &next); i++) kvp_list[i] = kvp;` on fuel.
unfoldable pub kvp_list : Hmap → (fuel next : ℕ) → Option (List HmapKvp)
kvp_list hmap zero next = none
kvp_list hmap (suc fuel) next = elim (hmap_iterate hmap next) [
  | none ↦ some []
  | some r ↦ prepend (slot hmap.map (r.0)) (kvp_list hmap fuel (r.1))
]

abbrev elim_iterate : Hmap → (fuel : ℕ) → Option (ℕ × ℕ) → Option (List HmapKvp)
elim_iterate hmap fuel o = elim o [
  | none ↦ some []
  | some r ↦ prepend (slot hmap.map (r.0)) (kvp_list hmap fuel (r.1))
]

used-drop :
    (map : List HmapKvp) (i : ℕ)
    → i < length map
    → used (drop i map) ≡ in_use (slot map i) + used (drop (suc i) map)
unfolding used
used-drop [] i lt = absurd (omega arith)
used-drop (kvp ∷ map) zero lt = refl
used-drop (kvp ∷ map) (suc i) lt = used-drop map i (omega arith)

used-drop_all : (map : List HmapKvp) (i : ℕ) → length map ≤ i → used (drop i map) ≡ 0
unfolding used
used-drop_all [] zero le = refl
used-drop_all [] (suc i) le = refl
used-drop_all (kvp ∷ map) zero le = absurd (omega arith)
used-drop_all (kvp ∷ map) (suc i) le = used-drop_all map i (omega arith)

past : (i l : ℕ) → i + 0 ≡ l → l ≤ i
past i l e = omega arith

same : (i : ℕ) → i ≤ i
same i = omega arith

one_more : (n : ℕ) → 1 + n ≡ suc n
one_more n = omega arith

no_more : (n : ℕ) → 0 + n ≡ n
no_more n = omega arith

-- A slot with a key is one in use.
with_key : (kvp : HmapKvp) → IsSlot kvp → has_key kvp ≡ true → in_use kvp ≡ 1
unfolding has_key
with_key kvp (free_slot e) t = absurd (cc (t, ap has_key e))
with_key kvp (used_slot k e ne) t = skipped (type_index kvp.type == 0) 0 1 ne

without_key : (kvp : HmapKvp) → IsSlot kvp → has_key kvp ≡ false → in_use kvp ≡ 0
unfolding has_key type_index
without_key kvp (free_slot e) f = ap in_use e
without_key kvp (used_slot k e ne) f =
    absurd (cc (f, ap (λ o. elim o [ none ↦ false | some k ↦ true ]) e))

module _ (map : List HmapKvp) (slots : (i : ℕ) → IsSlot (slot map i)) where
  -- What hmap_iterate gives from an index on: the next slot in use, or none is left.
  Next : (i : ℕ) → Option (ℕ × ℕ) → Type 0
  Next i none = used (drop i map) ≡ 0
  Next i (some (j, next)) =
      (i ≤ j) × (j < length map) × (next ≡ suc j) × (used (drop i map) ≡ suc (used (drop next map)))

  widen :
      (i : ℕ) (o : Option (ℕ × ℕ))
      → used (drop i map) ≡ used (drop (suc i) map)
      → Next (suc i) o
      → Next i o
  unfolding Next
  widen i none same rest = same ∙ rest
  widen i (some (j, next)) same (le, lt, e, count) = (omega arith, lt, e, same ∙ count)

  next_slot_lem : (n i : ℕ) → i + n ≡ length map → Next i (next_slot map n i)
  unfolding Next next_slot
  next_slot_lem zero i e = used-drop_all map i (past i (length map) e)
  next_slot_lem (suc n) i e =
      let below : i < length map = omega arith in
      let step = used-drop map i below in
      elim (Bool-cases (has_key (slot map i))) [
        | inl t ↦ subst (Next i) (sym (taken (has_key (slot map i)) _ _ t)) (
          same i,
          below,
          refl,
          step
              ∙ ap (λ n. n + used (drop (suc i) map)) (with_key (slot map i) (slots i) t)
              ∙ one_more _,
        )
        | inr f ↦ subst (Next i) (sym (skipped (has_key (slot map i)) _ _ f)) (
            widen i (next_slot map n (suc i))
              (step
                ∙ ap (λ n. n + used (drop (suc i) map)) (without_key (slot map i) (slots i) f)
                ∙ no_more _)
              (next_slot_lem n (suc i) (omega arith)))
      ]

module _ (hmap : Hmap) (v : IsValid hmap) where
  -- What the loop collects from an index on.
  Collects : (next : ℕ) → Option (List HmapKvp) → Type 0
  Collects next o = (l : List HmapKvp) × (o ≡ some l) × (length l ≡ used (drop next hmap.map))

  collect_one :
      (fuel next : ℕ) (o : Option (ℕ × ℕ))
      → hmap_iterate hmap next ≡ o
      → Next hmap.map v.slots next o
      → ((next' : ℕ)
          → next < next'
          → next' ≤ hmap.capacity
          → Collects next' (kvp_list hmap fuel next'))
      → Collects next (kvp_list hmap (suc fuel) next)
  unfolding kvp_list Next Collects
  collect_one fuel next none e none_left rest = ([], ap (elim_iterate hmap fuel) e, sym none_left)
  collect_one fuel next (some (j, next')) e (le, lt, at, count) rest =
      let (l, got, len) = rest next' (omega arith) (subst (λ n. next' ≤ n) v.size (omega arith)) in
      (
        slot hmap.map j ∷ l,
        ap (elim_iterate hmap fuel) e ∙ ap (prepend (slot hmap.map j)) got,
        ap suc len ∙ sym count,
      )

  iterate-Next :
      (next : ℕ) → next ≤ hmap.capacity → Next hmap.map v.slots next (hmap_iterate hmap next)
  unfolding hmap_iterate
  iterate-Next next le =
      next_slot_lem hmap.map v.slots (hmap.capacity - next) next
        (whole next hmap.capacity le ∙ sym v.size)
    where
      whole : (a b : ℕ) → a ≤ b → a + (b - a) ≡ b
      whole a b le = omega arith

  collects :
      (fuel next : ℕ)
      → next ≤ hmap.capacity
      → hmap.capacity < fuel + next
      → Collects next (kvp_list hmap fuel next)
  collects zero next le lt = absurd (omega arith)
  collects (suc fuel) next le lt =
      collect_one fuel next (hmap_iterate hmap next) refl (iterate-Next next le)
        (λ next' more most. collects fuel next' most (omega arith))

  -- hmap_list's loop ends within one call of hmap_iterate more than there are slots, and collects as
  -- many entries as hmap_count says: the size of the array that it writes them to.
  pub kvp_list-hmap_count :
      (l : List HmapKvp) × (kvp_list hmap (suc hmap.capacity) 0 ≡ some l)
      × (length l ≡ hmap_count hmap)
  unfolding Collects hmap_count
  kvp_list-hmap_count =
      let (l, got, len) = collects (suc hmap.capacity) 0 (omega arith) (omega arith) in
      (l, got, len ∙ sym v.counted)
