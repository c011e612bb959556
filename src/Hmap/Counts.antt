-- ===== src/Hmap/Counts.antt =====
-- The element counts that hmap_add of lib/hmap/hmap.c leaves.
use pktgen_dpdk.Base.{
  ℕ, zero, suc, ◌+◌, ◌≡◌, refl, sym, ap, ◌∙◌, subst, ◌⊎◌, inl, inr, Bool, true, false, Bool-cases,
  Option, none, some, List, [], ◌∷◌, set, ltb, ◌==◌, if◌then◌else◌, taken, skipped, u32,
}
use pktgen_dpdk.Hmap.State.{
  Str, HmapType, HmapKvp, Hmap, type_index, str_array_type, empty_type, slot, hmap_get_hash,
}
use pktgen_dpdk.Hmap.Ops.{
  Ret, ok, err, and_then, probe, is_empty, filled, updated_kvp, hmap_kvp_update, add_at, add_value,
  key_of, add_slots, grown, restored, must_grow, hmap_update_capacity, grow_and_add,
  hmap_kvp_lookup, hmap_add,
}
use pktgen_dpdk.Hmap.Slots.{slot-replicate}
use pktgen_dpdk.Hmap.Valid.{IsValid, written}
use pktgen_dpdk.Hmap.Lookup.{entries}
use pktgen_dpdk.Hmap.Grow.{HasRoom}
use pktgen_dpdk.Hmap.Add.{Holds, hmap_add_lem}

AllZero : List HmapKvp → Type 0
AllZero map = (j : ℕ) → (slot map j).count ≡ 0

AllZero-set :
    (map : List HmapKvp) (i : ℕ) (kvp : HmapKvp)
    → kvp.count ≡ 0
    → AllZero map
    → AllZero (set map i kvp)
unfolding AllZero
AllZero-set [] i kvp e z j = z j
AllZero-set (x ∷ map) zero kvp e z zero = e
AllZero-set (x ∷ map) zero kvp e z (suc j) = z (suc j)
AllZero-set (x ∷ map) (suc i) kvp e z zero = z zero
AllZero-set (x ∷ map) (suc i) kvp e z (suc j) = AllZero-set map i kvp e (λ j. z (suc j)) j

count_updated : (kvp : HmapKvp) (val : ℕ) → kvp.count ≡ 0 → (updated_kvp kvp val).count ≡ 0
count_updated kvp val e = by_type (ltb (type_index kvp.type) (type_index str_array_type))
  where
    by_type : (b : Bool) → (if b then 0 else kvp.count) ≡ 0
    by_type true = refl
    by_type false = e

add_at-AllZero :
    (hmap : Hmap) (type : HmapType) (p : Option Str) (k : Str) (val : ℕ) (o : Option ℕ)
    → AllZero hmap.map
    → AllZero (add_at hmap type p k val o).1.map
unfolding AllZero hmap_kvp_update
add_at-AllZero hmap type p k val none z = z
add_at-AllZero hmap type p k val (some i) z =
    let kvp = filled (slot hmap.map i) type p k in
    let first = AllZero-set hmap.map i kvp (z i) z in
    AllZero-set (set hmap.map i kvp) i (updated_kvp (slot (set hmap.map i kvp) i) val)
      (count_updated (slot (set hmap.map i kvp) i) val (first i)) first

add_value-AllZero :
    (hmap : Hmap) (type : HmapType) (p : Option Str) (k : Str) (val : ℕ)
    → AllZero hmap.map
    → AllZero (add_value hmap type p k val).1.map
unfolding add_value
add_value-AllZero hmap type p k val z =
    add_at-AllZero hmap type p k val
      (probe (is_empty hmap.map) hmap.capacity hmap.capacity (hmap_get_hash hmap p k)) z

add_slots-AllZero :
    (old : List HmapKvp) (hmap : Hmap) → AllZero hmap.map → AllZero (add_slots hmap old).1.map
unfolding add_slots
add_slots-AllZero [] hmap z = z
add_slots-AllZero (kvp ∷ old) hmap z =
    by_test (add_slots hmap old)
      (and_then (add_value hmap kvp.type kvp.prefix (key_of kvp) kvp.v)
        (λ hmap. add_slots hmap old))
      (type_index kvp.type == type_index empty_type) (add_slots-AllZero old hmap z)
      (behind (add_value hmap kvp.type kvp.prefix (key_of kvp) kvp.v)
        (add_value-AllZero hmap kvp.type kvp.prefix (key_of kvp) kvp.v z) (add_slots-AllZero old))
  where
    by_test :
        (a b : Ret × Hmap) (t : Bool)
        → AllZero a.1.map
        → AllZero b.1.map
        → AllZero (if t then a else b).1.map
    by_test a b true za zb = za
    by_test a b false za zb = zb

    behind :
        (r : Ret × Hmap)
        → AllZero r.1.map
        → ((hmap : Hmap) → AllZero hmap.map → AllZero (add_slots hmap old).1.map)
        → AllZero (and_then r (λ hmap. add_slots hmap old)).1.map
    behind (ok, hmap) z f = f hmap z
    behind (err, hmap) z f = z

set_twice : (map : List HmapKvp) (i : ℕ) (a b : HmapKvp) → set (set map i a) i b ≡ set map i b
set_twice [] i a b = refl
set_twice (x ∷ map) zero a b = refl
set_twice (x ∷ map) (suc i) a b = ap (λ l. x ∷ l) (set_twice map i a b)

-- An entry is written to one slot.
add_value-set :
    (hmap hmap' : Hmap) (type : HmapType) (p : Option Str) (k : Str) (val : ℕ)
    → add_value hmap type p k val ≡ (ok, hmap')
    → (i : ℕ) × (kvp : HmapKvp) × (hmap'.map ≡ set hmap.map i kvp)
unfolding add_value hmap_kvp_update
add_value-set hmap hmap' type p k val e =
    go (probe (is_empty hmap.map) hmap.capacity hmap.capacity (hmap_get_hash hmap p k)) e
  where
    go :
        (o : Option ℕ)
        → add_at hmap type p k val o ≡ (ok, hmap')
        → (i : ℕ) × (kvp : HmapKvp) × (hmap'.map ≡ set hmap.map i kvp)
    go none e = absurd cc
    go (some i) e = (
      i,
      updated_kvp (slot (set hmap.map i (filled (slot hmap.map i) type p k)) i) val,
      sym (ap (λ (r : Ret × Hmap). r.1.map) e)
          ∙ set_twice hmap.map i (filled (slot hmap.map i) type p k) _,
    )

-- What becomes of the counts: without growth one slot is written and all others stay, with growth every
-- count of the new table is 0.
pub KeepsCounts : (hmap hmap' : Hmap) → Type 0
KeepsCounts hmap hmap' =
    ((must_grow hmap ≡ false) × (i : ℕ) × (kvp : HmapKvp) × (hmap'.map ≡ set hmap.map i kvp))
    ⊎ ((must_grow hmap ≡ true) × ((j : ℕ) → (slot hmap'.map j).count ≡ 0))

grown-AllZero : (hmap : Hmap) → AllZero (grown hmap).map
unfolding AllZero
grown-AllZero hmap j = ap (λ (s : HmapKvp). s.count) (slot-replicate (u32 (hmap.capacity + 32)) j)

-- What follows a step that returned 0.
after_ok :
    (r : Ret × Hmap) (next : Hmap → Ret × Hmap) (hmap' : Hmap)
    → and_then r next ≡ (ok, hmap')
    → (m : Hmap) × (r ≡ (ok, m)) × (next m ≡ (ok, hmap'))
after_ok (ok, m) next hmap' e = (m, refl, e)
after_ok (err, m) next hmap' e = absurd cc

restored_ok : (old : Hmap) (r : Ret × Hmap) (m : Hmap) → restored old r ≡ (ok, m) → r.1.map ≡ m.map
restored_ok old (ok, r) m e = ap (λ (r : Ret × Hmap). r.1.map) e
restored_ok old (err, r) m e = absurd cc

add_value-zero :
    (hmap hmap' : Hmap) (type : HmapType) (p : Option Str) (k : Str) (val : ℕ)
    → AllZero hmap.map
    → add_value hmap type p k val ≡ (ok, hmap')
    → AllZero hmap'.map
add_value-zero hmap hmap' type p k val z e =
    subst (λ (r : Ret × Hmap). AllZero r.1.map) e (add_value-AllZero hmap type p k val z)

grow_and_add-KeepsCounts :
    (hmap hmap' : Hmap) (type : HmapType) (p : Option Str) (k : Str) (val : ℕ)
    → grow_and_add hmap type p k val ≡ (ok, hmap')
    → KeepsCounts hmap hmap'
unfolding grow_and_add hmap_update_capacity KeepsCounts AllZero
grow_and_add-KeepsCounts hmap hmap' type p k val e =
    let (m, grew, added) =
      after_ok (hmap_update_capacity hmap) (λ hmap. add_value hmap type p k val) hmap' e in
    elim (Bool-cases (must_grow hmap)) [
      | inl t ↦
          let filled =
            restored_ok hmap (add_slots (grown hmap) hmap.map) m
              (sym (taken (must_grow hmap) _ _ t) ∙ grew) in
          inr (
            t,
            add_value-zero m hmap' type p k val
                (subst AllZero filled
                  (add_slots-AllZero hmap.map (grown hmap) (grown-AllZero hmap)))
                added,
          )
      | inr f ↦
          let same = sym (skipped (must_grow hmap) _ _ f) ∙ grew in
          let (i, kvp, written) = add_value-set m hmap' type p k val added in
          inl (
            f,
            i,
            kvp,
            written ∙ ap (λ l. set l i kvp) (sym (ap (λ (r : Ret × Hmap). r.1.map) same)),
          )
    ]

hmap_add-KeepsCounts :
    (hmap hmap' : Hmap) (type : HmapType) (p : Option Str) (k : Str) (val : ℕ)
    → hmap_add hmap type p (some k) val ≡ (ok, hmap')
    → KeepsCounts hmap hmap'
unfolding hmap_add
hmap_add-KeepsCounts hmap hmap' type p k val e = go (hmap_kvp_lookup hmap p (some k)) e
  where
    go :
        (o : Option ℕ)
        → elim o [ some i ↦ (err, hmap) | none ↦ grow_and_add hmap type p k val ] ≡ (ok, hmap')
        → KeepsCounts hmap hmap'
    go none e = grow_and_add-KeepsCounts hmap hmap' type p k val e
    go (some i) e = absurd cc

-- hmap_add of a prefix and a key that a valid map does not hold, of a type other than the empty one,
-- succeeds while the map has an empty slot or may grow by 32. By the lookups the new map holds that
-- entry and has all others with the type and the value that they had; it is valid, and counts one more.
-- Where the table does not grow all slots but one stay as they were; where it grows the element count
-- of every entry is 0 afterwards, that of an array too.
pub hmap_add-entries :
    (hmap : Hmap) (type : HmapType) (p : Option Str) (k : Str) (val : ℕ)
    → IsValid hmap
    → (type_index type == 0) ≡ false
    → HasRoom hmap
    → entries hmap p k ≡ none
    → (hmap' : Hmap) × (hmap_add hmap type p (some k) val ≡ (ok, hmap'))
      × Holds hmap' (written (entries hmap) p k (some (type, val))) (suc hmap.curr_capacity)
      × KeepsCounts hmap hmap'
hmap_add-entries hmap type p k val v named room absent =
    let (hmap', done, h) = hmap_add_lem hmap type p k val v named room absent in
    (hmap', done, h, hmap_add-KeepsCounts hmap hmap' type p k val done)
