-- ===== src/Hmap/Refine.antt =====
-- What the operations of lib/hmap/hmap.c do to the entries of a map, on every branch.
use pktgen_dpdk.Base.{
  ℕ, ◌+◌, ◌-◌, ◌^◌, ◌≡◌, ◌≢◌, refl, ap, ◌∙◌, subst, ◌⊎◌, inl, inr, Option, none, some, ◌==◌, eq→==,
  if◌then◌else◌, taken, u32, false, sym, skipped, true,
}
use pktgen_dpdk.Hmap.State.{Str, HmapType, Hmap, type_index, slot}
use pktgen_dpdk.Hmap.Ops.{
  Ret, ok, err, grow_and_add, hmap_kvp_lookup, hmap_kvp_update, hmap_add, hmap_update, hmap_del,
  freed_at,
}
use pktgen_dpdk.Hmap.Find.{content}
use pktgen_dpdk.Hmap.Valid.{IsValid, written}
use pktgen_dpdk.Hmap.Lookup.{entries, read}
use pktgen_dpdk.Hmap.Add.{Holds, absent_lookup}
use pktgen_dpdk.Hmap.Change.{updated_lem, hmap_del-some, deleted, deleted_lem}
use pktgen_dpdk.Hmap.Full.{IsFull, grow_and_add_full}

-- The slot behind an entry.
pub behind :
    (hmap : Hmap) (p : Option Str) (k : Str) (c : HmapType × ℕ)
    → entries hmap p k ≡ some c
    → (i : ℕ) × (hmap_kvp_lookup hmap p (some k) ≡ some i) × (content (slot hmap.map i) ≡ c)
unfolding entries
behind hmap p k c e = go (hmap_kvp_lookup hmap p (some k)) refl e
  where
    go :
        (o : Option ℕ)
        → hmap_kvp_lookup hmap p (some k) ≡ o
        → read hmap.map o ≡ some c
        → (i : ℕ) × (hmap_kvp_lookup hmap p (some k) ≡ some i) × (content (slot hmap.map i) ≡ c)
    go none e f = absurd cc
    go (some i) e f = (i, e, got (content (slot hmap.map i)) c f)
      where
        got : (a b : HmapType × ℕ) → some a ≡ some b → a ≡ b
        got a b q = cc q

-- hmap_update behind its lookup.
abbrev after_lookup : Hmap → HmapType → Option Str → Str → (val : ℕ) → Option ℕ → Ret × Hmap
after_lookup hmap type p k val o = elim o [
  | some i ↦
      if type_index (slot hmap.map i).type == type_index type
      then (ok, hmap_kvp_update hmap i val)
      else (err, hmap)
  | none ↦ grow_and_add hmap type p k val
]

-- hmap_update of an entry of a type with the same number.
pub hmap_update_same :
    (hmap : Hmap) (type t : HmapType) (p : Option Str) (k : Str) (val w : ℕ)
    → IsValid hmap
    → entries hmap p k ≡ some (t, w)
    → (type_index t == type_index type) ≡ true
    → (hmap' : Hmap) × (hmap_update hmap type p (some k) val ≡ (ok, hmap'))
      × Holds hmap' (written (entries hmap) p k (some (t, val))) hmap.curr_capacity
unfolding hmap_update
hmap_update_same hmap type t p k val w v e numbers =
    let (i, found, c) = behind hmap p k (t, w) e in
    let same : (slot hmap.map i).type ≡ t = ap (λ c. c.0) c in
    (
      hmap_kvp_update hmap i val,
      ap (after_lookup hmap type p k val) found
          ∙ taken (type_index (slot hmap.map i).type == type_index type) _ _
              (ap (λ t. type_index t == type_index type) same ∙ numbers),
      subst
          (λ t.
            Holds (hmap_kvp_update hmap i val) (written (entries hmap) p k (some (t, val)))
              hmap.curr_capacity)
          same (updated_lem hmap v p k i found val),
    )

-- hmap_update of an entry that is there with the same type writes its value, keeps all other
-- entries, and the count.
pub hmap_update_lem :
    (hmap : Hmap) (type : HmapType) (p : Option Str) (k : Str) (val w : ℕ)
    → IsValid hmap
    → entries hmap p k ≡ some (type, w)
    → (hmap' : Hmap) × (hmap_update hmap type p (some k) val ≡ (ok, hmap'))
      × Holds hmap' (written (entries hmap) p k (some (type, val))) hmap.curr_capacity
hmap_update_lem hmap type p k val w v e =
    hmap_update_same hmap type type p k val w v e (eq→== (type_index type) (type_index type) refl)

-- hmap_add of an entry that is there, and hmap_update of one with another type, change nothing; and
-- neither does either of them add an entry to a full map.
pub hmap_add-refused :
    (hmap : Hmap) (type : HmapType) (p : Option Str) (k : Str) (val : ℕ)
    → IsValid hmap
    → (entries hmap p k ≢ none) ⊎ IsFull hmap
    → hmap_add hmap type p (some k) val ≡ (err, hmap)
unfolding hmap_add entries
hmap_add-refused hmap type p k val v why = go (hmap_kvp_lookup hmap p (some k)) refl why
  where
    go :
        (o : Option ℕ)
        → hmap_kvp_lookup hmap p (some k) ≡ o
        → (read hmap.map o ≢ none) ⊎ IsFull hmap
        → elim o [ some i ↦ (err, hmap) | none ↦ grow_and_add hmap type p k val ] ≡ (err, hmap)
    go (some i) e why = refl
    go none e (inl ne) = absurd (ne refl)
    go none e (inr full) = grow_and_add_full hmap v full type p k val

-- hmap_del of an entry that is there removes it, keeps all others, and counts it off.
pub hmap_del_lem :
    (hmap : Hmap) (p : Option Str) (k : Str) (c : HmapType × ℕ)
    → IsValid hmap
    → entries hmap p k ≡ some c
    → (hmap' : Hmap) × (hmap_del hmap p (some k) ≡ (ok, hmap'))
      × Holds hmap' (written (entries hmap) p k none) (hmap.curr_capacity - 1)
hmap_del_lem hmap p k c v e =
    let (i, found, same) = behind hmap p k c e in
    (deleted hmap v p k i found, hmap_del-some hmap v p k i found, deleted_lem hmap v p k i found)

-- hmap_del of an entry that is not there reports success and counts one off, from 0 to the largest
-- 32-bit number.
pub hmap_del_missing :
    (hmap : Hmap) (p : Option Str) (k : Str)
    → entries hmap p k ≡ none
    → hmap_del hmap p (some k)
      ≡ (ok, record hmap { curr_capacity = u32 (hmap.curr_capacity + 2 ^ 32 - 1) })
unfolding hmap_del
hmap_del_missing hmap p k e =
    ap
      (λ o. (
        ok,
        record (freed_at hmap o) {
          curr_capacity = u32 ((freed_at hmap o).curr_capacity + 2 ^ 32 - 1);
        },
      ))
      (absent_lookup hmap p k e)

-- hmap_update of an entry that is not there is hmap_add.
pub hmap_update-hmap_add :
    (hmap : Hmap) (type : HmapType) (p : Option Str) (k : Str) (val : ℕ)
    → entries hmap p k ≡ none
    → hmap_update hmap type p (some k) val ≡ hmap_add hmap type p (some k) val
unfolding hmap_update hmap_add
hmap_update-hmap_add hmap type p k val e =
    ap (after_lookup hmap type p k val) (absent_lookup hmap p k e)
    ∙ sym (
        ap (λ o. elim o [ some i ↦ (err, hmap) | none ↦ grow_and_add hmap type p k val ])
          (absent_lookup hmap p k e))

-- hmap_update of an entry that is there with another type changes nothing.
pub hmap_update_mismatch :
    (hmap : Hmap) (type t : HmapType) (p : Option Str) (k : Str) (val w : ℕ)
    → entries hmap p k ≡ some (t, w)
    → (type_index t == type_index type) ≡ false
    → hmap_update hmap type p (some k) val ≡ (err, hmap)
unfolding hmap_update
hmap_update_mismatch hmap type t p k val w e ne =
    let (i, found, c) = behind hmap p k (t, w) e in
    ap (after_lookup hmap type p k val) found
    ∙ skipped (type_index (slot hmap.map i).type == type_index type) _ _
        (ap (λ t. type_index t == type_index type) (ap (λ c. c.0) c) ∙ ne)
