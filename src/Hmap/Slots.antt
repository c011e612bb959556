-- ===== src/Hmap/Slots.antt =====
-- The invariant of a table of lib/hmap, slot by slot, under the writes of its operations.
use pktgen_dpdk.Base.{
  ℕ, zero, suc, ◌+◌, ◌<◌, ◌≡◌, ◌≢◌, refl, sym, ap, ◌∙◌, subst, ◌⊎◌, inl, inr, Bool, true, false,
  Option, some, List, [], ◌∷◌, length, set, replicate, if◌then◌else◌, Bool-cases, ◌==◌, arith, ◌≤◌,
}
use pktgen_dpdk.Hmap.State.{Str, HmapKvp, type_index, empty_kvp, hmap_cmp, slot}
use pktgen_dpdk.Hmap.Ops.{is_empty}
use pktgen_dpdk.Hmap.Find.{Owns, Distinct, empty_kvp_lem}

-- A slot is as calloc and the free function leave it, or it has a key and a type.
pub data IsSlot (kvp : HmapKvp) : Type 0 where
  free_slot : kvp ≡ empty_kvp → IsSlot kvp
  used_slot : (k : Str) → kvp.key ≡ some k → (type_index kvp.type == 0) ≡ false → IsSlot kvp

pub slot-set_self :
    (map : List HmapKvp) (j : ℕ) (kvp : HmapKvp) → j < length map → slot (set map j kvp) j ≡ kvp
slot-set_self [] j kvp lt = absurd (omega arith)
slot-set_self (x ∷ map) zero kvp lt = refl
slot-set_self (x ∷ map) (suc j) kvp lt = slot-set_self map j kvp (omega arith)

pub slot-set_ne :
    (map : List HmapKvp) (j i : ℕ) (kvp : HmapKvp) → i ≢ j → slot (set map j kvp) i ≡ slot map i
slot-set_ne [] j i kvp ne = refl
slot-set_ne (x ∷ map) zero zero kvp ne = absurd (ne refl)
slot-set_ne (x ∷ map) zero (suc i) kvp ne = refl
slot-set_ne (x ∷ map) (suc j) zero kvp ne = refl
slot-set_ne (x ∷ map) (suc j) (suc i) kvp ne = slot-set_ne map j i kvp (λ e. ne (ap suc e))

pub slot-replicate : (n i : ℕ) → slot (replicate n empty_kvp) i ≡ empty_kvp
slot-replicate zero i = refl
slot-replicate (suc n) zero = refl
slot-replicate (suc n) (suc i) = slot-replicate n i

same_index : (i j : ℕ) → (i ≡ j) ⊎ (i ≢ j)
same_index i j = ground arith

-- The number of slots in use.
unfoldable pub used : List HmapKvp → ℕ
used [] = 0
used (kvp ∷ map) = (if type_index kvp.type == 0 then 0 else 1) + used map

abbrev pub in_use : HmapKvp → ℕ
in_use kvp = if type_index kvp.type == 0 then 0 else 1

pub used-set :
    (map : List HmapKvp) (j : ℕ) (kvp : HmapKvp)
    → j < length map
    → used (set map j kvp) + in_use (slot map j) ≡ used map + in_use kvp
unfolding used
used-set [] j kvp lt = absurd (omega arith)
used-set (x ∷ map) zero kvp lt = omega arith
used-set (x ∷ map) (suc j) kvp lt = omega (arith, used-set map j kvp (omega arith))

pub used-replicate : (n : ℕ) → used (replicate n empty_kvp) ≡ 0
unfolding used type_index
used-replicate zero = refl
used-replicate (suc n) = omega (arith, used-replicate n)

pub used_le : (map : List HmapKvp) → used map ≤ length map
unfolding used
used_le [] = omega arith
used_le (kvp ∷ map) = one_more (type_index kvp.type == 0) (used map) (length map) (used_le map)
  where
    one_more : (b : Bool) (n m : ℕ) → n ≤ m → (if b then 0 else 1) + n ≤ suc m
    one_more true n m le = omega arith
    one_more false n m le = omega arith

-- With fewer slots in use than there are, one is empty.
pub room :
    (map : List HmapKvp)
    → used map < length map
    → (i : ℕ) × (i < length map) × (is_empty map i ≡ true)
unfolding used is_empty type_index
room [] lt = absurd (omega arith)
room (kvp ∷ map) lt = elim (Bool-cases (type_index kvp.type == 0)) [
  | inl e ↦ (zero, omega arith, e)
  | inr f ↦
      let (i, below, e) = room map (fewer (type_index kvp.type == 0) lt f) in
      (suc i, omega arith, e)
]
  where
    fewer :
        (b : Bool)
        → (if b then 0 else 1) + used map < suc (length map)
        → b ≡ false
        → used map < length map
    fewer true lt f = absurd cc
    fewer false lt f = omega arith

module _ (map : List HmapKvp) (j : ℕ) (kvp : HmapKvp) (lt : j < length map) where
  -- Every slot stays one of the two kinds.
  pub IsSlot-set :
      ((i : ℕ) → IsSlot (slot map i)) → IsSlot kvp → (i : ℕ) → IsSlot (slot (set map j kvp) i)
  IsSlot-set all new i = elim (same_index i j) [
    | inl e ↦
        subst (λ n. IsSlot (slot (set map j kvp) n)) (sym e)
          (subst IsSlot (sym (slot-set_self map j kvp lt)) new)
    | inr ne ↦ subst IsSlot (sym (slot-set_ne map j i kvp ne)) (all i)
  ]

  -- No entry appears twice if no other slot holds one of the new slot.
  pub Distinct-set :
      Distinct map
      → ((i : ℕ) (p : Option Str) (k : Str)
          → i ≢ j
          → Owns kvp p k
          → hmap_cmp (slot map i) p k ≡ false)
      → Distinct (set map j kvp)
  unfolding Distinct
  Distinct-set d others i i' p k a b = elim (same_index i j) [
    | inl e ↦ elim (same_index i' j) [
      | inl e' ↦ e ∙ sym e'
      | inr ne' ↦ absurd (clash i i' e ne' a b)
    ]
    | inr ne ↦ elim (same_index i' j) [
      | inl e' ↦ absurd (clash i' i e' ne b a)
      | inr ne' ↦
          d i i' p k (subst (λ s. Owns s p k) (slot-set_ne map j i kvp ne) a)
            (subst (λ s. Owns s p k) (slot-set_ne map j i' kvp ne') b)
    ]
  ]
    where
      clash :
          (n m : ℕ)
          → n ≡ j
          → m ≢ j
          → Owns (slot (set map j kvp) n) p k
          → Owns (slot (set map j kvp) m) p k
          → ⊥
      clash n m e ne x y =
          let new =
            subst (λ s. Owns s p k) (slot-set_self map j kvp lt)
              (subst (λ q. Owns (slot (set map j kvp) q) p k) e x) in
          let old = subst (λ s. Owns s p k) (slot-set_ne map j m kvp ne) y in
          cc (old, others m p k ne new)

pub Distinct-replicate : (n : ℕ) → Distinct (replicate n empty_kvp)
unfolding Distinct
Distinct-replicate n i j p k a b =
    absurd (cc (a, ap (λ s. hmap_cmp s p k) (slot-replicate n i), empty_kvp_lem p k))
