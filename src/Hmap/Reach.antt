-- ===== src/Hmap/Reach.antt =====
-- The maps that lib/hmap/hmap.c can reach from hmap_create.
use pktgen_dpdk.Base.{
  true, ℕ, ◌+◌, ◌/◌, ◌<◌, ◌≤◌, ◌^◌, ◌≡◌, ◌≢◌, refl, sym, ap, ◌∙◌, false, Option, none, some, length,
  length-replicate, leb, ◌==◌, skipped, arith, Option-cases, inl, subst, Bool, Bool-cases,
  if◌then◌else◌,
}
use pktgen_dpdk.Hmap.State.{Str, HmapType, Hmap, type_index, empty_kvp, hmap_cmp}
use pktgen_dpdk.Hmap.Ops.{Ret, hmap_add, hmap_update, hmap_del, ok, or_default}
use pktgen_dpdk.Hmap.Create.{
  hmap_create, hmap_sized, chosen_funcs, UserFuncs, at_least, nonzero, default_name,
}
use pktgen_dpdk.Hmap.Find.{find_nowhere, empty_kvp_lem}
use pktgen_dpdk.Hmap.Slots.{free_slot, slot-replicate, used-replicate, Distinct-replicate}
use pktgen_dpdk.Hmap.Valid.{IsValid, Entries}
use pktgen_dpdk.Hmap.Lookup.{entries, entries-find}
use pktgen_dpdk.Hmap.Add.{Holds, hmap_add_lem}
use pktgen_dpdk.Hmap.Full.{room_or_IsFull}
use pktgen_dpdk.Hmap.Refine.{
  hmap_add-refused, hmap_del_lem, hmap_update-hmap_add, hmap_update_mismatch, hmap_update_same,
}
use mathlib.Core.Logic.{inr}

-- The sizes that hmap_create takes for a requested maximum.
abbrev pub limit_of : ℕ → ℕ
limit_of max_capacity = at_least 32 (nonzero 1024 max_capacity)

-- A caller that sets its own hash function leaves the other two to the map.
abbrev pub hashing : Option (Option Str → Str → ℕ) → UserFuncs
hashing h = record { hash_fn = h; cmp_fn = none; free_fn = none }

limit_lem : (n : ℕ) → n + 32 < 2 ^ 32 → (32 ≤ limit_of n) × (limit_of n + 32 < 2 ^ 32)
limit_lem n lt = ground arith

start_lem : (n : ℕ) → 32 ≤ n → (8 ≤ nonzero 32 (n / 4)) × (nonzero 32 (n / 4) ≤ n)
start_lem n le = by_quarter (n / 4) (omega arith) (omega arith)
  where
    by_quarter : (q : ℕ) → 8 ≤ q → q ≤ n → (8 ≤ nonzero 32 q) × (nonzero 32 q ≤ n)
    by_quarter q a b = ground arith

module _ (name : Str) (max_capacity : ℕ) (h : Option (Option Str → Str → ℕ))
    (lt : max_capacity + 32 < 2 ^ 32) where
  abbrev capacity : ℕ
  capacity = nonzero 32 (limit_of max_capacity / 4)

  abbrev made : Hmap
  made = hmap_sized name (limit_of max_capacity) capacity (chosen_funcs (some (hashing h)))

  made-IsValid : IsValid made
  unfolding chosen_funcs
  made-IsValid =
      let (big, word) = limit_lem max_capacity lt in
      let (least, most) = start_lem (limit_of max_capacity) big in
      record {
        size = length-replicate capacity empty_kvp;
        least = least;
        most = most;
        words = word;
        counted = sym (used-replicate capacity);
        slots = λ i. free_slot (slot-replicate capacity i);
        distinct = Distinct-replicate capacity;
        compares = refl;
        frees = refl;
      }

  made-empty : (p : Option Str) (k : Str) → entries made p k ≡ none
  made-empty p k =
      entries-find made made-IsValid p k
      ∙ find_nowhere made.map p k
          (λ i. ap (λ s. hmap_cmp s p k) (slot-replicate capacity i) ∙ empty_kvp_lem p k)

-- hmap_create with a name of fewer than 32 bytes and any hash function makes a valid map without
-- entries.
pub hmap_create_lem :
    (name : Str) (max_capacity : ℕ) (h : Option (Option Str → Str → ℕ))
    → length name < 32
    → max_capacity + 32 < 2 ^ 32
    → (hmap : Hmap) × (hmap_create (some name) max_capacity (some (hashing h)) ≡ some hmap)
      × Holds hmap (λ p k. none) 0
unfolding hmap_create
hmap_create_lem name max_capacity h short lt = (
  made name max_capacity h lt,
  skipped (leb 32 (length name)) _ _ (not_long (length name) short),
  record {
    valid = made-IsValid name max_capacity h lt;
    holds = made-empty name max_capacity h lt;
    counts = refl;
  },
)
  where
    not_long : (n : ℕ) → n < 32 → leb 32 n ≡ false
    not_long n q = ground arith

-- The map that an operation leaves.
abbrev pub left : Ret × Hmap → Hmap
left (r, hmap) = hmap

-- A caller's steps: hmap_del only of an entry that is there, and no entry of the empty type.
pub data Reached : Hmap → Type 0 where
  created :
      (name : Option Str) (max_capacity : ℕ) (h : Option (Option Str → Str → ℕ)) (hmap : Hmap)
      → max_capacity + 32 < 2 ^ 32
      → hmap_create name max_capacity (some (hashing h)) ≡ some hmap
      → Reached hmap
  added :
      (hmap : Hmap) (type : HmapType) (p key : Option Str) (val : ℕ)
      → Reached hmap
      → (type_index type == 0) ≡ false
      → Reached (left (hmap_add hmap type p key val))
  updated :
      (hmap : Hmap) (type : HmapType) (p key : Option Str) (val : ℕ)
      → Reached hmap
      → (type_index type == 0) ≡ false
      → Reached (left (hmap_update hmap type p key val))
  deleted :
      (hmap : Hmap) (p : Option Str) (k : Str)
      → Reached hmap
      → entries hmap p k ≢ none
      → Reached (left (hmap_del hmap p (some k)))

IsValid-after :
    {m : Entries} {n : ℕ} (r : Ret × Hmap) (hmap' : Hmap)
    → r ≡ (ok, hmap')
    → Holds hmap' m n
    → IsValid (left r)
IsValid-after r hmap' e h = subst (λ s. IsValid (left s)) (sym e) h.valid

-- hmap_add keeps the invariant on every branch.
hmap_add-IsValid :
    (hmap : Hmap) (type : HmapType) (p key : Option Str) (val : ℕ)
    → IsValid hmap
    → (type_index type == 0) ≡ false
    → IsValid (left (hmap_add hmap type p key val))
unfolding hmap_add
hmap_add-IsValid hmap type p none val v named = v
hmap_add-IsValid hmap type p (some k) val v named = elim (Option-cases (entries hmap p k)) [
  | inl e ↦ elim (room_or_IsFull hmap) [
    | inl room ↦
        let (hmap', done, h) = hmap_add_lem hmap type p k val v named room e in
        IsValid-after (hmap_add hmap type p (some k) val) hmap' done h
    | inr full ↦
        subst (λ s. IsValid (left s)) (sym (hmap_add-refused hmap type p k val v (inr full))) v
  ]
  | inr (c, e) ↦
      subst (λ s. IsValid (left s))
        (sym (hmap_add-refused hmap type p k val v (inl (λ n. cc (e, n))))) v
]

hmap_update-IsValid :
    (hmap : Hmap) (type : HmapType) (p key : Option Str) (val : ℕ)
    → IsValid hmap
    → (type_index type == 0) ≡ false
    → IsValid (left (hmap_update hmap type p key val))
unfolding hmap_update
hmap_update-IsValid hmap type p none val v named = v
hmap_update-IsValid hmap type p (some k) val v named = elim (Option-cases (entries hmap p k)) [
  | inl e ↦
      subst (λ s. IsValid (left s)) (sym (hmap_update-hmap_add hmap type p k val e))
        (hmap_add-IsValid hmap type p (some k) val v named)
  | inr (c, e) ↦
      let (t, w) = c in
      elim (Bool-cases (type_index t == type_index type)) [
        | inl same ↦
            let (hmap', done, h) = hmap_update_same hmap type t p k val w v e same in
            IsValid-after (hmap_update hmap type p (some k) val) hmap' done h
        | inr ne ↦
            subst (λ s. IsValid (left s)) (sym (hmap_update_mismatch hmap type t p k val w e ne)) v
      ]
]

second : {A : Type 0} (b : Bool) (x y : A) → (if b then none else some x) ≡ some y → x ≡ y
second true x y e = absurd cc
second false x y e = cc e

created-IsValid :
    (name : Option Str) (max_capacity : ℕ) (h : Option (Option Str → Str → ℕ)) (hmap : Hmap)
    → max_capacity + 32 < 2 ^ 32
    → hmap_create name max_capacity (some (hashing h)) ≡ some hmap
    → IsValid hmap
unfolding hmap_create
created-IsValid name max_capacity h hmap lt e =
    let name' = or_default name default_name in
    subst IsValid (second (leb 32 (length name')) (made name' max_capacity h lt) hmap e)
      (made-IsValid name' max_capacity h lt)

-- Every map that is reached from hmap_create, with a maximum below 2^32 - 32, any hash function and the
-- default compare and free functions, by hmap_add and hmap_update of types other than the empty one and
-- hmap_del of entries that are there, whether they succeed or not, is valid.
pub Reached-IsValid : (hmap : Hmap) → Reached hmap → IsValid hmap
Reached-IsValid hmap (created name max_capacity h m lt e) =
    created-IsValid name max_capacity h m lt e
Reached-IsValid hmap (added m type p key val r named) =
    hmap_add-IsValid m type p key val (Reached-IsValid m r) named
Reached-IsValid hmap (updated m type p key val r named) =
    hmap_update-IsValid m type p key val (Reached-IsValid m r) named
Reached-IsValid hmap (deleted m p k r ne) = elim (Option-cases (entries m p k)) [
  | inl e ↦ absurd (ne e)
  | inr (c, e) ↦
      let (hmap', done, h) = hmap_del_lem m p k c (Reached-IsValid m r) e in
      IsValid-after (hmap_del m p (some k)) hmap' done h
]
