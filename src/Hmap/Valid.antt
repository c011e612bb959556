-- ===== src/Hmap/Valid.antt =====
-- The invariant of a map of lib/hmap, and the write to one slot that its operations share.
use pktgen_dpdk.Base.{
  ℕ, zero, suc, ◌+◌, ◌<◌, ◌≤◌, ◌^◌, ◌≡◌, ◌≢◌, refl, sym, ap, ◌∙◌, subst, true, false, Option, none,
  some, List, [], ◌∷◌, length, set, length-set, if◌then◌else◌,
}
use pktgen_dpdk.Hmap.State.{
  Str, HmapType, HmapKvp, Hmap, type_index, empty_kvp, hmap_cmp, hmap_free, cmp_fields, slot,
}
use pktgen_dpdk.Hmap.Ops.{is_empty, filled, updated_kvp, prefix_or}
use pktgen_dpdk.Hmap.Find.{Owns, Distinct}
use pktgen_dpdk.Hmap.Slots.{
  IsSlot, free_slot, used_slot, used, slot-set_self, IsSlot-set, Distinct-set,
}

pub record IsValid (hmap : Hmap) : Type 0 where
  pub size : length hmap.map ≡ hmap.capacity
  pub least : 8 ≤ hmap.capacity
  pub most : hmap.capacity ≤ hmap.max_capacity
  pub words : hmap.max_capacity + 32 < 2 ^ 32
  pub counted : hmap.curr_capacity ≡ used hmap.map
  pub slots : (i : ℕ) → IsSlot (slot hmap.map i)
  pub distinct : Distinct hmap.map
  pub compares : hmap.fns.cmp_fn ≡ hmap_cmp
  pub frees : hmap.fns.free_fn ≡ hmap_free

-- What a map holds, by prefix and key.
abbrev pub Entries : Type 0
Entries = Option Str → Str → Option (HmapType × ℕ)

-- The entries after a write to those of one prefix and key.
abbrev pub written : Entries → Option Str → Str → Option (HmapType × ℕ) → Entries
written m prefix key c p k = if cmp_fields prefix (some key) p k then c else m p k

-- An empty slot is as calloc leaves it.
pub is_empty_lem :
    (map : List HmapKvp) (i : ℕ)
    → IsSlot (slot map i)
    → is_empty map i ≡ true
    → slot map i ≡ empty_kvp
unfolding is_empty type_index
is_empty_lem map i (free_slot e) t = e
is_empty_lem map i (used_slot k e f) t = absurd cc

-- The write of one slot and of the count keeps the invariant.
pub IsValid-set :
    (hmap : Hmap) (j : ℕ) (kvp : HmapKvp) (curr : ℕ)
    → IsValid hmap
    → j < hmap.capacity
    → IsSlot kvp
    → ((i : ℕ) (p : Option Str) (k : Str)
        → i ≢ j
        → Owns kvp p k
        → hmap_cmp (slot hmap.map i) p k ≡ false)
    → curr ≡ used (set hmap.map j kvp)
    → IsValid (record hmap { map = set hmap.map j kvp; curr_capacity = curr })
IsValid-set hmap j kvp curr v lt new others count =
    let lt' = subst (λ n. j < n) (sym v.size) lt in
    record {
      size = length-set hmap.map j kvp ∙ v.size;
      least = v.least;
      most = v.most;
      words = v.words;
      counted = count;
      slots = IsSlot-set hmap.map j kvp lt' v.slots new;
      distinct = Distinct-set hmap.map j kvp lt' v.distinct others;
      compares = v.compares;
      frees = v.frees;
    }

set-set : (map : List HmapKvp) (j : ℕ) (a b : HmapKvp) → set (set map j a) j b ≡ set map j b
set-set [] j a b = refl
set-set (x ∷ map) zero a b = refl
set-set (x ∷ map) (suc j) a b = ap (λ l. x ∷ l) (set-set map j a b)

-- The entry of add_at: the filled slot with its value.
abbrev pub new_kvp : HmapKvp → HmapType → Option Str → Str → (val : ℕ) → HmapKvp
new_kvp kvp type prefix key val = updated_kvp (filled kvp type prefix key) val

pub filled_twice :
    (map : List HmapKvp) (j : ℕ) (kvp : HmapKvp) (val : ℕ)
    → j < length map
    → set (set map j kvp) j (updated_kvp (slot (set map j kvp) j) val)
      ≡ set map j (updated_kvp kvp val)
filled_twice map j kvp val lt =
    set-set map j kvp (updated_kvp (slot (set map j kvp) j) val)
    ∙ ap (λ s. set map j (updated_kvp s val)) (slot-set_self map j kvp lt)

pub prefix_or-none : (p : Option Str) → prefix_or p none ≡ p
prefix_or-none none = refl
prefix_or-none (some p) = refl
