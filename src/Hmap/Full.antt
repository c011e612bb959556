-- ===== src/Hmap/Full.antt =====
-- lib/hmap/hmap.c on a map without an empty slot that may not grow.
use pktgen_dpdk.Base.{
  ℕ, zero, suc, ◌+◌, ◌-◌, ◌<◌, ◌≤◌, ◌^◌, ◌≡◌, refl, sym, ap, ◌∙◌, subst, ◌⊎◌, inl, inr, Bool, true,
  false, ◌&&◌, Option, none, List, [], ◌∷◌, length, Option-cases, leb, ◌==◌, if◌then◌else◌, skipped,
  u32, arith,
}
use pktgen_dpdk.Hmap.State.{Str, HmapType, HmapKvp, Hmap, type_index, hmap_get_hash}
use pktgen_dpdk.Hmap.Ops.{
  err, and_then, probe, is_empty, add_at, add_value, must_grow, hmap_update_capacity, grow_and_add,
}
use pktgen_dpdk.Hmap.Probe.{probe_some_lem}
use pktgen_dpdk.Hmap.Slots.{used, used_le}
use pktgen_dpdk.Hmap.Valid.{IsValid}
use pktgen_dpdk.Hmap.Lookup.{hmap_get_hash_lem}
use pktgen_dpdk.Hmap.Grow.{HasRoom}

-- No empty slot, and no capacity left to grow by.
abbrev pub IsFull : Hmap → Type 0
IsFull hmap = (hmap.capacity ≤ hmap.curr_capacity) × (hmap.max_capacity < hmap.capacity + 32)

pub room_or_IsFull : (hmap : Hmap) → HasRoom hmap ⊎ IsFull hmap
room_or_IsFull hmap = split hmap.curr_capacity hmap.capacity hmap.max_capacity
  where
    split : (n c m : ℕ) → ((n < c) ⊎ (c + 32 ≤ m)) ⊎ ((c ≤ n) × (m < c + 32))
    split n c m = ground arith

all_used :
    (map : List HmapKvp) → length map ≤ used map → (i : ℕ) → i < length map → is_empty map i ≡ false
unfolding used is_empty type_index
all_used [] le i lt = absurd (omega arith)
all_used (kvp ∷ map) le zero lt = first (type_index kvp.type == 0) (used_le map) le
  where
    first :
        (b : Bool)
        → used map ≤ length map
        → suc (length map) ≤ (if b then 0 else 1) + used map
        → b ≡ false
    first true le most = absurd (omega arith)
    first false le most = refl
all_used (kvp ∷ map) le (suc i) lt =
    all_used map (rest (type_index kvp.type == 0) le) i (omega arith)
  where
    rest : (b : Bool) → suc (length map) ≤ (if b then 0 else 1) + used map → length map ≤ used map
    rest true most = omega arith
    rest false most = omega arith

module _ (hmap : Hmap) (v : IsValid hmap) (full : IsFull hmap) (type : HmapType) (p : Option Str)
    (k : Str) (val : ℕ) where
  nothing_empty :
      probe (is_empty hmap.map) hmap.capacity hmap.capacity (hmap_get_hash hmap p k) ≡ none
  nothing_empty =
      let h = hmap_get_hash hmap p k in
      elim (Option-cases (probe (is_empty hmap.map) hmap.capacity hmap.capacity h)) [
        | inl e ↦ e
        | inr (i, e) ↦
            let (t, lt) =
              probe_some_lem (is_empty hmap.map) hmap.capacity hmap.capacity h i
                (hmap_get_hash_lem hmap p k v.least) e in
            absurd (cc (t, all_used hmap.map all i (subst (λ n. i < n) (sym v.size) lt)))
      ]
    where
      all : length hmap.map ≤ used hmap.map
      all =
          subst (λ n. n ≤ used hmap.map) (sym v.size)
            (subst (λ n. hmap.capacity ≤ n) v.counted full.0)

  no_growth : must_grow hmap ≡ false
  no_growth =
      refused hmap.capacity hmap.max_capacity
        (leb (u32 (hmap.capacity + 2 ^ 32 - 8)) hmap.curr_capacity) full.1 v.most v.words
    where
      refused :
          (c m : ℕ) (b : Bool)
          → m < c + 32
          → c ≤ m
          → m + 32 < 2 ^ 32
          → (b && leb (u32 (c + 32)) m) ≡ false
      refused c m true lt le words = refused_word c m (u32 (c + 32)) lt (omega arith)
        where
          refused_word : (c m n : ℕ) → m < c + 32 → n ≡ c + 32 → leb n m ≡ false
          refused_word c m n lt e = ground arith
      refused c m false lt le words = refl

  pub grow_and_add_full : grow_and_add hmap type p k val ≡ (err, hmap)
  unfolding grow_and_add hmap_update_capacity add_value
  grow_and_add_full =
      ap (λ r. and_then r (λ m. add_value m type p k val)) (skipped (must_grow hmap) _ _ no_growth)
      ∙ ap (add_at hmap type p k val) nothing_empty
