-- ===== src/Hmap/Null.antt =====
-- The functions of lib/hmap/hmap.c that take a pointer to a value, for a NULL pointer. Hmap.Ops has them
-- for a value.
use pktgen_dpdk.Base.{Option, none, some, ℕ}
use pktgen_dpdk.Hmap.State.{Str, HmapType, Hmap, slot, hmap_get_hash}
use pktgen_dpdk.Hmap.Ops.{
  Ret, err, and_then, probe, is_empty, filled, put, hmap_update_capacity, hmap_kvp_lookup,
}

-- hmap_kvp_update returns -1, and the free function takes the slot.
abbrev pub free_at : Hmap → HmapType → Option Str → Str → Option ℕ → Ret × Hmap
free_at hmap type prefix key none = (err, hmap)
free_at hmap type prefix key (some i) =
    (err, put hmap i (hmap.fns.free_fn (filled (slot hmap.map i) type prefix key)))

unfoldable pub add_null : Hmap → HmapType → Option Str → Str → Ret × Hmap
add_null hmap type prefix key =
    free_at hmap type prefix key
      (probe (is_empty hmap.map) hmap.capacity hmap.capacity (hmap_get_hash hmap prefix key))

unfoldable pub hmap_add_null : Hmap → HmapType → (prefix key : Option Str) → Ret × Hmap
hmap_add_null hmap type prefix none = (err, hmap)
hmap_add_null hmap type prefix (some key) = elim (hmap_kvp_lookup hmap prefix (some key)) [
  | some i ↦ (err, hmap)
  | none ↦ and_then (hmap_update_capacity hmap) (λ hmap. add_null hmap type prefix key)
]

-- An entry that is there is not changed, whatever its type.
unfoldable pub hmap_update_null : Hmap → HmapType → (prefix key : Option Str) → Ret × Hmap
hmap_update_null hmap type prefix key = hmap_add_null hmap type prefix key
