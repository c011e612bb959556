-- ===== src/Hmap/Create.antt =====
-- The making of a map in lib/hmap/hmap.c and its functions. Allocations succeed.
use pktgen_dpdk.Base.{
  ℕ, ◌/◌, Bool, Option, none, some, [], ◌∷◌, ltb, leb, ◌==◌, if◌then◌else◌, length, map, replicate,
}
use pktgen_dpdk.Hmap.State.{
  Str, HmapKvp, HmapFuncs, Hmap, empty_kvp, hmap_hash, hmap_cmp, hmap_free,
}
use pktgen_dpdk.Hmap.Ops.{or_default}

-- The functions that a caller passes; a NULL pointer takes the default.
pub record UserFuncs : Type 0 where
  pub hash_fn : Option (Option Str → Str → ℕ)
  pub cmp_fn : Option (HmapKvp → Option Str → Str → Bool)
  pub free_fn : Option (HmapKvp → HmapKvp)

abbrev pub default_funcs : HmapFuncs
default_funcs = record { hash_fn = hmap_hash; cmp_fn = hmap_cmp; free_fn = hmap_free }

unfoldable pub chosen_funcs : Option UserFuncs → HmapFuncs
chosen_funcs none = default_funcs
chosen_funcs (some fns) = record {
  hash_fn = or_default fns.hash_fn default_funcs.hash_fn;
  cmp_fn = or_default fns.cmp_fn default_funcs.cmp_fn;
  free_fn = or_default fns.free_fn default_funcs.free_fn;
}

unfoldable pub hmap_set_funcs : Hmap → Option UserFuncs → Hmap
hmap_set_funcs hmap fns = record hmap { fns = chosen_funcs fns }

unfoldable pub hmap_get_funcs : Hmap → HmapFuncs
hmap_get_funcs hmap = hmap.fns

-- The name of a map without one.
abbrev pub default_name : Str
default_name = 72 ∷ 77 ∷ 65 ∷ 80 ∷ []

abbrev pub at_least : (least n : ℕ) → ℕ
at_least least n = if ltb n least then least else n

abbrev pub nonzero : (default n : ℕ) → ℕ
nonzero default n = if n == 0 then default else n

abbrev pub hmap_sized : (name : Str) (max_capacity capacity : ℕ) → HmapFuncs → Hmap
hmap_sized name max_capacity capacity fns = record {
  name = name;
  capacity = capacity;
  max_capacity = max_capacity;
  curr_capacity = 0;
  fns = fns;
  map = replicate capacity empty_kvp;
  alloc_count = 1;
}

unfoldable pub hmap_create : Option Str → (max_capacity : ℕ) → Option UserFuncs → Option Hmap
hmap_create name max_capacity funcs =
    let name = or_default name default_name in
    let max_capacity = at_least 32 (nonzero 1024 max_capacity) in
    let capacity = nonzero 32 (max_capacity / 4) in
    if leb 32 (length name)
    then none
    else some (hmap_sized name max_capacity capacity (chosen_funcs funcs))

-- The map as hmap_destroy leaves it before its memory is freed.
unfoldable pub hmap_destroy : Hmap → Hmap
hmap_destroy hmap = record hmap {
  map = map hmap.fns.free_fn hmap.map;
  max_capacity = 0;
  capacity = 0;
  curr_capacity = 0;
}
