-- ===== src/Hmap/Ops.antt =====
-- The operations of lib/hmap/hmap.c on one map. Allocations succeed.
use pktgen_dpdk.Base.{
  ℕ, zero, suc, ◌+◌, ◌-◌, ◌%◌, ◌^◌, Bool, true, false, ◌&&◌, Option, none, some, List, [], ◌∷◌, ltb,
  leb, ◌==◌, if◌then◌else◌, u32, set, map, replicate,
}
use pktgen_dpdk.Hmap.State.{
  Str, HmapType, HmapKvp, HmapFuncs, Hmap, type_index, str_array_type, empty_type, empty_kvp, slot,
  hmap_get_hash,
}

-- The return value 0 or -1 of a function on the map, with the map that it leaves.
pub data Ret : Type 0 where
  ok : Ret
  err : Ret

-- A step that is taken when the one before it returned 0.
abbrev pub and_then : Ret × Hmap → (Hmap → Ret × Hmap) → Ret × Hmap
and_then (ok, hmap) next = next hmap
and_then (err, hmap) next = (err, hmap)

abbrev pub or_default : {A : Type 0} → Option A → A → A
or_default none d = d
or_default (some a) d = a

-- The circular scan of the table: at most `n` slots from `hash` on, up to one that passes the test.
unfoldable pub probe : (ℕ → Bool) → (capacity n hash : ℕ) → Option ℕ
probe test capacity zero hash = none
probe test capacity (suc n) hash =
    let rest = probe test capacity n ((hash + 1) % capacity) in
    if test hash then some hash else rest

-- `kvp->key && cmp_fn(kvp, prefix, key)`
unfoldable pub has_key : HmapKvp → Bool
has_key kvp = elim kvp.key [ none ↦ false | some k ↦ true ]

unfoldable pub hits : HmapFuncs → List HmapKvp → Option Str → Str → ℕ → Bool
hits fns map prefix key i = has_key (slot map i) && fns.cmp_fn (slot map i) prefix key

-- The slot of the entry; `none` is the NULL pointer.
unfoldable pub hmap_kvp_lookup : Hmap → Option Str → Option Str → Option ℕ
hmap_kvp_lookup hmap prefix none = none
hmap_kvp_lookup hmap prefix (some key) =
    probe (hits hmap.fns hmap.map prefix key) hmap.capacity hmap.capacity
      (hmap_get_hash hmap prefix key)

-- The value, where the call returns 0; `none` where it returns -1.
unfoldable pub hmap_lookup : Hmap → Option Str → Option Str → Option ℕ
hmap_lookup hmap prefix none = none
hmap_lookup hmap prefix (some key) =
    elim (probe (hits hmap.fns hmap.map prefix key) hmap.capacity hmap.capacity
      (hmap_get_hash hmap prefix key)) [ none ↦ none | some i ↦ some (slot hmap.map i).v ]

abbrev pub put : Hmap → ℕ → HmapKvp → Hmap
put hmap i kvp = record hmap { map = set hmap.map i kvp }

abbrev pub updated_kvp : HmapKvp → (val : ℕ) → HmapKvp
updated_kvp kvp val = record kvp {
  v = val;
  count = if ltb (type_index kvp.type) (type_index str_array_type) then 0 else kvp.count;
}

unfoldable pub hmap_kvp_update : Hmap → (i val : ℕ) → Hmap
hmap_kvp_update hmap i val = put hmap i (updated_kvp (slot hmap.map i) val)

unfoldable pub is_empty : List HmapKvp → ℕ → Bool
is_empty map i = type_index (slot map i).type == type_index empty_type

-- The new entry in a slot. Where the prefix is NULL the slot keeps the prefix that it had.
abbrev pub prefix_or : (prefix old : Option Str) → Option Str
prefix_or none old = old
prefix_or (some p) old = some p

abbrev pub filled : HmapKvp → HmapType → Option Str → Str → HmapKvp
filled kvp type prefix key = record kvp {
  key = some key;
  prefix = prefix_or prefix kvp.prefix;
  type = type;
}

abbrev pub add_at : Hmap → HmapType → Option Str → Str → (val : ℕ) → Option ℕ → Ret × Hmap
add_at hmap type prefix key val none = (err, hmap)
add_at hmap type prefix key val (some i) =
    let kvp = filled (slot hmap.map i) type prefix key in
    let hmap = hmap_kvp_update (put hmap i kvp) i val in
    (ok, record hmap { curr_capacity = u32 (hmap.curr_capacity + 1) })

unfoldable pub add_value : Hmap → HmapType → Option Str → Str → (val : ℕ) → Ret × Hmap
add_value hmap type prefix key val =
    let i = probe (is_empty hmap.map) hmap.capacity hmap.capacity (hmap_get_hash hmap prefix key) in
    add_at hmap type prefix key val i

-- strdup of a NULL key ends the program; a slot with a type has a key.
abbrev pub key_of : HmapKvp → Str
key_of kvp = or_default kvp.key []

-- The loop that adds the old slots to the new table. It stops at the first that fails.
unfoldable pub add_slots : Hmap → List HmapKvp → Ret × Hmap
add_slots hmap [] = (ok, hmap)
add_slots hmap (kvp ∷ old_map) =
    if type_index kvp.type == type_index empty_type
    then add_slots hmap old_map
    else and_then (add_value hmap kvp.type kvp.prefix (key_of kvp) kvp.v)
        (λ hmap. add_slots hmap old_map)

abbrev pub grown : Hmap → Hmap
grown hmap =
    let capacity = u32 (hmap.capacity + 32) in
    record hmap {
      capacity = capacity;
      map = replicate capacity empty_kvp;
      curr_capacity = 0;
      alloc_count = hmap.alloc_count + 1;
    }

-- After a failure the table and its capacity are the old ones, and only those.
abbrev pub restored : Hmap → Ret × Hmap → Ret × Hmap
restored old (ok, hmap) = (ok, hmap)
restored old (err, hmap) = (err, record hmap { map = old.map; capacity = old.capacity })

abbrev pub must_grow : Hmap → Bool
must_grow hmap =
    leb (u32 (hmap.capacity + 2 ^ 32 - 8)) hmap.curr_capacity
    && leb (u32 (hmap.capacity + 32)) hmap.max_capacity

unfoldable pub hmap_update_capacity : Hmap → Ret × Hmap
hmap_update_capacity hmap =
    if must_grow hmap then restored hmap (add_slots (grown hmap) hmap.map) else (ok, hmap)

-- `if ((ret = _hmap_update_capacity(hmap)) == 0) ret = __add_value(...)`
unfoldable pub grow_and_add : Hmap → HmapType → Option Str → Str → (val : ℕ) → Ret × Hmap
grow_and_add hmap type prefix key val =
    and_then (hmap_update_capacity hmap) (λ hmap. add_value hmap type prefix key val)

unfoldable pub hmap_add : Hmap → HmapType → (prefix key : Option Str) → (val : ℕ) → Ret × Hmap
hmap_add hmap type prefix none val = (err, hmap)
hmap_add hmap type prefix (some key) val = elim (hmap_kvp_lookup hmap prefix (some key)) [
  | some i ↦ (err, hmap)
  | none ↦ grow_and_add hmap type prefix key val
]

unfoldable pub hmap_update : Hmap → HmapType → (prefix key : Option Str) → (val : ℕ) → Ret × Hmap
hmap_update hmap type prefix none val = (err, hmap)
hmap_update hmap type prefix (some key) val = elim (hmap_kvp_lookup hmap prefix (some key)) [
  | some i ↦
      if type_index (slot hmap.map i).type == type_index type
      then (ok, hmap_kvp_update hmap i val)
      else (err, hmap)
  | none ↦ grow_and_add hmap type prefix key val
]

-- The free function and then the count, whether or not the entry was found.
abbrev pub freed_at : Hmap → Option ℕ → Hmap
freed_at hmap none = hmap
freed_at hmap (some i) = put hmap i (hmap.fns.free_fn (slot hmap.map i))

unfoldable pub hmap_del : Hmap → (prefix key : Option Str) → Ret × Hmap
hmap_del hmap prefix none = (err, hmap)
hmap_del hmap prefix (some key) =
    let hmap = freed_at hmap (hmap_kvp_lookup hmap prefix (some key)) in
    (ok, record hmap { curr_capacity = u32 (hmap.curr_capacity + 2 ^ 32 - 1) })

-- The slot of the next entry and the index to go on from, while the call returns 1.
unfoldable pub next_slot : List HmapKvp → (n i : ℕ) → Option (ℕ × ℕ)
next_slot map zero i = none
next_slot map (suc n) i =
    let rest = next_slot map n (suc i) in if has_key (slot map i) then some (i, suc i) else rest

unfoldable pub hmap_iterate : Hmap → (next : ℕ) → Option (ℕ × ℕ)
hmap_iterate hmap next = next_slot hmap.map (hmap.capacity - next) next
