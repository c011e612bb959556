-- ===== src/Hmap/Tests.antt =====
-- Runs of lib/hmap on small maps.
use pktgen_dpdk.Base.{
  ℕ, ◌≡◌, refl, Option, none, some, [], ◌∷◌, length, arith, ◌<◌, ◌≢◌, List, ◌^◌, suc, ℤ, ◌-◌,
  FitsIn,
}
use pktgen_dpdk.Hmap.State.{
  Str, Hmap, type_index, u64_type, hmap_get_hash, hmap_cmp, cmp_fields, same_key, same_str, HmapKvp,
  empty_kvp, hmap_count,
}
use pktgen_dpdk.Hmap.Ops.{
  hmap_add, hmap_kvp_lookup, grow_and_add, hmap_update_capacity, add_value, probe, is_empty,
  hmap_kvp_update, hits, has_key, hmap_del, ok, hmap_update,
}
use pktgen_dpdk.Hmap.Create.{hmap_create, hmap_sized, chosen_funcs}
use pktgen_dpdk.Hmap.Lookup.{entries}
use pktgen_dpdk.Hmap.Reach.{Reached, created, added, left, hashing, Reached-IsValid, updated}
use Prim.Native.Nat.{lt, eq}
use pktgen_dpdk.Base.{inl, ◌≢◌, ℤ, FitsIn, ◌-◌, ◌^◌, suc, length, ◌<◌, List}
use pktgen_dpdk.Hmap.Valid.{IsValid, written}
use pktgen_dpdk.Hmap.Find.{find}
use pktgen_dpdk.Hmap.Lookup.{entries-find}
use pktgen_dpdk.Hmap.Grow.{HasRoom}
use pktgen_dpdk.Hmap.Counts.{KeepsCounts, hmap_add-entries}
use pktgen_dpdk.Hmap.Add.{Holds}
use pktgen_dpdk.Hmap.Refine.{hmap_update_lem, hmap_del_lem}
use pktgen_dpdk.Hmap.Values.{
  hmap_add_u64, hmap_add_u32, hmap_add_u16, hmap_add_u8, hmap_add_i64, hmap_add_i32, hmap_add_i16,
  hmap_add_i8,
}
use pktgen_dpdk.Hmap.Getters.{
  hmap_get_u64, hmap_get_u32, hmap_get_u16, hmap_get_u8, hmap_get_i64, hmap_get_i32, hmap_get_i16,
  hmap_get_i8, hmap_get_string_array, hmap_get_u64_array, hmap_get_u32_array, hmap_get_u16_array,
  hmap_get_u8_array, hmap_get_i64_array, hmap_get_i32_array, hmap_get_i16_array, hmap_get_i8_array,
  hmap_get_double_array, hmap_get_pointer_array,
}
use pktgen_dpdk.Hmap.Arrays.{
  hmap_add_string_array, hmap_add_u64_array, hmap_add_u32_array, hmap_add_u16_array,
  hmap_add_u8_array, hmap_add_i64_array, hmap_add_i32_array, hmap_add_i16_array, hmap_add_i8_array,
  hmap_add_double_array, hmap_add_pointer_array,
}
use pktgen_dpdk.Hmap.Typed.{RoundTrip, typed_values_lem}
use pktgen_dpdk.Hmap.ArrayTrip.{ArrayTrip, typed_arrays_lem}
use pktgen_dpdk.Hmap.Listing.{kvp_list, kvp_list-hmap_count}
use pktgen_dpdk.Hmap.Order.{kvp_cmp, kvp_cmp-IsOrder, flip}

-- The map "m" of 8 slots that may grow to 32, with a hash function that counts bytes.
abbrev by_length : Option Str → Str → ℕ
by_length p k = length k

abbrev funcs : Option (Option Str → Str → ℕ)
funcs = some by_length

abbrev empty_map : Hmap
empty_map = hmap_sized (109 ∷ []) 32 8 (chosen_funcs (some (hashing funcs)))

abbrev speed : Str
speed = 115 ∷ 112 ∷ []

abbrev one_map : Hmap
one_map = left (hmap_add empty_map u64_type none (some speed) 7)

empty_map-Reached : Reached empty_map
unfolding hmap_create
empty_map-Reached = created (some (109 ∷ [])) 32 funcs empty_map (omega arith) refl

one_map-Reached : Reached one_map
unfolding type_index
one_map-Reached = added empty_map u64_type none (some speed) 7 empty_map-Reached refl

one_map-entry : entries one_map none speed ≡ some (u64_type, 7)
unfolding entries hmap_kvp_lookup hmap_add hmap_get_hash chosen_funcs probe hits has_key hmap_cmp
    cmp_fields same_key same_str grow_and_add hmap_update_capacity add_value is_empty
    hmap_kvp_update type_index
one_map-entry = refl

empty_map-absent : entries empty_map none speed ≡ none
unfolding entries hmap_kvp_lookup hmap_get_hash chosen_funcs probe hits has_key
empty_map-absent = refl

one_map-IsValid : IsValid one_map
one_map-IsValid = Reached-IsValid one_map one_map-Reached

empty_map-IsValid : IsValid empty_map
empty_map-IsValid = Reached-IsValid empty_map empty_map-Reached

empty_map-HasRoom : HasRoom empty_map
empty_map-HasRoom = inl (omega arith)

entries-find_example : entries one_map none speed ≡ find one_map.map none speed
entries-find_example = entries-find one_map one_map-IsValid none speed

hmap_add-entries_example :
    (hmap' : Hmap) × (hmap_add empty_map u64_type none (some speed) 7 ≡ (ok, hmap'))
    × Holds hmap' (written (entries empty_map) none speed (some (u64_type, 7))) 1
    × KeepsCounts empty_map hmap'
unfolding type_index
hmap_add-entries_example =
    hmap_add-entries empty_map u64_type none speed 7 empty_map-IsValid refl empty_map-HasRoom
      empty_map-absent

hmap_update_lem_example :
    (hmap' : Hmap) × (hmap_update one_map u64_type none (some speed) 8 ≡ (ok, hmap'))
    × Holds hmap' (written (entries one_map) none speed (some (u64_type, 8))) one_map.curr_capacity
hmap_update_lem_example =
    hmap_update_lem one_map u64_type none speed 8 7 one_map-IsValid one_map-entry

there : {A : Type 0} (a : A) (o : Option A) → o ≡ some a → o ≢ none
there a o e n = cc (e, n)

hmap_del_lem_example :
    (hmap' : Hmap) × (hmap_del one_map none (some speed) ≡ (ok, hmap'))
    × Holds hmap' (written (entries one_map) none speed none) (one_map.curr_capacity - 1)
hmap_del_lem_example = hmap_del_lem one_map none speed (u64_type, 7) one_map-IsValid one_map-entry

Reached-IsValid_example : IsValid (left (hmap_update one_map u64_type none (some speed) 9))
unfolding type_index
Reached-IsValid_example =
    Reached-IsValid (left (hmap_update one_map u64_type none (some speed) 9))
      (updated one_map u64_type none (some speed) 9 one_map-Reached refl)

typed_values_lem_example :
    ((val : ℕ) → RoundTrip hmap_add_u64 hmap_get_u64 empty_map none speed val)
    × ((val : ℕ) → val < 2 ^ 32 → RoundTrip hmap_add_u32 hmap_get_u32 empty_map none speed val)
    × ((val : ℕ) → val < 65536 → RoundTrip hmap_add_u16 hmap_get_u16 empty_map none speed val)
    × ((val : ℕ) → val < 256 → RoundTrip hmap_add_u8 hmap_get_u8 empty_map none speed val)
    × ((val : ℤ)
        → FitsIn (2 ^ 64) val
        → RoundTrip hmap_add_i64 hmap_get_i64 empty_map none speed val)
    × ((val : ℤ)
        → FitsIn (2 ^ 32) val
        → RoundTrip hmap_add_i32 hmap_get_i32 empty_map none speed val)
    × ((val : ℤ) → FitsIn 65536 val → RoundTrip hmap_add_i16 hmap_get_i16 empty_map none speed val)
    × ((val : ℤ) → FitsIn 256 val → RoundTrip hmap_add_i8 hmap_get_i8 empty_map none speed val)
typed_values_lem_example =
    typed_values_lem empty_map none speed empty_map-IsValid empty_map-HasRoom empty_map-absent

typed_arrays_lem_example :
    ArrayTrip hmap_add_string_array hmap_get_string_array empty_map none speed 4096 3
    × ArrayTrip hmap_add_u64_array hmap_get_u64_array empty_map none speed 4096 3
    × ArrayTrip hmap_add_u32_array hmap_get_u32_array empty_map none speed 4096 3
    × ArrayTrip hmap_add_u16_array hmap_get_u16_array empty_map none speed 4096 3
    × ArrayTrip hmap_add_u8_array hmap_get_u8_array empty_map none speed 4096 3
    × ArrayTrip hmap_add_i64_array hmap_get_i64_array empty_map none speed 4096 3
    × ArrayTrip hmap_add_i32_array hmap_get_i32_array empty_map none speed 4096 3
    × ArrayTrip hmap_add_i16_array hmap_get_i16_array empty_map none speed 4096 3
    × ArrayTrip hmap_add_i8_array hmap_get_i8_array empty_map none speed 4096 3
    × ArrayTrip hmap_add_double_array hmap_get_double_array empty_map none speed 4096 3
    × ArrayTrip hmap_add_pointer_array hmap_get_pointer_array empty_map none speed 4096 3
typed_arrays_lem_example =
    typed_arrays_lem empty_map none speed 4096 3 empty_map-IsValid empty_map-HasRoom
      empty_map-absent (omega arith)

kvp_list-hmap_count_example :
    (l : List HmapKvp) × (kvp_list one_map (suc one_map.capacity) 0 ≡ some l)
    × (length l ≡ hmap_count one_map)
kvp_list-hmap_count_example = kvp_list-hmap_count one_map one_map-IsValid

abbrev entry_of : Option Str → Str → HmapKvp
entry_of p k = record empty_kvp { prefix = p; key = some k }

kvp_cmp-IsOrder_example :
    (kvp_cmp (entry_of none speed) (entry_of (some speed) speed)
      ≡ flip (kvp_cmp (entry_of (some speed) speed) (entry_of none speed)))
    × (kvp_cmp (entry_of (some speed) speed) (entry_of none speed) ≡ lt
        → kvp_cmp (entry_of none speed) (entry_of none (120 ∷ [])) ≡ lt
        → kvp_cmp (entry_of (some speed) speed) (entry_of none (120 ∷ [])) ≡ lt)
    × (kvp_cmp (entry_of (some speed) speed) (entry_of none speed) ≡ eq
        → (some speed ≡ none) × (speed ≡ speed))
kvp_cmp-IsOrder_example =
    kvp_cmp-IsOrder (entry_of (some speed) speed) (entry_of none speed) (entry_of none (120 ∷ []))

-- A map made for 32 entries stays at 8: it would grow by 32 only.
eight_only :
    hmap_update_capacity (record empty_map { curr_capacity = 8 })
    ≡ (ok, record empty_map { curr_capacity = 8 })
unfolding hmap_update_capacity
eight_only = refl
