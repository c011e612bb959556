-- ===== src/Hmap/ArrayTrip.antt =====
-- The array helpers of lib/hmap/hmap.h: the getter reads the address and the count that were added.
use pktgen_dpdk.Base.{
  ℕ, ◌-◌, ◌<◌, ◌^◌, ◌≡◌, refl, ap, ap₂, ◌∙◌, false, Option, none, some, ◌==◌, if◌then◌else◌, taken,
  ℤ, pos, negsuc, ltb, lt→ltb, u32, to_int, arith,
}
use pktgen_dpdk.Hmap.State.{
  Str, HmapType, Hmap, type_index, slot, cmp_fields, str_array_type, u64_array_type, u32_array_type,
  u16_array_type, u8_array_type, i64_array_type, i32_array_type, i16_array_type, i8_array_type,
  double_array_type, ptr_array_type,
}
use pktgen_dpdk.Hmap.Ops.{Ret, ok, put, hmap_add, hmap_kvp_lookup}
use pktgen_dpdk.Hmap.Find.{content}
use pktgen_dpdk.Hmap.Keys.{cmp_fields_refl}
use pktgen_dpdk.Hmap.Valid.{IsValid}
use pktgen_dpdk.Hmap.Lookup.{entries}
use pktgen_dpdk.Hmap.Grow.{HasRoom}
use pktgen_dpdk.Hmap.Add.{hmap_add_lem}
use pktgen_dpdk.Hmap.Change.{replaced_lem, replaced_read}
use pktgen_dpdk.Hmap.Refine.{behind}
use pktgen_dpdk.Hmap.Typed.{get_kvp_at}
use pktgen_dpdk.Hmap.Arrays.{
  counted_kvp, count_at, with_count, hmap_add_string_array, hmap_add_u64_array, hmap_add_u32_array,
  hmap_add_u16_array, hmap_add_u8_array, hmap_add_i64_array, hmap_add_i32_array, hmap_add_i16_array,
  hmap_add_i8_array, hmap_add_double_array, hmap_add_pointer_array,
}
use pktgen_dpdk.Hmap.Getters.{
  get_kvp, with_slot, array_of, hmap_get_string_array, hmap_get_u64_array, hmap_get_u32_array,
  hmap_get_u16_array, hmap_get_u8_array, hmap_get_i64_array, hmap_get_i32_array, hmap_get_i16_array,
  hmap_get_i8_array, hmap_get_double_array, hmap_get_pointer_array,
}

-- A count below 2^31 is the int that the getter returns.
signed : (count : ℕ) → count < 2 ^ 31 → to_int (2 ^ 32) count ≡ pos count
unfolding to_int
signed count lt =
    let e : u32 count ≡ count = omega arith in
    ap (λ m. if ltb m (2 ^ 31) then pos m else negsuc (2 ^ 32 - 1 - m)) e
    ∙ taken (ltb count (2 ^ 31)) (pos count) (negsuc (2 ^ 32 - 1 - count))
        (lt→ltb count (2 ^ 31) lt)

-- The getter on the map after the count was set.
counted_read :
    (hmap : Hmap) (v : IsValid hmap) (type : HmapType) (p : Option Str) (k : Str) (val count : ℕ)
    → count < 2 ^ 31
    → entries hmap p k ≡ some (type, val)
    → with_slot
        (count_at hmap count (hmap_kvp_lookup hmap p (some k)))
        array_of
        (get_kvp (count_at hmap count (hmap_kvp_lookup hmap p (some k))) p (some k) type)
      ≡ some (val, pos count)
unfolding get_kvp
counted_read hmap v type p k val count lt e =
    let (i, found, c) = behind hmap p k (type, val) e in
    let new = counted_kvp (slot hmap.map i) count in
    let h = replaced_lem hmap v p k i found new refl refl refl in
    let read = h.holds p k ∙ taken (cmp_fields p (some k) p k) _ _ (cmp_fields_refl p k) in
    let (i', found', c') = behind (put hmap i new) p k (content (slot hmap.map i)) read in
    let at = replaced_read hmap v p k i found new refl refl refl i' found' in
    ap
      (λ o.
        with_slot (count_at hmap count o) array_of
          (get_kvp (count_at hmap count o) p (some k) type))
      found
    ∙ ap (with_slot (put hmap i new) array_of)
        (get_kvp_at (put hmap i new) type p k i' found' (ap (λ c. c.0) c' ∙ ap (λ c. c.0) c))
    ∙ ap (λ s. some (array_of s)) at
    ∙ ap₂ (λ a n. some (a, n)) (ap (λ c. c.1) c) (signed count lt)

-- An array helper and its getter: the address and the count come back.
abbrev pub ArrayTrip :
    (Hmap → Option Str → Option Str → (val count : ℕ) → Ret × Hmap)
    → (Hmap → Option Str → Option Str → Option (ℕ × ℤ))
    → Hmap
    → Option Str
    → Str
    → (val count : ℕ) → Type 0
ArrayTrip add get hmap p k val count =
    (hmap' : Hmap) × (add hmap p (some k) val count ≡ (ok, hmap'))
    × (get hmap' p (some k) ≡ some (val, pos count))

array_trip :
    (hmap : Hmap) (p : Option Str) (k : Str) (val count : ℕ)
    → IsValid hmap
    → HasRoom hmap
    → entries hmap p k ≡ none
    → count < 2 ^ 31
    → (type : HmapType) → (type_index type == 0) ≡ false
    → (hmap' : Hmap) × (with_count (hmap_add hmap type p (some k) val) p (some k) count
        ≡ (ok, hmap'))
      × (with_slot hmap' array_of (get_kvp hmap' p (some k) type) ≡ some (val, pos count))
unfolding with_count
array_trip hmap p k val count v room absent lt type named =
    let (hmap1, done, h) = hmap_add_lem hmap type p k val v named room absent in
    let read = h.holds p k ∙ taken (cmp_fields p (some k) p k) _ _ (cmp_fields_refl p k) in
    (
      count_at hmap1 count (hmap_kvp_lookup hmap1 p (some k)),
      ap (λ r. with_count r p (some k) count) done,
      counted_read hmap1 h.valid type p k val count lt read,
    )

-- For a prefix and a key that a valid map with room does not hold, every array of fewer than 2^31
-- elements is added, and the getter of its type reads its address and its count back.
pub typed_arrays_lem :
    (hmap : Hmap) (p : Option Str) (k : Str) (val count : ℕ)
    → IsValid hmap
    → HasRoom hmap
    → entries hmap p k ≡ none
    → count < 2 ^ 31
    → ArrayTrip hmap_add_string_array hmap_get_string_array hmap p k val count
      × ArrayTrip hmap_add_u64_array hmap_get_u64_array hmap p k val count
      × ArrayTrip hmap_add_u32_array hmap_get_u32_array hmap p k val count
      × ArrayTrip hmap_add_u16_array hmap_get_u16_array hmap p k val count
      × ArrayTrip hmap_add_u8_array hmap_get_u8_array hmap p k val count
      × ArrayTrip hmap_add_i64_array hmap_get_i64_array hmap p k val count
      × ArrayTrip hmap_add_i32_array hmap_get_i32_array hmap p k val count
      × ArrayTrip hmap_add_i16_array hmap_get_i16_array hmap p k val count
      × ArrayTrip hmap_add_i8_array hmap_get_i8_array hmap p k val count
      × ArrayTrip hmap_add_double_array hmap_get_double_array hmap p k val count
      × ArrayTrip hmap_add_pointer_array hmap_get_pointer_array hmap p k val count
unfolding hmap_add_string_array hmap_get_string_array hmap_add_u64_array hmap_get_u64_array
    hmap_add_u32_array hmap_get_u32_array hmap_add_u16_array hmap_get_u16_array hmap_add_u8_array
    hmap_get_u8_array hmap_add_i64_array hmap_get_i64_array hmap_add_i32_array hmap_get_i32_array
    hmap_add_i16_array hmap_get_i16_array hmap_add_i8_array hmap_get_i8_array hmap_add_double_array
    hmap_get_double_array hmap_add_pointer_array hmap_get_pointer_array type_index
typed_arrays_lem hmap p k val count v room e lt =
    let trip = array_trip hmap p k val count v room e lt in
    (
      trip str_array_type refl,
      trip u64_array_type refl,
      trip u32_array_type refl,
      trip u16_array_type refl,
      trip u8_array_type refl,
      trip i64_array_type refl,
      trip i32_array_type refl,
      trip i16_array_type refl,
      trip i8_array_type refl,
      trip double_array_type refl,
      trip ptr_array_type refl,
    )
