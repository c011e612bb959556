-- ===== src/Hmap/Getters.antt =====
-- The getters of lib/hmap/hmap.h. The result of a getter is `none` where the code returns -1.
use pktgen_dpdk.Base.{ℕ, ◌^◌, ℤ, to_int, u8, u16, u32, Option, none, some, ◌==◌, if◌then◌else◌}
use pktgen_dpdk.Hmap.State.{
  Str, HmapType, HmapKvp, Hmap, slot, type_index, str_type, u64_type, u32_type, u16_type, u8_type,
  i64_type, i32_type, i16_type, i8_type, double_type, pointer_type, str_array_type, u64_array_type,
  u32_array_type, u16_array_type, u8_array_type, i64_array_type, i32_array_type, i16_array_type,
  i8_array_type, double_array_type, ptr_array_type,
}
use pktgen_dpdk.Hmap.Ops.{hmap_kvp_lookup}

-- The slot of the entry, if its type is the one that is asked for.
unfoldable pub get_kvp : Hmap → (prefix key : Option Str) → HmapType → Option ℕ
get_kvp hmap prefix key type = elim (hmap_kvp_lookup hmap prefix key) [
  | none ↦ none
  | some i ↦ if type_index (slot hmap.map i).type == type_index type then some i else none
]

abbrev pub with_slot : {A : Type 0} → Hmap → (HmapKvp → A) → Option ℕ → Option A
with_slot hmap f none = none
with_slot hmap f (some i) = some (f (slot hmap.map i))

unfoldable pub hmap_get_string : Hmap → (prefix key : Option Str) → Option ℕ
hmap_get_string hmap prefix key = with_slot hmap (λ kvp. kvp.v) (get_kvp hmap prefix key str_type)

unfoldable pub hmap_get_u64 : Hmap → (prefix key : Option Str) → Option ℕ
hmap_get_u64 hmap prefix key = with_slot hmap (λ kvp. kvp.v) (get_kvp hmap prefix key u64_type)

unfoldable pub hmap_get_u32 : Hmap → (prefix key : Option Str) → Option ℕ
hmap_get_u32 hmap prefix key = with_slot hmap (λ kvp. u32 kvp.v) (get_kvp hmap prefix key u32_type)

unfoldable pub hmap_get_u16 : Hmap → (prefix key : Option Str) → Option ℕ
hmap_get_u16 hmap prefix key = with_slot hmap (λ kvp. u16 kvp.v) (get_kvp hmap prefix key u16_type)

unfoldable pub hmap_get_u8 : Hmap → (prefix key : Option Str) → Option ℕ
hmap_get_u8 hmap prefix key = with_slot hmap (λ kvp. u8 kvp.v) (get_kvp hmap prefix key u8_type)

unfoldable pub hmap_get_i64 : Hmap → (prefix key : Option Str) → Option ℤ
hmap_get_i64 hmap prefix key =
    with_slot hmap (λ kvp. to_int (2 ^ 64) kvp.v) (get_kvp hmap prefix key i64_type)

unfoldable pub hmap_get_i32 : Hmap → (prefix key : Option Str) → Option ℤ
hmap_get_i32 hmap prefix key =
    with_slot hmap (λ kvp. to_int (2 ^ 32) kvp.v) (get_kvp hmap prefix key i32_type)

unfoldable pub hmap_get_i16 : Hmap → (prefix key : Option Str) → Option ℤ
hmap_get_i16 hmap prefix key =
    with_slot hmap (λ kvp. to_int (65536) kvp.v) (get_kvp hmap prefix key i16_type)

unfoldable pub hmap_get_i8 : Hmap → (prefix key : Option Str) → Option ℤ
hmap_get_i8 hmap prefix key =
    with_slot hmap (λ kvp. to_int (256) kvp.v) (get_kvp hmap prefix key i8_type)

unfoldable pub hmap_get_double : Hmap → (prefix key : Option Str) → Option ℕ
hmap_get_double hmap prefix key =
    with_slot hmap (λ kvp. kvp.v) (get_kvp hmap prefix key double_type)

unfoldable pub hmap_get_pointer : Hmap → (prefix key : Option Str) → Option ℕ
hmap_get_pointer hmap prefix key =
    with_slot hmap (λ kvp. kvp.v) (get_kvp hmap prefix key pointer_type)

-- The address of an array, and its 32-bit count as the int that the getter returns.
abbrev pub array_of : HmapKvp → ℕ × ℤ
array_of kvp = (kvp.v, to_int (2 ^ 32) kvp.count)

unfoldable pub hmap_get_string_array : Hmap → (prefix key : Option Str) → Option (ℕ × ℤ)
hmap_get_string_array hmap prefix key =
    with_slot hmap array_of (get_kvp hmap prefix key str_array_type)

unfoldable pub hmap_get_u64_array : Hmap → (prefix key : Option Str) → Option (ℕ × ℤ)
hmap_get_u64_array hmap prefix key =
    with_slot hmap array_of (get_kvp hmap prefix key u64_array_type)

unfoldable pub hmap_get_u32_array : Hmap → (prefix key : Option Str) → Option (ℕ × ℤ)
hmap_get_u32_array hmap prefix key =
    with_slot hmap array_of (get_kvp hmap prefix key u32_array_type)

unfoldable pub hmap_get_u16_array : Hmap → (prefix key : Option Str) → Option (ℕ × ℤ)
hmap_get_u16_array hmap prefix key =
    with_slot hmap array_of (get_kvp hmap prefix key u16_array_type)

unfoldable pub hmap_get_u8_array : Hmap → (prefix key : Option Str) → Option (ℕ × ℤ)
hmap_get_u8_array hmap prefix key = with_slot hmap array_of (get_kvp hmap prefix key u8_array_type)

unfoldable pub hmap_get_i64_array : Hmap → (prefix key : Option Str) → Option (ℕ × ℤ)
hmap_get_i64_array hmap prefix key =
    with_slot hmap array_of (get_kvp hmap prefix key i64_array_type)

unfoldable pub hmap_get_i32_array : Hmap → (prefix key : Option Str) → Option (ℕ × ℤ)
hmap_get_i32_array hmap prefix key =
    with_slot hmap array_of (get_kvp hmap prefix key i32_array_type)

unfoldable pub hmap_get_i16_array : Hmap → (prefix key : Option Str) → Option (ℕ × ℤ)
hmap_get_i16_array hmap prefix key =
    with_slot hmap array_of (get_kvp hmap prefix key i16_array_type)

unfoldable pub hmap_get_i8_array : Hmap → (prefix key : Option Str) → Option (ℕ × ℤ)
hmap_get_i8_array hmap prefix key = with_slot hmap array_of (get_kvp hmap prefix key i8_array_type)

unfoldable pub hmap_get_double_array : Hmap → (prefix key : Option Str) → Option (ℕ × ℤ)
hmap_get_double_array hmap prefix key =
    with_slot hmap array_of (get_kvp hmap prefix key double_array_type)

unfoldable pub hmap_get_pointer_array : Hmap → (prefix key : Option Str) → Option (ℕ × ℤ)
hmap_get_pointer_array hmap prefix key =
    with_slot hmap array_of (get_kvp hmap prefix key ptr_array_type)
