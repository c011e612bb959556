-- ===== src/Hmap/Arrays.antt =====
-- The helpers of lib/hmap/hmap.h that add and update an array, by its address and its count.
use pktgen_dpdk.Base.{ℕ, Option, none, some}
use pktgen_dpdk.Hmap.State.{
  Str, HmapKvp, Hmap, slot, str_array_type, u64_array_type, u32_array_type, u16_array_type,
  u8_array_type, i64_array_type, i32_array_type, i16_array_type, i8_array_type, double_array_type,
  ptr_array_type,
}
use pktgen_dpdk.Hmap.Ops.{Ret, ok, err, put, hmap_kvp_lookup, hmap_add, hmap_update}

-- `kvp->count = count`
abbrev pub counted_kvp : HmapKvp → (count : ℕ) → HmapKvp
counted_kvp kvp count = record kvp { count = count }

abbrev pub count_at : Hmap → (count : ℕ) → Option ℕ → Hmap
count_at hmap count none = hmap
count_at hmap count (some i) = put hmap i (counted_kvp (slot hmap.map i) count)

-- After a call that returned 0 the count goes to the entry that a lookup finds.
unfoldable pub with_count : Ret × Hmap → (prefix key : Option Str) → (count : ℕ) → Ret × Hmap
with_count (ok, hmap) prefix key count = (ok, count_at hmap count (hmap_kvp_lookup hmap prefix key))
with_count (err, hmap) prefix key count = (err, hmap)

unfoldable pub hmap_add_string_array :
    Hmap → (prefix key : Option Str) → (val count : ℕ) → Ret × Hmap
hmap_add_string_array hmap prefix key val count =
    with_count (hmap_add hmap str_array_type prefix key val) prefix key count

unfoldable pub hmap_add_u64_array : Hmap → (prefix key : Option Str) → (val count : ℕ) → Ret × Hmap
hmap_add_u64_array hmap prefix key val count =
    with_count (hmap_add hmap u64_array_type prefix key val) prefix key count

unfoldable pub hmap_add_u32_array : Hmap → (prefix key : Option Str) → (val count : ℕ) → Ret × Hmap
hmap_add_u32_array hmap prefix key val count =
    with_count (hmap_add hmap u32_array_type prefix key val) prefix key count

unfoldable pub hmap_add_u16_array : Hmap → (prefix key : Option Str) → (val count : ℕ) → Ret × Hmap
hmap_add_u16_array hmap prefix key val count =
    with_count (hmap_add hmap u16_array_type prefix key val) prefix key count

unfoldable pub hmap_add_u8_array : Hmap → (prefix key : Option Str) → (val count : ℕ) → Ret × Hmap
hmap_add_u8_array hmap prefix key val count =
    with_count (hmap_add hmap u8_array_type prefix key val) prefix key count

unfoldable pub hmap_add_i64_array : Hmap → (prefix key : Option Str) → (val count : ℕ) → Ret × Hmap
hmap_add_i64_array hmap prefix key val count =
    with_count (hmap_add hmap i64_array_type prefix key val) prefix key count

unfoldable pub hmap_add_i32_array : Hmap → (prefix key : Option Str) → (val count : ℕ) → Ret × Hmap
hmap_add_i32_array hmap prefix key val count =
    with_count (hmap_add hmap i32_array_type prefix key val) prefix key count

unfoldable pub hmap_add_i16_array : Hmap → (prefix key : Option Str) → (val count : ℕ) → Ret × Hmap
hmap_add_i16_array hmap prefix key val count =
    with_count (hmap_add hmap i16_array_type prefix key val) prefix key count

unfoldable pub hmap_add_i8_array : Hmap → (prefix key : Option Str) → (val count : ℕ) → Ret × Hmap
hmap_add_i8_array hmap prefix key val count =
    with_count (hmap_add hmap i8_array_type prefix key val) prefix key count

unfoldable pub hmap_add_double_array :
    Hmap → (prefix key : Option Str) → (val count : ℕ) → Ret × Hmap
hmap_add_double_array hmap prefix key val count =
    with_count (hmap_add hmap double_array_type prefix key val) prefix key count

unfoldable pub hmap_add_pointer_array :
    Hmap → (prefix key : Option Str) → (val count : ℕ) → Ret × Hmap
hmap_add_pointer_array hmap prefix key val count =
    with_count (hmap_add hmap ptr_array_type prefix key val) prefix key count

unfoldable pub hmap_update_string_array :
    Hmap → (prefix key : Option Str) → (val count : ℕ) → Ret × Hmap
hmap_update_string_array hmap prefix key val count =
    with_count (hmap_update hmap str_array_type prefix key val) prefix key count

unfoldable pub hmap_update_u64_array :
    Hmap → (prefix key : Option Str) → (val count : ℕ) → Ret × Hmap
hmap_update_u64_array hmap prefix key val count =
    with_count (hmap_update hmap u64_array_type prefix key val) prefix key count

unfoldable pub hmap_update_u32_array :
    Hmap → (prefix key : Option Str) → (val count : ℕ) → Ret × Hmap
hmap_update_u32_array hmap prefix key val count =
    with_count (hmap_update hmap u32_array_type prefix key val) prefix key count

unfoldable pub hmap_update_u16_array :
    Hmap → (prefix key : Option Str) → (val count : ℕ) → Ret × Hmap
hmap_update_u16_array hmap prefix key val count =
    with_count (hmap_update hmap u16_array_type prefix key val) prefix key count

unfoldable pub hmap_update_u8_array :
    Hmap → (prefix key : Option Str) → (val count : ℕ) → Ret × Hmap
hmap_update_u8_array hmap prefix key val count =
    with_count (hmap_update hmap u8_array_type prefix key val) prefix key count

unfoldable pub hmap_update_i64_array :
    Hmap → (prefix key : Option Str) → (val count : ℕ) → Ret × Hmap
hmap_update_i64_array hmap prefix key val count =
    with_count (hmap_update hmap i64_array_type prefix key val) prefix key count

unfoldable pub hmap_update_i32_array :
    Hmap → (prefix key : Option Str) → (val count : ℕ) → Ret × Hmap
hmap_update_i32_array hmap prefix key val count =
    with_count (hmap_update hmap i32_array_type prefix key val) prefix key count

unfoldable pub hmap_update_i16_array :
    Hmap → (prefix key : Option Str) → (val count : ℕ) → Ret × Hmap
hmap_update_i16_array hmap prefix key val count =
    with_count (hmap_update hmap i16_array_type prefix key val) prefix key count

unfoldable pub hmap_update_i8_array :
    Hmap → (prefix key : Option Str) → (val count : ℕ) → Ret × Hmap
hmap_update_i8_array hmap prefix key val count =
    with_count (hmap_update hmap i8_array_type prefix key val) prefix key count

unfoldable pub hmap_update_double_array :
    Hmap → (prefix key : Option Str) → (val count : ℕ) → Ret × Hmap
hmap_update_double_array hmap prefix key val count =
    with_count (hmap_update hmap double_array_type prefix key val) prefix key count

unfoldable pub hmap_update_pointer_array :
    Hmap → (prefix key : Option Str) → (val count : ℕ) → Ret × Hmap
hmap_update_pointer_array hmap prefix key val count =
    with_count (hmap_update hmap ptr_array_type prefix key val) prefix key count
