-- ===== src/Hmap/Values.antt =====
-- The helpers of lib/hmap/hmap.h that add and update one value. Strings and pointers are addresses,
-- and a double is the word of its 64 bits.
use pktgen_dpdk.Base.{ℕ, ◌^◌, ℤ, to_word, Option}
use pktgen_dpdk.Hmap.State.{
  Str, Hmap, str_type, u64_type, u32_type, u16_type, u8_type, i64_type, i32_type, i16_type, i8_type,
  double_type, pointer_type,
}
use pktgen_dpdk.Hmap.Ops.{Ret, hmap_add, hmap_update}

unfoldable pub hmap_add_string : Hmap → (prefix key : Option Str) → (val : ℕ) → Ret × Hmap
hmap_add_string hmap prefix key val = hmap_add hmap str_type prefix key val

unfoldable pub hmap_add_u64 : Hmap → (prefix key : Option Str) → (val : ℕ) → Ret × Hmap
hmap_add_u64 hmap prefix key val = hmap_add hmap u64_type prefix key val

unfoldable pub hmap_add_u32 : Hmap → (prefix key : Option Str) → (val : ℕ) → Ret × Hmap
hmap_add_u32 hmap prefix key val = hmap_add hmap u32_type prefix key val

unfoldable pub hmap_add_u16 : Hmap → (prefix key : Option Str) → (val : ℕ) → Ret × Hmap
hmap_add_u16 hmap prefix key val = hmap_add hmap u16_type prefix key val

unfoldable pub hmap_add_u8 : Hmap → (prefix key : Option Str) → (val : ℕ) → Ret × Hmap
hmap_add_u8 hmap prefix key val = hmap_add hmap u8_type prefix key val

unfoldable pub hmap_add_i64 : Hmap → (prefix key : Option Str) → (val : ℤ) → Ret × Hmap
hmap_add_i64 hmap prefix key val = hmap_add hmap i64_type prefix key (to_word (2 ^ 64) val)

unfoldable pub hmap_add_i32 : Hmap → (prefix key : Option Str) → (val : ℤ) → Ret × Hmap
hmap_add_i32 hmap prefix key val = hmap_add hmap i32_type prefix key (to_word (2 ^ 32) val)

unfoldable pub hmap_add_i16 : Hmap → (prefix key : Option Str) → (val : ℤ) → Ret × Hmap
hmap_add_i16 hmap prefix key val = hmap_add hmap i16_type prefix key (to_word (65536) val)

unfoldable pub hmap_add_i8 : Hmap → (prefix key : Option Str) → (val : ℤ) → Ret × Hmap
hmap_add_i8 hmap prefix key val = hmap_add hmap i8_type prefix key (to_word (256) val)

unfoldable pub hmap_add_double : Hmap → (prefix key : Option Str) → (val : ℕ) → Ret × Hmap
hmap_add_double hmap prefix key val = hmap_add hmap double_type prefix key val

unfoldable pub hmap_add_pointer : Hmap → (prefix key : Option Str) → (val : ℕ) → Ret × Hmap
hmap_add_pointer hmap prefix key val = hmap_add hmap pointer_type prefix key val

unfoldable pub hmap_update_string : Hmap → (prefix key : Option Str) → (val : ℕ) → Ret × Hmap
hmap_update_string hmap prefix key val = hmap_update hmap str_type prefix key val

unfoldable pub hmap_update_u64 : Hmap → (prefix key : Option Str) → (val : ℕ) → Ret × Hmap
hmap_update_u64 hmap prefix key val = hmap_update hmap u64_type prefix key val

unfoldable pub hmap_update_u32 : Hmap → (prefix key : Option Str) → (val : ℕ) → Ret × Hmap
hmap_update_u32 hmap prefix key val = hmap_update hmap u32_type prefix key val

unfoldable pub hmap_update_u16 : Hmap → (prefix key : Option Str) → (val : ℕ) → Ret × Hmap
hmap_update_u16 hmap prefix key val = hmap_update hmap u16_type prefix key val

unfoldable pub hmap_update_u8 : Hmap → (prefix key : Option Str) → (val : ℕ) → Ret × Hmap
hmap_update_u8 hmap prefix key val = hmap_update hmap u8_type prefix key val

unfoldable pub hmap_update_i64 : Hmap → (prefix key : Option Str) → (val : ℤ) → Ret × Hmap
hmap_update_i64 hmap prefix key val = hmap_update hmap i64_type prefix key (to_word (2 ^ 64) val)

unfoldable pub hmap_update_i32 : Hmap → (prefix key : Option Str) → (val : ℤ) → Ret × Hmap
hmap_update_i32 hmap prefix key val = hmap_update hmap i32_type prefix key (to_word (2 ^ 32) val)

unfoldable pub hmap_update_i16 : Hmap → (prefix key : Option Str) → (val : ℤ) → Ret × Hmap
hmap_update_i16 hmap prefix key val = hmap_update hmap i16_type prefix key (to_word (65536) val)

unfoldable pub hmap_update_i8 : Hmap → (prefix key : Option Str) → (val : ℤ) → Ret × Hmap
hmap_update_i8 hmap prefix key val = hmap_update hmap i8_type prefix key (to_word (256) val)

unfoldable pub hmap_update_double : Hmap → (prefix key : Option Str) → (val : ℕ) → Ret × Hmap
hmap_update_double hmap prefix key val = hmap_update hmap double_type prefix key val

unfoldable pub hmap_update_pointer : Hmap → (prefix key : Option Str) → (val : ℕ) → Ret × Hmap
hmap_update_pointer hmap prefix key val = hmap_update hmap pointer_type prefix key val
