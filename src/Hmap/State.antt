-- ===== src/Hmap/State.antt =====
-- The types of lib/hmap/hmap.h, and the hash, compare and free functions of hmap_helper.h.
pub use pktgen_dpdk.Base.{Str}
unfoldable pub use pktgen_dpdk.Base.{same_str}
use pktgen_dpdk.Base.{
  ℕ, suc, ◌+◌, ◌*◌, ◌/◌, ◌%◌, Bool, false, ◌&&◌, Option, none, some, List, [], ◌∷◌, ltb,
  if◌then◌else◌, u32, get_or,
}
use Prim.Native.Nat.{bit_xor}

pub data HmapType : Type 0 where
  empty_type : HmapType
  str_type : HmapType
  u64_type : HmapType
  u32_type : HmapType
  u16_type : HmapType
  u8_type : HmapType
  i64_type : HmapType
  i32_type : HmapType
  i16_type : HmapType
  i8_type : HmapType
  double_type : HmapType
  pointer_type : HmapType
  str_array_type : HmapType
  u64_array_type : HmapType
  u32_array_type : HmapType
  u16_array_type : HmapType
  u8_array_type : HmapType
  i64_array_type : HmapType
  i32_array_type : HmapType
  i16_array_type : HmapType
  i8_array_type : HmapType
  double_array_type : HmapType
  ptr_array_type : HmapType

-- The number that C gives the constant.
unfoldable pub type_index : HmapType → ℕ
type_index empty_type = 0
type_index str_type = 1
type_index u64_type = 2
type_index u32_type = 3
type_index u16_type = 4
type_index u8_type = 5
type_index i64_type = 6
type_index i32_type = 7
type_index i16_type = 8
type_index i8_type = 9
type_index double_type = 10
type_index pointer_type = 11
type_index str_array_type = 12
type_index u64_array_type = 13
type_index u32_array_type = 14
type_index u16_array_type = 15
type_index u8_array_type = 16
type_index i64_array_type = 17
type_index i32_array_type = 18
type_index i16_array_type = 19
type_index i8_array_type = 20
type_index double_array_type = 21
type_index ptr_array_type = 22

-- `none` is a NULL string. `v` is the 64 bits of the union hmap_val_t.
pub record HmapKvp : Type 0 where
  pub type : HmapType
  pub count : ℕ
  pub prefix : Option Str
  pub key : Option Str
  pub v : ℕ

-- A slot of the memory that calloc returns.
abbrev pub empty_kvp : HmapKvp
empty_kvp = record { type = empty_type; count = 0; prefix = none; key = none; v = 0 }

pub record HmapFuncs : Type 0 where
  pub hash_fn : Option Str → Str → ℕ
  pub cmp_fn : HmapKvp → Option Str → Str → Bool
  pub free_fn : HmapKvp → HmapKvp

-- The mutex and the links of the registry are left out. `map` holds the allocated slots.
pub record Hmap : Type 0 where
  pub name : Str
  pub capacity : ℕ
  pub max_capacity : ℕ
  pub curr_capacity : ℕ
  pub fns : HmapFuncs
  pub map : List HmapKvp
  pub alloc_count : ℕ

-- One round of the hash loops, for a byte of a signed char.
unfoldable pub hash_step : (hash c : ℕ) → ℕ
hash_step hash c =
    let hash = u32 (hash + (if ltb c 128 then c else 4294967040 + c)) in
    let hash = u32 (hash + u32 (hash * 1024)) in bit_xor hash (hash / 64)

unfoldable pub hash_prefix : ℕ → Str → ℕ
hash_prefix hash [] = hash
hash_prefix hash (c ∷ k) = hash_prefix (hash_step hash c) k

-- The loop over the key goes on while its index is below the (signed) byte at that index.
unfoldable pub hash_key : (i hash : ℕ) → Str → ℕ
hash_key i hash [] = hash
hash_key i hash (c ∷ k) =
    let rest = hash_key (suc i) (hash_step hash c) k in if ltb c 128 && ltb i c then rest else hash

unfoldable pub hash_finish : ℕ → ℕ
hash_finish hash =
    let hash = u32 (hash + u32 (hash * 8)) in
    let hash = bit_xor hash (hash / 2048) in u32 (hash + u32 (hash * 32768))

unfoldable pub hmap_hash : Option Str → Str → ℕ
hmap_hash none key = hash_finish (hash_key 0 0 key)
hmap_hash (some prefix) key = hash_finish (hash_key 0 (hash_prefix 0 prefix) key)

-- The comparison of a string with one that may be NULL.
unfoldable pub same_key : Option Str → Str → Bool
same_key none key = false
same_key (some k) key = same_str key k

unfoldable pub cmp_fields : (kvp_prefix kvp_key prefix : Option Str) → Str → Bool
cmp_fields none k none key = same_key k key
cmp_fields none k (some p) key = false
cmp_fields (some q) k none key = false
cmp_fields (some q) k (some p) key = same_str p q && same_key k key

unfoldable pub hmap_cmp : HmapKvp → Option Str → Str → Bool
hmap_cmp kvp prefix key = cmp_fields kvp.prefix kvp.key prefix key

-- The free function on a slot; on NULL it does nothing.
unfoldable pub hmap_free : HmapKvp → HmapKvp
hmap_free kvp = record kvp { key = none; prefix = none; v = 0; count = 0; type = empty_type }

-- A slot of the table. Indices stay below the capacity, which is the number of slots.
abbrev pub slot : List HmapKvp → ℕ → HmapKvp
slot map i = get_or map i empty_kvp

unfoldable pub hmap_get_hash : Hmap → Option Str → Str → ℕ
hmap_get_hash hmap prefix key = hmap.fns.hash_fn prefix key % hmap.capacity

unfoldable pub hmap_compare : Hmap → HmapKvp → Option Str → Str → Bool
hmap_compare hmap kvp prefix key = hmap.fns.cmp_fn kvp prefix key

unfoldable pub hmap_capacity : Hmap → ℕ
hmap_capacity hmap = hmap.capacity

unfoldable pub hmap_count : Hmap → ℕ
hmap_count hmap = hmap.curr_capacity

unfoldable pub hmap_get_alloc_count : Hmap → ℕ
hmap_get_alloc_count hmap = hmap.alloc_count
