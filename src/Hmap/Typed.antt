-- ===== src/Hmap/Typed.antt =====
-- The typed helpers of lib/hmap/hmap.h: what is added is what the getter of its type reads.
use pktgen_dpdk.Base.{
  ◌^◌, ℤ, u32, u16, u8, to_int, to_word, FitsIn, to_int-to_word, ◌<◌, ℕ, ◌≡◌, refl, ap, ◌∙◌, false,
  Option, none, some, ◌==◌, eq→==, if◌then◌else◌, taken, ◌<◌, ◌^◌,
}
use native.Mathlib.Nat.{mod-eq_of_lt}
use pktgen_dpdk.Hmap.State.{
  Str, HmapType, Hmap, type_index, slot, u64_type, cmp_fields, u32_type, u16_type, u8_type,
  i64_type, i32_type, i16_type, i8_type,
}
use pktgen_dpdk.Hmap.Ops.{Ret, ok, hmap_add, hmap_kvp_lookup}
use pktgen_dpdk.Hmap.Keys.{cmp_fields_refl}
use pktgen_dpdk.Hmap.Valid.{IsValid}
use pktgen_dpdk.Hmap.Lookup.{entries}
use pktgen_dpdk.Hmap.Grow.{HasRoom}
use pktgen_dpdk.Hmap.Add.{hmap_add_lem}
use pktgen_dpdk.Hmap.Refine.{behind}
use pktgen_dpdk.Hmap.Values.{
  hmap_add_u64, hmap_add_u32, hmap_add_u16, hmap_add_u8, hmap_add_i64, hmap_add_i32, hmap_add_i16,
  hmap_add_i8,
}
use pktgen_dpdk.Hmap.Getters.{
  get_kvp, with_slot, hmap_get_u64, hmap_get_u32, hmap_get_u16, hmap_get_u8, hmap_get_i64,
  hmap_get_i32, hmap_get_i16, hmap_get_i8,
}

-- The slot of an entry of the type that is asked for.
pub get_kvp_at :
    (hmap : Hmap) (type : HmapType) (p : Option Str) (k : Str) (i : ℕ)
    → hmap_kvp_lookup hmap p (some k) ≡ some i
    → (slot hmap.map i).type ≡ type
    → get_kvp hmap p (some k) type ≡ some i
unfolding get_kvp
get_kvp_at hmap type p k i found e =
    ap
      (λ o. elim o [
        | none ↦ none
        | some i ↦ if type_index (slot hmap.map i).type == type_index type then some i else none
      ])
      found
    ∙ taken (type_index (slot hmap.map i).type == type_index type) _ _ (eq→== _ _ (ap type_index e))

-- A getter on an entry of its type reads the value.
get_kvp_lem :
    {A : Type 0} (hmap : Hmap) (type : HmapType) (p : Option Str) (k : Str) (val : ℕ) (g : ℕ → A)
    → entries hmap p k ≡ some (type, val)
    → with_slot hmap (λ kvp. g kvp.v) (get_kvp hmap p (some k) type) ≡ some (g val)
get_kvp_lem hmap type p k val g e =
    let (i, found, c) = behind hmap p k (type, val) e in
    ap (with_slot hmap (λ kvp. g kvp.v)) (get_kvp_at hmap type p k i found (ap (λ c. c.0) c))
    ∙ ap (λ c. some (g (c.1))) c

-- An adder whose value the getter reads back.
abbrev pub RoundTrip :
    {A : Type 0}
    → (Hmap → Option Str → Option Str → A → Ret × Hmap)
    → (Hmap → Option Str → Option Str → Option A)
    → Hmap
    → Option Str
    → Str
    → A
    → Type 0
RoundTrip add get hmap p k val =
    (hmap' : Hmap) × (add hmap p (some k) val ≡ (ok, hmap')) × (get hmap' p (some k) ≡ some val)

module _ (hmap : Hmap) (p : Option Str) (k : Str) (v : IsValid hmap) (room : HasRoom hmap)
    (absent : entries hmap p k ≡ none) where
  -- hmap_add, read by a getter of the same type.
  round_trip :
      {A : Type 0} (type : HmapType) (word : ℕ) (g : ℕ → A) (val : A)
      → (type_index type == 0) ≡ false
      → g word ≡ val
      → (hmap' : Hmap) × (hmap_add hmap type p (some k) word ≡ (ok, hmap'))
        × (with_slot hmap' (λ kvp. g kvp.v) (get_kvp hmap' p (some k) type) ≡ some val)
  round_trip type word g val named same =
      let (hmap', done, h) = hmap_add_lem hmap type p k word v named room absent in
      let read = h.holds p k ∙ taken (cmp_fields p (some k) p k) _ _ (cmp_fields_refl p k) in
      (hmap', done, get_kvp_lem hmap' type p k word g read ∙ ap some same)

-- For a prefix and a key that a valid map with room does not hold, every integer that fits the type of
-- a helper is added, and the getter of that type reads it back.
pub typed_values_lem :
    (hmap : Hmap) (p : Option Str) (k : Str)
    → IsValid hmap
    → HasRoom hmap
    → entries hmap p k ≡ none
    → ((val : ℕ) → RoundTrip hmap_add_u64 hmap_get_u64 hmap p k val)
      × ((val : ℕ) → val < 2 ^ 32 → RoundTrip hmap_add_u32 hmap_get_u32 hmap p k val)
      × ((val : ℕ) → val < 65536 → RoundTrip hmap_add_u16 hmap_get_u16 hmap p k val)
      × ((val : ℕ) → val < 256 → RoundTrip hmap_add_u8 hmap_get_u8 hmap p k val)
      × ((val : ℤ) → FitsIn (2 ^ 64) val → RoundTrip hmap_add_i64 hmap_get_i64 hmap p k val)
      × ((val : ℤ) → FitsIn (2 ^ 32) val → RoundTrip hmap_add_i32 hmap_get_i32 hmap p k val)
      × ((val : ℤ) → FitsIn 65536 val → RoundTrip hmap_add_i16 hmap_get_i16 hmap p k val)
      × ((val : ℤ) → FitsIn 256 val → RoundTrip hmap_add_i8 hmap_get_i8 hmap p k val)
unfolding hmap_add_u64 hmap_get_u64 hmap_add_u32 hmap_get_u32 hmap_add_u16 hmap_get_u16 hmap_add_u8
    hmap_get_u8 hmap_add_i64 hmap_get_i64 hmap_add_i32 hmap_get_i32 hmap_add_i16 hmap_get_i16
    hmap_add_i8 hmap_get_i8 type_index
typed_values_lem hmap p k v room e = (
  λ val. round_trip hmap p k v room e u64_type val (λ n. n) val refl refl,
  λ val lt. round_trip hmap p k v room e u32_type val u32 val refl (mod-eq_of_lt lt),
  λ val lt. round_trip hmap p k v room e u16_type val u16 val refl (mod-eq_of_lt lt),
  λ val lt. round_trip hmap p k v room e u8_type val u8 val refl (mod-eq_of_lt lt),
  λ val fits.
      round_trip hmap p k v room e i64_type (to_word (2 ^ 64) val) (to_int (2 ^ 64)) val refl
        (to_int-to_word (2 ^ 64) val fits),
  λ val fits.
      round_trip hmap p k v room e i32_type (to_word (2 ^ 32) val) (to_int (2 ^ 32)) val refl
        (to_int-to_word (2 ^ 32) val fits),
  λ val fits.
      round_trip hmap p k v room e i16_type (to_word 65536 val) (to_int 65536) val refl
        (to_int-to_word 65536 val fits),
  λ val fits.
      round_trip hmap p k v room e i8_type (to_word 256 val) (to_int 256) val refl
        (to_int-to_word 256 val fits),
)
