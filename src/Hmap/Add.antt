-- ===== src/Hmap/Add.antt =====
-- hmap_add, hmap_update and hmap_del of lib/hmap/hmap.c as writes to the entries of the map.
use pktgen_dpdk.Base.{
  ℕ, suc, ◌≡◌, refl, sym, ap, ◌∙◌, false, Option, none, some, ◌==◌, if◌then◌else◌,
}
use pktgen_dpdk.Hmap.State.{Str, HmapType, Hmap, type_index, cmp_fields}
use pktgen_dpdk.Hmap.Ops.{ok, err, and_then, add_value, grow_and_add, hmap_kvp_lookup, hmap_add}
use pktgen_dpdk.Hmap.Valid.{IsValid, Entries, written}
use pktgen_dpdk.Hmap.Insert.{add_value_lem}
use pktgen_dpdk.Hmap.Lookup.{entries, entries-find, read}
use pktgen_dpdk.Hmap.Grow.{HasRoom, hmap_update_capacity_lem}

-- A valid map that holds given entries and counts them.
pub record Holds (hmap : Hmap) (m : Entries) (n : ℕ) : Type 0 where
  pub valid : IsValid hmap
  pub holds : (p : Option Str) (k : Str) → entries hmap p k ≡ m p k
  pub counts : hmap.curr_capacity ≡ n

module _ (hmap : Hmap) (v : IsValid hmap) (type : HmapType) (p : Option Str) (k : Str) (val : ℕ)
    (named : (type_index type == 0) ≡ false) where
  -- The entries before and after, as the lookups of the code read them.
  pub grow_and_add_lem :
      HasRoom hmap
      → entries hmap p k ≡ none
      → (hmap' : Hmap) × (grow_and_add hmap type p k val ≡ (ok, hmap'))
        × Holds hmap' (written (entries hmap) p k (some (type, val))) (suc hmap.curr_capacity)
  unfolding grow_and_add
  grow_and_add_lem room absent =
      let (hmap1, grew, r) = hmap_update_capacity_lem hmap v room in
      let (hmap2, added, a) =
        add_value_lem hmap1 r.valid type p k val named
          (r.holds p k ∙ sym (entries-find hmap v p k) ∙ absent) r.more in
      (
        hmap2,
        ap (λ s. and_then s (λ m. add_value m type p k val)) grew ∙ added,
        record {
          valid = a.valid;
          holds = λ p' k'.
              entries-find hmap2 a.valid p' k'
              ∙ a.holds p' k'
              ∙ ap (λ o. if cmp_fields p (some k) p' k' then some (type, val) else o)
                  (r.holds p' k' ∙ sym (entries-find hmap v p' k'));
          counts = a.one_more ∙ ap suc r.counts;
        },
      )

pub absent_lookup :
    (hmap : Hmap) (p : Option Str) (k : Str)
    → entries hmap p k ≡ none
    → hmap_kvp_lookup hmap p (some k) ≡ none
unfolding entries
absent_lookup hmap p k e = go (hmap_kvp_lookup hmap p (some k)) e
  where
    go : (o : Option ℕ) → read hmap.map o ≡ none → o ≡ none
    go none e = refl
    go (some i) e = absurd cc

-- hmap_add of a new prefix and key, of a type other than that of an empty slot, succeeds while the
-- map has an empty slot or may grow. It writes that entry, keeps the type and the value of all others,
-- and counts it.
pub hmap_add_lem :
    (hmap : Hmap) (type : HmapType) (p : Option Str) (k : Str) (val : ℕ)
    → IsValid hmap
    → (type_index type == 0) ≡ false
    → HasRoom hmap
    → entries hmap p k ≡ none
    → (hmap' : Hmap) × (hmap_add hmap type p (some k) val ≡ (ok, hmap'))
      × Holds hmap' (written (entries hmap) p k (some (type, val))) (suc hmap.curr_capacity)
unfolding hmap_add
hmap_add_lem hmap type p k val v named room absent =
    let (hmap', done, h) = grow_and_add_lem hmap v type p k val named room absent in
    (
      hmap',
      ap (λ o. elim o [ some i ↦ (err, hmap) | none ↦ grow_and_add hmap type p k val ])
            (absent_lookup hmap p k absent)
          ∙ done,
      h,
    )
