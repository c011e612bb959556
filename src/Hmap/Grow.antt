-- ===== src/Hmap/Grow.antt =====
-- _hmap_update_capacity of lib/hmap/hmap.c: a larger table with the same entries.
use pktgen_dpdk.Base.{
  ℕ, ◌+◌, ◌-◌, ◌<◌, ◌≤◌, ◌^◌, ◌≡◌, refl, sym, ap, ◌∙◌, subst, ◌⊎◌, inl, inr, Bool, true, false,
  ◌&&◌, Option, none, some, length, length-replicate, Bool-cases, leb, leb→le, taken, skipped, u32,
  arith,
}
use pktgen_dpdk.Hmap.State.{Str, Hmap, empty_kvp, hmap_cmp}
use pktgen_dpdk.Hmap.Ops.{ok, add_slots, grown, restored, must_grow, hmap_update_capacity}
use pktgen_dpdk.Hmap.Find.{find, find_nowhere, empty_kvp_lem}
use pktgen_dpdk.Hmap.Slots.{
  free_slot, used, used_le, slot-replicate, used-replicate, Distinct-replicate, used_le,
}
use pktgen_dpdk.Hmap.Valid.{IsValid}
use pktgen_dpdk.Hmap.Refill.{Apart, either, add_slots_lem}

-- The map has an empty slot, or may still grow.
abbrev pub HasRoom : Hmap → Type 0
HasRoom hmap = (hmap.curr_capacity < hmap.capacity) ⊎ (hmap.capacity + 32 ≤ hmap.max_capacity)

-- A map with the entries of another and an empty slot.
pub record IsRoomy (hmap hmap' : Hmap) : Type 0 where
  pub valid : IsValid hmap'
  pub holds : (p : Option Str) (k : Str) → find hmap'.map p k ≡ find hmap.map p k
  pub counts : hmap'.curr_capacity ≡ hmap.curr_capacity
  pub more : used hmap'.map < hmap'.capacity
  pub same_limit : hmap'.max_capacity ≡ hmap.max_capacity

Grows : (capacity max_capacity curr : ℕ) → Type 0
Grows capacity max_capacity curr =
    (u32 (capacity + 32) ≡ capacity + 32) × (capacity + 32 ≤ max_capacity)

grows :
    (capacity most curr : ℕ)
    → (leb (u32 (capacity + 2 ^ 32 - 8)) curr && leb (u32 (capacity + 32)) most) ≡ true
    → capacity ≤ most
    → most + 32 < 2 ^ 32
    → Grows capacity most curr
unfolding Grows
grows capacity most curr e le words =
    let same : u32 (capacity + 32) ≡ capacity + 32 = omega arith in
    (same, subst (λ n. n ≤ most) same (leb→le (u32 (capacity + 32)) most (right _ _ e)))
  where
    right : (a b : Bool) → (a && b) ≡ true → b ≡ true
    right true b e = e
    right false b e = absurd cc

stays :
    (capacity most curr : ℕ)
    → (leb (u32 (capacity + 2 ^ 32 - 8)) curr && leb (u32 (capacity + 32)) most) ≡ false
    → 8 ≤ capacity
    → capacity ≤ most
    → most + 32 < 2 ^ 32
    → (curr < capacity) ⊎ (capacity + 32 ≤ most)
    → curr < capacity
stays capacity most curr e least le words (inl lt) = lt
stays capacity most curr e least le words (inr more) =
    let space : u32 (capacity + 2 ^ 32 - 8) ≡ capacity - 8 = omega arith in
    let same : u32 (capacity + 32) ≡ capacity + 32 = omega arith in
    either_test (u32 (capacity + 2 ^ 32 - 8)) (u32 (capacity + 32)) space same e
  where
    either_test :
        (a b : ℕ)
        → a ≡ capacity - 8
        → b ≡ capacity + 32
        → (leb a curr && leb b most) ≡ false
        → curr < capacity
    either_test a b x y f = ground arith

fits : (a u l c c1 : ℕ) → a ≡ 0 → u ≤ l → l ≡ c → c1 ≡ c + 32 → a + u ≤ c1
fits a u l c c1 e le same next = omega arith

from_zero : (u : ℕ) → 0 + u ≡ u
from_zero u = omega arith

fewer :
    (u l c c1 n u1 c2 : ℕ) → u ≤ l → l ≡ c → c1 ≡ c + 32 → n ≡ 0 + u → n ≡ u1 → c2 ≡ c1 → u1 < c2
fewer u l c c1 n u1 c2 le e next count new same = omega arith

module _ (hmap : Hmap) (v : IsValid hmap) where
  grown-IsValid : Grows hmap.capacity hmap.max_capacity hmap.curr_capacity → IsValid (grown hmap)
  unfolding Grows
  grown-IsValid (same, le) = record {
    size = length-replicate (u32 (hmap.capacity + 32)) empty_kvp;
    least = subst (λ n. 8 ≤ n) (sym same) (wider hmap.capacity v.least);
    most = subst (λ n. n ≤ hmap.max_capacity) (sym same) le;
    words = v.words;
    counted = sym (used-replicate (u32 (hmap.capacity + 32)));
    slots = λ i. free_slot (slot-replicate (u32 (hmap.capacity + 32)) i);
    distinct = Distinct-replicate (u32 (hmap.capacity + 32));
    compares = v.compares;
    frees = v.frees;
  }
    where
      wider : (c : ℕ) → 8 ≤ c → 8 ≤ c + 32
      wider c q = omega arith

  grown-empty : (p : Option Str) (k : Str) → find (grown hmap).map p k ≡ none
  grown-empty p k = find_nowhere (grown hmap).map p k (λ i.
      ap (λ s. hmap_cmp s p k) (slot-replicate (u32 (hmap.capacity + 32)) i) ∙ empty_kvp_lem p k)

  either-none : {A : Type 0} (o : Option A) → either o none ≡ o
  either-none none = refl
  either-none (some a) = refl

  grown_lem :
      Grows hmap.capacity hmap.max_capacity hmap.curr_capacity
      → (hmap' : Hmap) × (add_slots (grown hmap) hmap.map ≡ (ok, hmap')) × IsRoomy hmap hmap'
  unfolding Apart Grows
  grown_lem (same, le) =
      let few = used_le hmap.map in
      let none_used = used-replicate (u32 (hmap.capacity + 32)) in
      let (hmap', done, f) =
        add_slots_lem hmap.map (grown hmap) (grown-IsValid (same, le)) v.slots v.distinct
          (λ p k i o. grown-empty p k)
          (fits (used (grown hmap).map) (used hmap.map) (length hmap.map) hmap.capacity
            (u32 (hmap.capacity + 32)) none_used few v.size same) in
      (
        hmap',
        done,
        record {
          valid = f.valid;
          holds = λ p k.
              f.holds p k
              ∙ ap (either (find hmap.map p k)) (grown-empty p k)
              ∙ either-none (find hmap.map p k);
          counts = f.counts ∙ from_zero (used hmap.map) ∙ sym v.counted;
          more =
              fewer (used hmap.map) (length hmap.map) hmap.capacity (u32 (hmap.capacity + 32))
                hmap'.curr_capacity (used hmap'.map) hmap'.capacity few v.size same f.counts
                f.valid.counted f.same_size;
          same_limit = f.same_limit;
        },
      )

  pub hmap_update_capacity_lem :
      HasRoom hmap → (hmap' : Hmap) × (hmap_update_capacity hmap ≡ (ok, hmap')) × IsRoomy hmap hmap'
  unfolding hmap_update_capacity
  hmap_update_capacity_lem room = elim (Bool-cases (must_grow hmap)) [
    | inl e ↦
        let (hmap', done, r) =
          grown_lem (grows hmap.capacity hmap.max_capacity hmap.curr_capacity e v.most v.words) in
        (hmap', taken (must_grow hmap) _ _ e ∙ ap (restored hmap) done, r)
    | inr e ↦ (
      hmap,
      skipped (must_grow hmap) _ _ e,
      record {
        valid = v;
        holds = λ p k. refl;
        counts = refl;
        more =
            subst (λ n. n < hmap.capacity) v.counted
              (stays hmap.capacity hmap.max_capacity hmap.curr_capacity e v.least v.most v.words
                room);
        same_limit = refl;
      },
    )
  ]
