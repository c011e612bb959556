-- ===== src/Hmap/Refill.antt =====
-- The loop of _hmap_update_capacity in lib/hmap/hmap.c that adds the old slots to the new table.
use pktgen_dpdk.Base.{
  ℕ, zero, suc, ◌+◌, ◌<◌, ◌≤◌, ◌≡◌, ◌≢◌, refl, sym, ap, ◌∙◌, subst, inl, inr, Bool, true, false,
  Option, none, some, List, [], ◌∷◌, Bool-cases, ◌==◌, if◌then◌else◌, taken, skipped, arith,
}
use pktgen_dpdk.Hmap.State.{Str, HmapKvp, Hmap, type_index, empty_kvp, hmap_cmp, slot, cmp_fields}
use pktgen_dpdk.Hmap.Ops.{ok, and_then, add_slots, add_value, or_default}
use pktgen_dpdk.Hmap.Find.{
  Owns, Distinct, Distinct-tail, find, content, empty_kvp_lem, find_nowhere,
}
use pktgen_dpdk.Hmap.Keys.{Owns-self}
use pktgen_dpdk.Hmap.Slots.{IsSlot, free_slot, used_slot, used}
use pktgen_dpdk.Hmap.Valid.{IsValid}
use pktgen_dpdk.Hmap.Insert.{IsAdded, add_value_lem}

-- The entries of a list of slots, and behind them those of a map.
abbrev pub either : {A : Type 0} → Option A → Option A → Option A
either none b = b
either (some a) b = some a

-- The map after the old slots were added.
pub record IsFilled (old : List HmapKvp) (hmap hmap' : Hmap) : Type 0 where
  pub valid : IsValid hmap'
  pub holds :
      (p : Option Str) (k : Str) → find hmap'.map p k ≡ either (find old p k) (find hmap.map p k)
  pub counts : hmap'.curr_capacity ≡ hmap.curr_capacity + used old
  pub same_size : hmap'.capacity ≡ hmap.capacity
  pub same_limit : hmap'.max_capacity ≡ hmap.max_capacity

-- No entry of the slots is in the map.
unfoldable pub Apart : List HmapKvp → Hmap → Type 0
Apart old hmap =
    (p : Option Str) (k : Str) (i : ℕ) → Owns (slot old i) p k → find hmap.map p k ≡ none

-- A slot in use adds one to the count, a free one nothing.
count_used : (b : Bool) (n : ℕ) → b ≡ false → (if b then 0 else 1) + n ≡ suc n
count_used b n e = ground (arith, e)

zero_plus : (n : ℕ) → 0 + n ≡ n
zero_plus n = omega arith

not_both : (a b : Bool) → (a ≡ true → b ≡ false) → b ≡ true → a ≡ false
not_both true b f t = absurd (cc (f refl, t))
not_both false b f t = refl

by_counts :
    (last one first old all : ℕ)
    → last ≡ one + old
    → one ≡ suc first
    → all ≡ suc old
    → last ≡ first + all
by_counts last one first old all e f g = omega arith

merge :
    {A : Type 0} (b : Bool) (o m1 m : Option A) (c : A)
    → m1 ≡ (if b then some c else m)
    → (b ≡ true → o ≡ none)
    → either o m1 ≡ either (if b then some c else o) m
merge true o m1 m c e n = ap (λ o. either o m1) (n refl) ∙ e
merge false o m1 m c e n = ap (either o) e

module _ (kvp : HmapKvp) (old : List HmapKvp) (hmap hmap' : Hmap) where
  skip_free :
      kvp ≡ empty_kvp
      → add_slots hmap old ≡ (ok, hmap')
      → IsFilled old hmap hmap'
      → (add_slots hmap (kvp ∷ old) ≡ (ok, hmap')) × IsFilled (kvp ∷ old) hmap hmap'
  unfolding add_slots find used type_index
  skip_free e done f = (
    taken (type_index kvp.type == 0) _ _ (ap (λ s. type_index s.type == 0) e) ∙ done,
    record {
      valid = f.valid;
      holds = λ p k.
          f.holds p k
          ∙ ap (λ o. either o (find hmap.map p k))
              (sym
                (skipped (hmap_cmp kvp p k) _ _ (ap (λ s. hmap_cmp s p k) e ∙ empty_kvp_lem p k)));
      counts =
          f.counts
          ∙ ap (λ n. hmap.curr_capacity + n)
              (sym (
                ap (λ s. (if type_index s.type == 0 then 0 else 1) + used old) e
                ∙ zero_plus (used old)));
      same_size = f.same_size;
      same_limit = f.same_limit;
    },
  )

  module _ (hmap1 : Hmap) (k : Str) (key : kvp.key ≡ some k)
      (ne : (type_index kvp.type == 0) ≡ false) (distinct : Distinct (kvp ∷ old))
      (added : IsAdded hmap hmap1 kvp.type kvp.prefix k kvp.v) where
    -- An entry of the slots behind the first is not that of the first.
    behind : (p : Option Str) (l : Str) (i : ℕ) → Owns (slot old i) p l → hmap_cmp kvp p l ≡ false
    unfolding Distinct
    behind p l i o = elim (Bool-cases (hmap_cmp kvp p l)) [
      | inl t ↦ absurd (apart i (distinct zero (suc i) p l t o))
      | inr f ↦ f
    ]
      where
        apart : (i : ℕ) → 0 ≢ suc i
        apart i e = omega arith

    same_test : (p : Option Str) (l : Str) → cmp_fields kvp.prefix (some k) p l ≡ hmap_cmp kvp p l
    unfolding hmap_cmp
    same_test p l = ap (λ m. cmp_fields kvp.prefix m p l) (sym key)

    found :
        (p : Option Str) (l : Str)
        → find hmap1.map p l ≡ (if hmap_cmp kvp p l then some (content kvp) else find hmap.map p l)
    found p l =
        added.holds p l
        ∙ ap (λ b. if b then some (content kvp) else find hmap.map p l) (same_test p l)

    still-Apart : Apart (kvp ∷ old) hmap → Apart old hmap1
    unfolding Apart
    still-Apart apart p l i o =
        found p l ∙ skipped (hmap_cmp kvp p l) _ _ (behind p l i o) ∙ apart p l (suc i) o

    found_once : (p : Option Str) (l : Str) → hmap_cmp kvp p l ≡ true → find old p l ≡ none
    found_once p l t =
        find_nowhere old p l
          (λ i. not_both (hmap_cmp (slot old i) p l) (hmap_cmp kvp p l) (behind p l i) t)

    step_used :
        add_value hmap kvp.type kvp.prefix k kvp.v ≡ (ok, hmap1)
        → add_slots hmap1 old ≡ (ok, hmap')
        → IsFilled old hmap1 hmap'
        → (add_slots hmap (kvp ∷ old) ≡ (ok, hmap')) × IsFilled (kvp ∷ old) hmap hmap'
    unfolding add_slots find used type_index
    step_used one done f = (
      skipped (type_index kvp.type == 0) _ _ ne
          ∙ ap (λ l. and_then (add_value hmap kvp.type kvp.prefix l kvp.v) (λ m. add_slots m old))
              (ap (λ m. or_default m []) key)
          ∙ ap (λ r. and_then r (λ m. add_slots m old)) one
          ∙ done,
      record {
        valid = f.valid;
        holds = λ p l.
            f.holds p l
            ∙ merge (hmap_cmp kvp p l) (find old p l) (find hmap1.map p l) (find hmap.map p l)
                (content kvp) (found p l) (found_once p l);
        counts =
            by_counts hmap'.curr_capacity hmap1.curr_capacity hmap.curr_capacity (used old)
              ((if type_index kvp.type == 0 then 0 else 1) + used old) f.counts added.one_more
              (count_used (type_index kvp.type == 0) (used old) ne);
        same_size = f.same_size ∙ added.same_size;
        same_limit = f.same_limit ∙ added.same_limit;
      },
    )

fits_tail : (a n c x : ℕ) → a + (x + n) ≤ c → a + n ≤ c
fits_tail a n c x le = omega arith

fits_one : (a n c : ℕ) → a + suc n ≤ c → a < c
fits_one a n c le = omega arith

fits_next :
    (u c u1 c1 n cap cap1 : ℕ)
    → u + suc n ≤ cap
    → c ≡ u
    → c1 ≡ u1
    → c1 ≡ suc c
    → cap1 ≡ cap
    → u1 + n ≤ cap1
fits_next u c u1 c1 n cap cap1 le e e1 s same = omega arith

-- The old slots all fit: the new table then holds their entries and its own.
pub add_slots_lem :
    (old : List HmapKvp) (hmap : Hmap)
    → IsValid hmap
    → ((i : ℕ) → IsSlot (slot old i))
    → Distinct old
    → Apart old hmap
    → used hmap.map + used old ≤ hmap.capacity
    → (hmap' : Hmap) × (add_slots hmap old ≡ (ok, hmap')) × IsFilled old hmap hmap'
unfolding add_slots used find Apart
add_slots_lem [] hmap v slots distinct apart fits = (
  hmap,
  refl,
  record {
    valid = v;
    holds = λ p k. refl;
    counts = omega arith;
    same_size = refl;
    same_limit = refl;
  },
)
add_slots_lem (kvp ∷ old) hmap v slots distinct apart fits =
    let tail = Distinct-tail kvp old distinct in
    elim (slots zero) [
      | free_slot e ↦
          let (hmap', done, f) =
            add_slots_lem old hmap v (λ i. slots (suc i)) tail (λ p k i. apart p k (suc i))
              (fits_tail (used hmap.map) (used old) hmap.capacity
                (if type_index kvp.type == 0 then 0 else 1) fits) in
          let (all, filled) = skip_free kvp old hmap hmap' e done f in (hmap', all, filled)
      | used_slot k key ne ↦
          let in_all : used hmap.map + suc (used old) ≤ hmap.capacity =
            subst (λ n. used hmap.map + n ≤ hmap.capacity)
              (count_used (type_index kvp.type == 0) (used old) ne) fits in
          let absent = apart kvp.prefix k zero (Owns-self kvp kvp.prefix k refl key) in
          let (hmap1, one, added) =
            add_value_lem hmap v kvp.type kvp.prefix k kvp.v ne absent
              (fits_one (used hmap.map) (used old) hmap.capacity in_all) in
          let (hmap', done, f) =
            add_slots_lem old hmap1 added.valid (λ i. slots (suc i)) tail
              (still-Apart kvp old hmap hmap1 hmap1 k key ne distinct added apart)
              (fits_next (used hmap.map) hmap.curr_capacity (used hmap1.map) hmap1.curr_capacity
                (used old) hmap.capacity hmap1.capacity in_all v.counted added.valid.counted
                added.one_more added.same_size) in
          let (all, filled) =
            step_used kvp old hmap hmap' hmap1 k key ne distinct added one done f in
          (hmap', all, filled)
    ]
