-- ===== src/Hmap/Keys.antt =====
-- The comparison of lib/hmap/hmap_helper.h tells prefixes and keys apart.
use pktgen_dpdk.Base.{
  both, same_str_refl, same_str_lem, ℕ, ◌≡◌, refl, sym, ap, ap₂, ◌∙◌, subst, Bool, true, false,
  ◌&&◌, Option, none, some, List,
}
use pktgen_dpdk.Hmap.State.{Str, HmapKvp, HmapFuncs, same_str, same_key, cmp_fields, hmap_cmp, slot}
use pktgen_dpdk.Hmap.Ops.{has_key, hits}
use pktgen_dpdk.Hmap.Find.{Owns}

same_key_lem : (k : Option Str) (key : Str) → same_key k key ≡ true → k ≡ some key
unfolding same_key
same_key_lem none key e = absurd cc
same_key_lem (some k) key e = ap some (sym (same_str_lem key k e))

-- A slot owns one prefix and one key.
cmp_fields_lem :
    (q k' p : Option Str) (k : Str) → cmp_fields q k' p k ≡ true → (q ≡ p) × (k' ≡ some k)
unfolding cmp_fields
cmp_fields_lem none k' none k e = (refl, same_key_lem k' k e)
cmp_fields_lem none k' (some p) k e = absurd cc
cmp_fields_lem (some q) k' none k e = absurd cc
cmp_fields_lem (some q) k' (some p) k e =
    let (h, t) = both (same_str p q) (same_key k' k) e in
    (ap some (sym (same_str_lem p q h)), same_key_lem k' k t)

pub cmp_fields_refl : (p : Option Str) (k : Str) → cmp_fields p (some k) p k ≡ true
unfolding cmp_fields same_key
cmp_fields_refl none k = same_str_refl k
cmp_fields_refl (some p) k = ap₂ ◌&&◌ (same_str_refl p) (same_str_refl k)

pub Owns_lem :
    (kvp : HmapKvp) (p : Option Str) (k : Str)
    → Owns kvp p k
    → (kvp.prefix ≡ p) × (kvp.key ≡ some k)
unfolding hmap_cmp
Owns_lem kvp p k e = cmp_fields_lem kvp.prefix kvp.key p k e

pub Owns-self :
    (kvp : HmapKvp) (p : Option Str) (k : Str) → kvp.prefix ≡ p → kvp.key ≡ some k → Owns kvp p k
unfolding hmap_cmp
Owns-self kvp p k e f =
    subst (λ q. cmp_fields q kvp.key p k ≡ true) (sym e)
      (subst (λ l. cmp_fields p l p k ≡ true) (sym f) (cmp_fields_refl p k))

-- Slots with the same prefix and key compare alike.
pub hmap_cmp_same :
    (a b : HmapKvp)
    → a.prefix ≡ b.prefix
    → a.key ≡ b.key
    → (p : Option Str) (k : Str) → hmap_cmp a p k ≡ hmap_cmp b p k
unfolding hmap_cmp
hmap_cmp_same a b e f p k = ap₂ (λ q l. cmp_fields q l p k) e f

-- The test of a lookup is the comparison alone: a slot without a key never compares equal.
and-false : (b : Bool) → (b && false) ≡ false
and-false true = refl
and-false false = refl

key_needed :
    (q k' p : Option Str) (k : Str)
    → (elim k' [ none ↦ false | some l ↦ true ] && cmp_fields q k' p k) ≡ cmp_fields q k' p k
unfolding cmp_fields same_key
key_needed q (some l) p k = refl
key_needed none none none k = refl
key_needed none none (some p) k = refl
key_needed (some q) none none k = refl
key_needed (some q) none (some p) k = sym (and-false (same_str p q))

pub hits-hmap_cmp :
    (fns : HmapFuncs) (map : List HmapKvp) (p : Option Str) (k : Str) (i : ℕ)
    → fns.cmp_fn ≡ hmap_cmp
    → hits fns map p k i ≡ hmap_cmp (slot map i) p k
unfolding hits has_key hmap_cmp
hits-hmap_cmp fns map p k i e =
    ap (λ cmp. has_key (slot map i) && cmp (slot map i) p k) e
    ∙ key_needed (slot map i).prefix (slot map i).key p k
