-- ===== src/Hmap/Order.antt =====
-- kvp_cmp of lib/hmap/hmap.c, the order in which hmap_list sorts the entries.
use pktgen_dpdk.Base.{Option, none, some, [], ◌∷◌, ◌≡◌, arith}
use pktgen_dpdk.Base.{◌≡◌, refl, sym, ap, ap₂, ◌∙◌, subst, ◌⊎◌, inl, inr}
use Prim.Native.Nat.{compare, Ordering, lt, eq, gt, ℕ}
use pktgen_dpdk.Hmap.State.{Str, HmapKvp}
use pktgen_dpdk.Hmap.Ops.{key_of}

-- A comparison that decides, and one for a tie.
abbrev pub then_by : Ordering → Ordering → Ordering
then_by lt o = lt
then_by eq o = o
then_by gt o = gt

-- The sign of strcmp(a, b), which compares unsigned bytes and the 0 byte at the end.
unfoldable pub strcmp : Str → Str → Ordering
strcmp [] [] = eq
strcmp [] (y ∷ b) = lt
strcmp (x ∷ a) [] = gt
strcmp (x ∷ a) (y ∷ b) = then_by (compare x y) (strcmp a b)

abbrev pub cmp_with : (p1 p2 : Option Str) → (k1 k2 : Str) → Ordering
cmp_with (some p1) (some p2) k1 k2 = then_by (strcmp p1 p2) (strcmp k1 k2)
cmp_with none none k1 k2 = strcmp k1 k2
cmp_with (some p1) none k1 k2 = lt
cmp_with none (some p2) k1 k2 = gt

-- The sign of the comparison. Every entry of the array has a key.
unfoldable pub kvp_cmp : HmapKvp → HmapKvp → Ordering
kvp_cmp k1 k2 = cmp_with k1.prefix k2.prefix (key_of k1) (key_of k2)

abbrev pub flip : Ordering → Ordering
flip lt = gt
flip eq = eq
flip gt = lt

compare-flip : (x y : ℕ) → compare y x ≡ flip (compare x y)
compare-flip x y = ground arith

compare-eq : (x y : ℕ) → compare x y ≡ eq → x ≡ y
compare-eq x y e = ground arith

compare_trans : (x y z : ℕ) → compare x y ≡ lt → compare y z ≡ lt → compare x z ≡ lt
compare_trans x y z e f = ground arith

then_by-flip :
    (o o' q q' : Ordering) → o' ≡ flip o → q' ≡ flip q → then_by o' q' ≡ flip (then_by o q)
then_by-flip o o' q q' e f = ap₂ then_by e f ∙ go o
  where
    go : (o : Ordering) → then_by (flip o) (flip q) ≡ flip (then_by o q)
    go lt = refl
    go eq = refl
    go gt = refl

-- A comparison by two keys is below where the first is, or where it ties and the second is.
by_two : (o q : Ordering) → then_by o q ≡ lt → (o ≡ lt) ⊎ ((o ≡ eq) × (q ≡ lt))
by_two lt q e = inl refl
by_two eq q e = inr (refl, e)
by_two gt q e = absurd cc

tie : (o q : Ordering) → then_by o q ≡ eq → (o ≡ eq) × (q ≡ eq)
tie lt q e = absurd cc
tie eq q e = (refl, e)
tie gt q e = absurd cc

strcmp-flip : (a b : Str) → strcmp b a ≡ flip (strcmp a b)
unfolding strcmp
strcmp-flip [] [] = refl
strcmp-flip [] (y ∷ b) = refl
strcmp-flip (x ∷ a) [] = refl
strcmp-flip (x ∷ a) (y ∷ b) =
    then_by-flip (compare x y) (compare y x) (strcmp a b) (strcmp b a) (compare-flip x y)
      (strcmp-flip a b)

strcmp-eq : (a b : Str) → strcmp a b ≡ eq → a ≡ b
unfolding strcmp
strcmp-eq [] [] e = refl
strcmp-eq [] (y ∷ b) e = absurd cc
strcmp-eq (x ∷ a) [] e = absurd cc
strcmp-eq (x ∷ a) (y ∷ b) e =
    let (f, g) = tie (compare x y) (strcmp a b) e in ap₂ ◌∷◌ (compare-eq x y f) (strcmp-eq a b g)

-- Two keys in lexicographic order, from the two orders.
lexicographic :
    {A : Type 0} (cmp : A → A → Ordering) (x y z : A) (q1 q2 q3 : Ordering)
    → (cmp x y ≡ lt → cmp y z ≡ lt → cmp x z ≡ lt)
    → (cmp x y ≡ eq → x ≡ y)
    → (cmp y z ≡ eq → y ≡ z)
    → (q1 ≡ lt → q2 ≡ lt → q3 ≡ lt)
    → then_by (cmp x y) q1 ≡ lt
    → then_by (cmp y z) q2 ≡ lt
    → then_by (cmp x z) q3 ≡ lt
lexicographic cmp x y z q1 q2 q3 trans eq1 eq2 step e f = elim (by_two (cmp x y) q1 e) [
  | inl a ↦ elim (by_two (cmp y z) q2 f) [
    | inl b ↦ ap (λ o. then_by o q3) (trans a b)
    | inr (b, b') ↦ ap (λ o. then_by o q3) (subst (λ w. cmp x w ≡ lt) (eq2 b) a)
  ]
  | inr (a, a') ↦ elim (by_two (cmp y z) q2 f) [
    | inl b ↦ ap (λ o. then_by o q3) (subst (λ w. cmp w z ≡ lt) (sym (eq1 a)) b)
    | inr (b, b') ↦ ap₂ then_by (subst (λ w. cmp w z ≡ eq) (sym (eq1 a)) b) (step a' b')
  ]
]

strcmp_trans : (a b c : Str) → strcmp a b ≡ lt → strcmp b c ≡ lt → strcmp a c ≡ lt
unfolding strcmp
strcmp_trans [] [] c e f = absurd cc
strcmp_trans [] (y ∷ b) [] e f = absurd cc
strcmp_trans [] (y ∷ b) (z ∷ c) e f = refl
strcmp_trans (x ∷ a) [] c e f = absurd cc
strcmp_trans (x ∷ a) (y ∷ b) [] e f = absurd cc
strcmp_trans (x ∷ a) (y ∷ b) (z ∷ c) e f =
    lexicographic compare x y z (strcmp a b) (strcmp b c) (strcmp a c) (compare_trans x y z)
      (compare-eq x y) (compare-eq y z) (strcmp_trans a b c) e f

cmp_with-flip :
    (p1 p2 : Option Str) (k1 k2 : Str) → cmp_with p2 p1 k2 k1 ≡ flip (cmp_with p1 p2 k1 k2)
cmp_with-flip none none k1 k2 = strcmp-flip k1 k2
cmp_with-flip none (some p2) k1 k2 = refl
cmp_with-flip (some p1) none k1 k2 = refl
cmp_with-flip (some p1) (some p2) k1 k2 =
    then_by-flip (strcmp p1 p2) (strcmp p2 p1) (strcmp k1 k2) (strcmp k2 k1) (strcmp-flip p1 p2)
      (strcmp-flip k1 k2)

cmp_with_trans :
    (p1 p2 p3 : Option Str) (k1 k2 k3 : Str)
    → cmp_with p1 p2 k1 k2 ≡ lt
    → cmp_with p2 p3 k2 k3 ≡ lt
    → cmp_with p1 p3 k1 k3 ≡ lt
cmp_with_trans none none none k1 k2 k3 e f = strcmp_trans k1 k2 k3 e f
cmp_with_trans none none (some p3) k1 k2 k3 e f = absurd cc
cmp_with_trans none (some p2) p3 k1 k2 k3 e f = absurd cc
cmp_with_trans (some p1) none none k1 k2 k3 e f = refl
cmp_with_trans (some p1) none (some p3) k1 k2 k3 e f = absurd cc
cmp_with_trans (some p1) (some p2) none k1 k2 k3 e f = refl
cmp_with_trans (some p1) (some p2) (some p3) k1 k2 k3 e f =
    lexicographic strcmp p1 p2 p3 (strcmp k1 k2) (strcmp k2 k3) (strcmp k1 k3)
      (strcmp_trans p1 p2 p3) (strcmp-eq p1 p2) (strcmp-eq p2 p3) (strcmp_trans k1 k2 k3) e f

cmp_with-eq : (p1 p2 : Option Str) (k1 k2 : Str) → cmp_with p1 p2 k1 k2 ≡ eq → (p1 ≡ p2) × (k1 ≡ k2)
cmp_with-eq none none k1 k2 e = (refl, strcmp-eq k1 k2 e)
cmp_with-eq none (some p2) k1 k2 e = absurd cc
cmp_with-eq (some p1) none k1 k2 e = absurd cc
cmp_with-eq (some p1) (some p2) k1 k2 e =
    let (f, g) = tie (strcmp p1 p2) (strcmp k1 k2) e in
    (ap some (strcmp-eq p1 p2 f), strcmp-eq k1 k2 g)

-- kvp_cmp orders the entries strictly by prefix and key: it is antisymmetric and transitive, and ties
-- only entries with the same prefix and key.
pub kvp_cmp-IsOrder :
    (a b c : HmapKvp)
    → (kvp_cmp b a ≡ flip (kvp_cmp a b))
      × (kvp_cmp a b ≡ lt → kvp_cmp b c ≡ lt → kvp_cmp a c ≡ lt)
      × (kvp_cmp a b ≡ eq → (a.prefix ≡ b.prefix) × (key_of a ≡ key_of b))
unfolding kvp_cmp
kvp_cmp-IsOrder a b c = (
  cmp_with-flip a.prefix b.prefix (key_of a) (key_of b),
  cmp_with_trans a.prefix b.prefix c.prefix (key_of a) (key_of b) (key_of c),
  cmp_with-eq a.prefix b.prefix (key_of a) (key_of b),
)
