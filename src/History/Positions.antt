-- ===== src/History/Positions.antt =====
-- Where the entries of the history stand on their queue, and what prev_of and next_of find.
use pktgen_dpdk.Base.{
  ℕ, zero, suc, ◌-◌, ◌<◌, ◌≡◌, ◌≢◌, refl, arith, true, false, Option, none, some, List, [], ◌∷◌,
  map, ap, sym, ◌∙◌, length, get_elem?, eq→==, ne→==,
}
use pktgen_dpdk.History.State.{CliHist, first, last}
use pktgen_dpdk.History.Ops.{prev_of, next_of, is_at}
use pktgen_dpdk.History.Add.{ids, NotIn, Distinct}

pub get-map :
    {A B : Type 0} (f : A → B) (l : List A) (i : ℕ) {x : A}
    → get_elem? l i ≡ some x
    → get_elem? (map f l) i ≡ some (f x)
get-map f [] i e = absurd cc
get-map f (y ∷ l) zero {x} e = let p : y ≡ x = cc in ap (λ z. some (f z)) p
get-map f (y ∷ l) (suc i) e = get-map f l i e

pub NotIn-get :
    (i : ℕ) (l : List CliHist) (k : ℕ) {y : CliHist}
    → NotIn i (ids l)
    → get_elem? l k ≡ some y
    → i ≢ y.id
NotIn-get i [] k h e = absurd cc
NotIn-get i (x ∷ l) zero {y} h e = let p : x ≡ y = cc in λ q. h.0 (q ∙ sym (ap (λ z. z.id) p))
NotIn-get i (x ∷ l) (suc k) h e = NotIn-get i l k h.1 e

pub prev_of_lem :
    (l : List CliHist) (k : ℕ) {y : CliHist}
    → Distinct (ids l)
    → get_elem? l (suc k) ≡ some y
    → prev_of y.id l ≡ get_elem? l k
unfolding prev_of
prev_of_lem [] k d e = absurd cc
prev_of_lem (x ∷ []) k d e = absurd cc
prev_of_lem (x ∷ (y ∷ l)) zero {y = z} d e =
    let p : y ≡ z = cc in rw (eq→== y.id z.id (ap (λ z. z.id) p)) refl
prev_of_lem (x ∷ (y ∷ l)) (suc k) {y = z} d e =
    let ne : y.id ≢ z.id = NotIn-get y.id l k d.1.0 e in
    rw (ne→== y.id z.id ne) (prev_of_lem (y ∷ l) k d.1 e)

pub next_of_lem :
    (l : List CliHist) (k : ℕ) {x y : CliHist}
    → Distinct (ids l)
    → get_elem? l k ≡ some x
    → get_elem? l (suc k) ≡ some y
    → next_of x.id l ≡ some y
unfolding next_of
next_of_lem [] k d e f = absurd cc
next_of_lem (z ∷ []) k d e f = absurd cc
next_of_lem (z ∷ (w ∷ l)) zero {x} d e f =
    let p : z ≡ x = cc in rw (eq→== z.id x.id (ap (λ z. z.id) p)) f
next_of_lem (z ∷ (w ∷ l)) (suc k) {x} d e f =
    let ne : z.id ≢ x.id = NotIn-get z.id (w ∷ l) k d.0 e in
    rw (ne→== z.id x.id ne) (next_of_lem (w ∷ l) k d.1 e f)

pub last_lem : (l : List CliHist) → last l ≡ get_elem? l (length l - 1)
last_lem [] = refl
last_lem (x ∷ []) = refl
last_lem (x ∷ (y ∷ l)) =
    let e : suc (suc (length l)) - 1 ≡ suc (suc (length l) - 1) = omega arith in
    rw e (last_lem (y ∷ l))

pub get-lt : {A : Type 0} (l : List A) (i : ℕ) → i < length l → get_elem? l i ≢ none
get-lt [] i h e = absurd (omega (arith, h))
get-lt (x ∷ l) zero h e = absurd cc
get-lt (x ∷ l) (suc i) h e = get-lt l i (omega (arith, h)) e

pub lt-get : {A : Type 0} (l : List A) (i : ℕ) {x : A} → get_elem? l i ≡ some x → i < length l
lt-get [] i e = absurd cc
lt-get (y ∷ l) zero e = omega arith
lt-get (y ∷ l) (suc i) e = omega (arith, lt-get l i e)

pub some_of : {A : Type 0} (o : Option A) → o ≢ none → (x : A) × (o ≡ some x)
some_of none h = absurd (h refl)
some_of (some x) h = (x, refl)

-- The first entry is the one with its address.
pub first_lem :
    (l : List CliHist) (i : ℕ) {x : CliHist}
    → Distinct (ids l)
    → get_elem? l (suc i) ≡ some x
    → is_at (first l) x.id ≡ false
first_lem [] i d e = absurd cc
first_lem (y ∷ l) i {x} d e = ne→== y.id x.id (NotIn-get y.id l i d.0 e)

pub first-get : (l : List CliHist) → first l ≡ get_elem? l 0
first-get [] = refl
first-get (x ∷ l) = refl

pub is_first :
    (l : List CliHist) {x : CliHist} → get_elem? l 0 ≡ some x → is_at (first l) x.id ≡ true
is_first [] e = absurd cc
is_first (y ∷ l) {x} e = let p : y ≡ x = cc in eq→== y.id x.id (ap (λ z. z.id) p)

pub is_last :
    (l : List CliHist) (i : ℕ) {x : CliHist}
    → get_elem? l i ≡ some x
    → suc i ≡ length l
    → is_at (last l) x.id ≡ true
is_last l i {x} e h =
    let k : length l - 1 ≡ i = omega (arith, h) in
    ap (λ o. is_at o x.id) (last_lem l ∙ ap (get_elem? l) k ∙ e) ∙ eq→== x.id x.id refl

pub Distinct-get :
    (l : List CliHist) (i j : ℕ) {x y : CliHist}
    → Distinct (ids l)
    → get_elem? l i ≡ some x
    → get_elem? l j ≡ some y
    → i < j
    → x.id ≢ y.id
Distinct-get [] i j d e f h = absurd cc
Distinct-get (z ∷ l) i zero d e f h = absurd (omega (arith, h))
Distinct-get (z ∷ l) zero (suc j) {x} d e f h =
    let p : z ≡ x = cc in λ q. NotIn-get z.id l j d.0 f (ap (λ h. h.id) p ∙ q)
Distinct-get (z ∷ l) (suc i) (suc j) d e f h = Distinct-get l i j d.1 e f (omega (arith, h))

pub not_last :
    (l : List CliHist) (i : ℕ) {x : CliHist}
    → Distinct (ids l)
    → get_elem? l i ≡ some x
    → suc i < length l
    → is_at (last l) x.id ≡ false
not_last l i {x} d e h =
    let (z, f) =
      some_of (get_elem? l (length l - 1)) (get-lt l (length l - 1) (omega (arith, h))) in
    ap (λ o. is_at o x.id) (last_lem l ∙ f)
    ∙ ne→== z.id x.id (λ q. Distinct-get l i (length l - 1) d e f (omega (arith, h)) (sym q))
