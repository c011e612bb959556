-- ===== src/Range/Cycle.antt =====
-- The values that a stepped field takes, one packet after the other.
use pktgen_dpdk.Range.Counter.{advance}
use native.Mathlib.Nat
use native.Mathlib.Nat.{mod-eq_of_lt, mod-add-mod, div-add-mod, mod-lt}
use native.Mathlib.Decide.{dec_lt}
use pktgen_dpdk.Base.{ℕ, zero, suc, ◌+◌, ◌*◌, ◌-◌, ◌/◌, ◌%◌, ◌≤◌, ◌<◌, ◌≡◌, arith, ◌∙◌, ap}

-- The field after `n` steps.
abbrev pub advance_n : ℕ → ℕ → ℕ → ℕ → ℕ → ℕ → ℕ
advance_n m inc lo hi zero cur = cur
advance_n m inc lo hi (suc n) cur = advance m inc lo hi (advance_n m inc lo hi n cur)

-- How many values there are from `lo` to `hi` in steps of `inc`.
abbrev pub period : ℕ → ℕ → ℕ → ℕ
period inc lo hi = (hi - lo) / inc + 1

-- The remainder of the next number: one more, or 0.
suc-mod_lt : (n p : ℕ) → n % p + 1 < p → suc n % p ≡ n % p + 1
suc-mod_lt n p h = Nat.suc-mod n p ∙ mod-eq_of_lt {n = suc (n % p)} (omega arith) ∙ omega arith

suc-mod_wrap : (n p : ℕ) → 0 < p → ¬ (n % p + 1 < p) → suc n % p ≡ 0
suc-mod_wrap n p q h =
    let e : suc (n % p) ≡ p = omega (arith, mod-lt n q) in
    Nat.suc-mod n p ∙ ap (λ t. t % p) e ∙ Nat.mod_self p

step_inside :
    (m inc lo hi j : ℕ)
    → lo ≤ hi
    → hi + inc < m
    → inc * j + inc ≤ hi - lo
    → advance m inc lo hi (lo + inc * j) ≡ lo + inc * (j + 1)
unfolding advance
step_inside m inc lo hi j h k l =
    ground (arith, mod-eq_of_lt {n = lo + inc * j + inc} {m = m} (omega arith))

step_over :
    (m inc lo hi j : ℕ)
    → lo ≤ hi
    → hi + inc < m
    → inc * j ≤ hi - lo
    → hi - lo < inc * j + inc
    → advance m inc lo hi (lo + inc * j) ≡ lo
unfolding advance
step_over m inc lo hi j h k l o =
    ground (arith, mod-eq_of_lt {n = lo + inc * j + inc} {m = m} (omega arith))

pub advance_n_lem :
    (m inc lo hi n : ℕ)
    → 0 < inc
    → lo ≤ hi
    → hi + inc < m
    → advance_n m inc lo hi n lo ≡ lo + inc * (n % period inc lo hi)
advance_n_lem m inc lo hi zero p h k = grind arith
advance_n_lem m inc lo hi (suc n) p h k =
    let ih = advance_n_lem m inc lo hi n p h k in
    let j = n % period inc lo hi in
    let quotient = div-add-mod (hi - lo) inc in
    elim (dec_lt (j + 1) (period inc lo hi)) [
      | yes l ↦ rw (ih, suc-mod_lt n _ l) (step_inside m inc lo hi j h k (grind (arith, quotient)))
      | no l ↦
          rw (ih, suc-mod_wrap n _ (omega arith) l)
            (step_over m inc lo hi j h k (grind (arith, quotient)) (grind (arith, quotient))
              ∙ omega arith)
    ]
