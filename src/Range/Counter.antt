-- ===== src/Range/Counter.antt =====
-- The stepping that pktgen_range_ctor of app/pktgen-range.c repeats for each field.
use native.Mathlib.Nat.{mod-eq_of_lt}
use pktgen_dpdk.Base.{ℕ, ◌+◌, ◌%◌, ◌≤◌, ◌<◌, ◌≡◌, arith, ltb, ◌==◌, if◌then◌else◌}

-- `p += inc; if (p < min) p = max; if (p > max) p = min;` in an unsigned type of modulus `m`.
unfoldable pub advance_if : ℕ → ℕ → ℕ → ℕ → ℕ → ℕ
advance_if m inc lo hi cur =
    let p = (cur + inc) % m in let q = if ltb p lo then hi else p in if ltb hi q then lo else q

-- The same with `else if`.
unfoldable pub advance : ℕ → ℕ → ℕ → ℕ → ℕ → ℕ
advance m inc lo hi cur =
    let p = (cur + inc) % m in if ltb p lo then hi else if ltb hi p then lo else p

-- The two spellings agree.
pub advance_if-eq-advance :
    (m inc lo hi cur : ℕ) → advance_if m inc lo hi cur ≡ advance m inc lo hi cur
unfolding advance advance_if
advance_if-eq-advance m inc lo hi cur = ground arith

pub advance_bounds :
    (m inc lo hi cur : ℕ)
    → lo ≤ hi
    → (lo ≤ advance m inc lo hi cur) × (advance m inc lo hi cur ≤ hi)
unfolding advance
advance_bounds m inc lo hi cur h = ground arith

abbrev pub Within : ℕ → ℕ → ℕ → Type 0
Within lo hi x = (lo ≤ x) × (x ≤ hi)

-- The bounds and the starting value of a field whose type has the modulus `m`.
abbrev pub IsRange : ℕ → ℕ → ℕ → ℕ → Type 0
IsRange m lo start hi = (lo ≤ start) × (start ≤ hi) × (hi < m)

-- The new value of a field lies in its range, whatever the old one was, also after the cast to a
-- type of modulus `w` that holds the range.
pub field-Within :
    (m w inc lo start hi cur : ℕ)
    → IsRange w lo start hi
    → Within lo hi (if inc == 0 then start else advance m inc lo hi cur)
      × Within lo hi (if inc == 0 then start else advance m inc lo hi cur % w)
field-Within m w inc lo start hi cur h =
    ground
      (arith, advance_bounds m inc lo hi cur, mod-eq_of_lt {n = advance m inc lo hi cur} {m = w})
