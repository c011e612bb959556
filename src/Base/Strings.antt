-- ===== src/Base/Strings.antt =====
-- C strings and their comparison.
use Prim.Native.Nat.{ℕ}
use mathlib.Core.Path.{◌≡◌, refl, ap₂}
use mathlib.Core.Bool.{Bool, true, false, ◌&&◌}
use mathlib.Core.List.{List, [], ◌∷◌}
use pktgen_dpdk.Base.Tests.{◌==◌, eq→==, ==_iff}

-- The bytes of a C string before its 0 byte.
abbrev pub Str : Type 0
Str = List ℕ

-- strcmp(a, b) == 0
unfoldable pub same_str : Str → Str → Bool
same_str [] [] = true
same_str [] (y ∷ b) = false
same_str (x ∷ a) [] = false
same_str (x ∷ a) (y ∷ b) = x == y && same_str a b

pub both : (a b : Bool) → (a && b) ≡ true → (a ≡ true) × (b ≡ true)
both true b e = (refl, e)
both false b e = absurd cc

pub same_str_refl : (a : Str) → same_str a a ≡ true
unfolding same_str
same_str_refl [] = refl
same_str_refl (x ∷ a) = ap₂ ◌&&◌ (eq→== x x refl) (same_str_refl a)

pub same_str_lem : (a b : Str) → same_str a b ≡ true → a ≡ b
unfolding same_str
same_str_lem [] [] e = refl
same_str_lem [] (y ∷ b) e = absurd cc
same_str_lem (x ∷ a) [] e = absurd cc
same_str_lem (x ∷ a) (y ∷ b) e =
    let (h, t) = both (x == y) (same_str a b) e in ap₂ ◌∷◌ ((==_iff x y).0 h) (same_str_lem a b t)
