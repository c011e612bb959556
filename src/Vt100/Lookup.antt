-- ===== src/Vt100/Lookup.antt =====
-- How lib/cli/cli_vt100.c finds a sequence of bytes in its command table.
use pktgen_dpdk.Base.{
  ℕ, zero, suc, ◌+◌, ◌≤◌, ◌<◌, ◌≡◌, ◌≢◌, ◌⊎◌, inl, inr, refl, arith, min, Bool, true, false, not,
  ◌&&◌, List, [], ◌∷◌, ◌++◌, leb, ◌==◌, eq→==, ne→==, if◌then◌else◌, length, set, take, length-take,
  ap,
}
use pktgen_dpdk.Vt100.Parse.{
  vt100_buf_size, Parsed, found, done, vt100_cmd_list, strncmp_eq, find_from, vt100_find_cmd,
}

abbrev pub eq_bytes : List ℕ → List ℕ → Bool
eq_bytes [] [] = true
eq_bytes [] (y ∷ b) = false
eq_bytes (x ∷ a) [] = false
eq_bytes (x ∷ a) (y ∷ b) = x == y && eq_bytes a b

-- The first command, from `i` on, that is the sequence.
abbrev pub lookup : List (List ℕ) → ℕ → List ℕ → Parsed
lookup [] i seq = done
lookup (str ∷ cmds) i seq =
    let rest = lookup cmds (i + 1) seq in if eq_bytes seq str then found i else rest

-- The command of a sequence of bytes.
unfoldable pub command : List ℕ → Parsed
command seq = lookup vt100_cmd_list 0 seq

abbrev no_nul : List ℕ → Bool
no_nul [] = true
no_nul (c ∷ str) = not (c == 0) && no_nul str

abbrev fits : List (List ℕ) → Bool
fits [] = true
fits (str ∷ cmds) = no_nul str && leb (length str) vt100_buf_size && fits cmds

eq_bytes_lem : (a b : List ℕ) → length a ≢ length b → eq_bytes a b ≡ false
eq_bytes_lem [] [] h = absurd (h refl)
eq_bytes_lem [] (y ∷ b) h = refl
eq_bytes_lem (x ∷ a) [] h = refl
eq_bytes_lem (x ∷ a) (y ∷ b) h = let r = eq_bytes_lem a b (λ e. h (ap suc e)) in rw r (ground arith)

strncmp_take :
    (buf str : List ℕ)
    → no_nul str ≡ true
    → strncmp_eq buf str (length str) ≡ eq_bytes (take (length str) buf) str
unfolding strncmp_eq
strncmp_take buf [] h = refl
strncmp_take [] (y ∷ b) h = ground arith
strncmp_take (x ∷ a) (y ∷ b) h = let r = strncmp_take a b in ground (arith, r)

and_true : {a b : Bool} → (a && b) ≡ true → (a ≡ true) × (b ≡ true)
and_true {a = true} h = (refl, h)
and_true {a = false} h = absurd cc

leb-true : (a b : ℕ) → leb a b ≡ true → a ≤ b
leb-true a b h = ground arith

same_or_not : (a b : ℕ) → (a ≡ b) ⊎ (a ≢ b)
same_or_not a b = grind arith

find_from_lem :
    (cmds : List (List ℕ)) (i : ℕ) (buf : List ℕ) (size : ℕ)
    → fits cmds ≡ true
    → size ≤ length buf
    → find_from cmds i buf size ≡ lookup cmds i (take size buf)
unfolding find_from
find_from_lem [] i buf size f h = refl
find_from_lem (str ∷ cmds) i buf size f h =
    let p = and_true f in
    let q = and_true p.0 in
    let short : length str ≤ vt100_buf_size = leb-true (length str) vt100_buf_size q.1 in
    let rest = find_from_lem cmds (i + 1) buf size p.1 h in
    let m : min (length str) vt100_buf_size ≡ length str = omega (arith, short) in
    elim (same_or_not size (length str)) [
      | inl e ↦
          rw (m, e, eq→== (length str) (length str) refl, strncmp_take buf str q.0)
            (ap (λ r. if eq_bytes (take (length str) buf) str then found i else r)
              (find_from_lem cmds (i + 1) buf (length str) p.1 (omega (arith, e, h))))
      | inr ne ↦
          let other =
            eq_bytes_lem (take size buf) str (λ e. ne (omega (arith, e, length-take size buf))) in
          rw (m, ne→== size (length str) ne, other) rest
    ]

pub vt100_find_cmd_lem :
    (buf : List ℕ) (size : ℕ)
    → size ≤ length buf
    → vt100_find_cmd buf size ≡ command (take size buf)
unfolding vt100_find_cmd command
vt100_find_cmd_lem buf size h = find_from_lem vt100_cmd_list 0 buf size refl h

pub take-set :
    (buf : List ℕ) (n c : ℕ) → n < length buf → take (suc n) (set buf n c) ≡ take n buf ++ (c ∷ [])
take-set [] n c h = absurd (omega arith)
take-set (x ∷ buf) zero c h = refl
take-set (x ∷ buf) (suc n) c h = ap (λ l. x ∷ l) (take-set buf n c (omega arith))
