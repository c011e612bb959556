-- ===== src/Ports/State.antt =====
-- lib/utils/portlist.c.
use pktgen_dpdk.Base.{
  ℕ, zero, suc, ◌+◌, ◌-◌, ◌*◌, ◌/◌, ◌%◌, ◌^◌, true, false, ◌&&◌, ◌||◌, Option, none, some, List, [],
  ◌∷◌, ◌++◌, ltb, leb, ◌==◌, if◌then◌else◌, u64, length, take, min, Str, same_str, bit,
}
use Prim.Native.Nat.{bit_or}
use pktgen_dpdk.Ports.Text.{trim_front, pg_strtok}

-- strtoul in base 10: white space, a sign and digits. A value of 2 ^ 64 or more counts as 2 ^ 64, for
-- which strtoul gives the largest number, whatever the sign.
unfoldable pub digits_value : (n : ℕ) → Str → ℕ
digits_value n [] = n
digits_value n (c ∷ s) =
    let rest = digits_value (min (n * 10 + (c - 48)) (2 ^ 64)) s in
    if leb 48 c && leb c 57 then rest else n

abbrev negated : ℕ → ℕ
negated n = if n == 2 ^ 64 then 2 ^ 64 - 1 else u64 (2 ^ 64 - n)

abbrev pub signed_value : Str → ℕ
signed_value [] = 0
signed_value (c ∷ s) =
    if c == 45
    then negated (digits_value 0 s)
    else if c == 43
    then min (digits_value 0 s) (2 ^ 64 - 1)
    else min (digits_value 0 (c ∷ s)) (2 ^ 64 - 1)

unfoldable pub strtoul : Str → ℕ
strtoul s = signed_value (trim_front s)

-- The text in front of the first `-` and the text behind it, if there is one.
unfoldable pub split_dash : Str → Str × Option Str
split_dash [] = ([], none)
split_dash (c ∷ s) =
    let (front, behind) = split_dash s in if c == 45 then ([], some s) else (c ∷ front, behind)

-- ps and pe of a token.
abbrev pub range_of : Str × Option Str → ℕ × ℕ
range_of (front, none) = (strtoul front, strtoul front)
range_of (front, some behind) = (strtoul front, strtoul behind)

unfoldable pub token_range : Str → ℕ × ℕ
token_range s = range_of (split_dash s)

-- The loop of set_portlist_bits behind its first round, for the `n` bits that are left.
unfoldable pub set_bits : (low n map : ℕ) → ℕ
set_bits low zero map = map
set_bits low (suc n) map = set_bits (low + 1) n (bit_or map (2 ^ low))

-- The loop sets the bit of `low` before it looks at `high`.
unfoldable pub set_portlist_bits : (low high map : ℕ) → ℕ
set_portlist_bits low high map = set_bits low (suc (high - low)) map

abbrev pub all_name : Str
all_name = 97 ∷ 108 ∷ 108 ∷ []

-- The loop for "all", in 64 bits. A shift by 64 or more is undefined in C; here it gives 0.
unfoldable pub all_ports : (n map : ℕ) → ℕ
all_ports zero map = map
all_ports (suc n) map = bit_or (all_ports n map) (u64 (2 ^ n))

-- `RTE_MAX_ETHPORTS` is a constant of the DPDK build.
module _ (max_ethports : ℕ) where
  -- The loop over the tokens; `none` is -1.
  unfoldable pub parse_tokens : List Str → (map : ℕ) → Option ℕ
  parse_tokens [] map = some map
  parse_tokens (s ∷ split) map =
      let (ps, pe) = token_range s in
      elim (ltb pe ps || leb 64 pe) [
        | true ↦ none
        | false ↦ parse_tokens split (set_portlist_bits ps (min pe max_ethports) map)
      ]

  -- The port list, where the call returns 0.
  unfoldable pub portlist_parse : Str → (nb_ports : ℕ) → Option ℕ
  portlist_parse [] nb_ports = none
  portlist_parse (c ∷ str) nb_ports =
      if same_str (c ∷ str) all_name
      then some (all_ports nb_ports 0)
      else parse_tokens (pg_strtok (c ∷ str) (44 ∷ []) 64) 0

-- "%d" of a number below 100.
unfoldable pub decimal : ℕ → Str
decimal n = if ltb n 10 then (48 + n) ∷ [] else (48 + n / 10) ∷ (48 + n % 10) ∷ []

-- What one port adds to the buffer, and the length that the text was to have then.
abbrev pub piece_of : (portlist len i k : ℕ) → Str × ℕ
piece_of portlist len i k =
    let piece = decimal i ++ (44 ∷ 32 ∷ []) in
    if bit portlist i == 1 then (take (len - 1 - k) piece, k + length piece) else ([], k)

-- The loop of portlist_string for the `n` ports from `i` on: the text, and the length that it was to
-- have. The text in the buffer ends at `len - 1`.
unfoldable pub port_names : (portlist len n i k : ℕ) → Str × ℕ
port_names portlist len zero i k = ([], k)
port_names portlist len (suc n) i k =
    let (piece, next) = piece_of portlist len i k in
    let (text, k') = port_names portlist len n (i + 1) next in
    if ltb k len then (piece ++ text, k') else ([], k)

-- The last comma and blank are cut off.
abbrev cut_comma : Str × ℕ → Str
cut_comma (text, k) = if leb 2 k then take (k - 2) text else text

unfoldable pub portlist_string : (max_ethports portlist len : ℕ) → Str
portlist_string max_ethports portlist len = cut_comma (port_names portlist len max_ethports 0 0)
