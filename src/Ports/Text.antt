-- ===== src/Ports/Text.antt =====
-- pg_strtrim, pg_strtok and the other text functions of lib/common/pg_strings.c and pg_strings.h.
use pktgen_dpdk.Base.{
  ℕ, zero, suc, ◌+◌, Bool, true, false, ◌&&◌, ◌||◌, Option, none, some, List, [], ◌∷◌, leb, ◌==◌,
  if◌then◌else◌, Str,
}

-- The white space of the C locale.
unfoldable pub isspace : ℕ → Bool
isspace c = c == 32 || (leb 9 c && leb c 13)

-- `while (isspace(*str)) str++`
unfoldable pub trim_front : Str → Str
trim_front [] = []
trim_front (c ∷ s) = let rest = trim_front s in if isspace c then rest else c ∷ s

-- A byte in front of a text whose white space at the end is gone.
abbrev pub keep : ℕ → Str → Str
keep c [] = if isspace c then [] else c ∷ []
keep c (x ∷ s) = c ∷ x ∷ s

-- The text up to its last byte that is no white space, as the backward loop finds it.
unfoldable pub trim_back : Str → Str
trim_back [] = []
trim_back (c ∷ s) = keep c (trim_back s)

unfoldable pub pg_strtrim : Str → Str
pg_strtrim str = trim_back (trim_front str)

-- strchr(delim, c) != NULL
unfoldable pub is_delim : (delim : Str) (c : ℕ) → Bool
is_delim [] c = false
is_delim (d ∷ delim) c = c == d || is_delim delim c

-- strtok_r: the delimiters in front of a token, the token, and the text behind it.
unfoldable pub skip_delims : (delim : Str) → Str → Str
skip_delims delim [] = []
skip_delims delim (c ∷ s) =
    let rest = skip_delims delim s in if is_delim delim c then rest else c ∷ s

unfoldable pub token : (delim : Str) → Str → Str × Str
token delim [] = ([], [])
token delim (c ∷ s) =
    let (t, rest) = token delim s in if is_delim delim c then ([], s) else (c ∷ t, rest)

abbrev pub strtok_at : (delim : Str) → Str → Option (Str × Str)
strtok_at delim [] = none
strtok_at delim (c ∷ s) = some (token delim (c ∷ s))

unfoldable pub strtok_r : (delim : Str) → Str → Option (Str × Str)
strtok_r delim s = strtok_at delim (skip_delims delim s)

-- The loop of pg_strtok, for at most `maxtokens` entries. Its result is the entries.
unfoldable pub pg_strtok : Str → (delim : Str) → (maxtokens : ℕ) → List Str
pg_strtok str delim zero = []
pg_strtok str delim (suc maxtokens) = elim (strtok_r delim str) [
  | none ↦ []
  | some r ↦ pg_strtrim (r.0) ∷ pg_strtok (r.1) delim maxtokens
]

unfoldable pub pg_strmatch : Str → Str → Bool
pg_strmatch [] [] = true
pg_strmatch [] (y ∷ s2) = false
pg_strmatch (x ∷ s1) [] = false
pg_strmatch (x ∷ s1) (y ∷ s2) = let rest = pg_strmatch s1 s2 in if x == y then rest else false

unfoldable pub pg_strcnt : Str → (c : ℕ) → ℕ
pg_strcnt [] c = 0
pg_strcnt (x ∷ s) c = pg_strcnt s c + (if x == c then 1 else 0)

-- The index of the first option that matches; `none` is -1.
unfoldable pub match_index : List Str → Str → (i : ℕ) → Option ℕ
match_index [] str i = none
match_index (arg ∷ argv) str i =
    let rest = match_index argv str (suc i) in if pg_strmatch arg str then some i else rest

-- The list behind a leading "%|".
abbrev behind_mark : Str → Str
behind_mark [] = []
behind_mark (a ∷ []) = a ∷ []
behind_mark (a ∷ b ∷ list) = if a == 37 && b == 124 then list else a ∷ b ∷ list

abbrev options_of : Str → (str delim : Str) → Option ℕ
options_of [] str delim = none
options_of (c ∷ list) str delim = match_index (pg_strtok (c ∷ list) delim 64) str 0

unfoldable pub pg_stropt : (list str delim : Str) → Option ℕ
pg_stropt list str delim = options_of (behind_mark list) str delim
