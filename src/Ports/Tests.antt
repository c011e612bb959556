-- ===== src/Ports/Tests.antt =====
-- Port lists of lib/utils/portlist.c at concrete inputs.
use pktgen_dpdk.Base.{◌≡◌, refl, none, some, [], ◌∷◌, Str, same_str, bit, ℕ, List}
use pktgen_dpdk.Base.{◌≤◌, ◌++◌, arith, ltb, if◌then◌else◌}
use pktgen_dpdk.Ports.Numbers.{AllDigits, digit, no_digits, Item, port, ports, text_of, IsItem}
use pktgen_dpdk.Ports.Tokens.{more, AllItems}
use pktgen_dpdk.Ports.Listing.{IsListed, portlist_parse_items_lem}
use pktgen_dpdk.Ports.State.{all_name}
use pktgen_dpdk.Ports.State.{
  portlist_parse, portlist_string, port_names, decimal, parse_tokens, token_range, split_dash,
  strtoul, digits_value, set_portlist_bits, set_bits,
}
use pktgen_dpdk.Ports.Text.{
  pg_strtok, strtok_r, skip_delims, is_delim, pg_strtrim, trim_back, trim_front, token, isspace,
}

-- " 1,3-5"
abbrev ports_1_3_4_5 : Str
ports_1_3_4_5 = 32 ∷ 49 ∷ 44 ∷ 51 ∷ 45 ∷ 53 ∷ []

parse_test : portlist_parse 32 ports_1_3_4_5 4 ≡ some 58
unfolding portlist_parse same_str parse_tokens pg_strtok strtok_r skip_delims is_delim token_range
    split_dash pg_strtrim trim_back trim_front token isspace strtoul digits_value set_portlist_bits
    set_bits
parse_test = refl

-- "5-3"
refused_test : portlist_parse 32 (53 ∷ 45 ∷ 51 ∷ []) 4 ≡ none
unfolding portlist_parse same_str parse_tokens pg_strtok strtok_r skip_delims is_delim token_range
    split_dash pg_strtrim trim_back trim_front token isspace strtoul digits_value
refused_test = refl

-- "32-40" on a build with 32 ports selects port 32.
above_test : portlist_parse 32 (51 ∷ 50 ∷ 45 ∷ 52 ∷ 48 ∷ []) 4 ≡ some 4294967296
unfolding portlist_parse same_str parse_tokens pg_strtok strtok_r skip_delims is_delim token_range
    split_dash pg_strtrim trim_back trim_front token isspace strtoul digits_value set_portlist_bits
    set_bits
above_test = refl

-- "1, 3, 4, 5"
string_test : portlist_string 32 58 64 ≡ 49 ∷ 44 ∷ 32 ∷ 51 ∷ 44 ∷ 32 ∷ 52 ∷ 44 ∷ 32 ∷ 53 ∷ []
unfolding portlist_string port_names decimal bit
string_test = refl

-- The items of "1,3-5".
abbrev item_1 : Item
item_1 = port 49 []

abbrev items_3_to_5 : List Item
items_3_to_5 = ports 51 [] 53 [] ∷ []

one_digit : (c : ℕ) → 48 ≤ c → c ≤ 57 → AllDigits (c ∷ [])
one_digit c low high = digit c [] low high no_digits

item_1-IsItem : IsItem item_1
unfolding IsItem
item_1-IsItem = one_digit 49 (omega arith) (omega arith)

items_3_to_5-AllItems : AllItems items_3_to_5
unfolding AllItems IsItem
items_3_to_5-AllItems =
    ((one_digit 51 (omega arith) (omega arith), one_digit 53 (omega arith) (omega arith)), refl)

portlist_parse_items_lem_example :
    IsListed 32 (item_1 ∷ items_3_to_5) (portlist_parse 32 (text_of item_1 ++ more items_3_to_5) 4)
    × ((m : ℕ) × (portlist_parse 32 all_name 4 ≡ some m)
        × ((i : ℕ) → bit m i ≡ (if ltb i 4 then 1 else 0)))
portlist_parse_items_lem_example =
    portlist_parse_items_lem 32 item_1 items_3_to_5 4 item_1-IsItem items_3_to_5-AllItems
      (omega arith) (omega arith)
