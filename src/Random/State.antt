-- ===== src/Random/State.antt =====
-- app/pktgen-random.h, app/xorshift64star.h, and the functions of app/pktgen-random.c.
use pktgen_dpdk.Base.{
  ℕ, zero, suc, ◌+◌, ◌-◌, ◌*◌, ◌/◌, ◌%◌, ◌^◌, ◌||◌, Option, none, some, List, [], ◌∷◌, ltb, leb,
  ◌==◌, if◌then◌else◌, u32, u64, length, set, get_or, replicate,
}
use Prim.Native.Nat.{bit_and, bit_or, bit_xor}

pub record BfSpec : Type 0 where
  pub offset : ℕ
  pub and_mask : ℕ
  pub or_mask : ℕ
  pub rnd_mask : ℕ

pub record RndBits : Type 0 where
  pub active_specs : ℕ
  pub specs : List BfSpec

-- The characters of a mask.
pub data MaskChar : Type 0 where
  zero_bit : MaskChar
  one_bit : MaskChar
  ignore_bit : MaskChar
  random_bit : MaskChar

unfoldable pub mask_char : ℕ → Option MaskChar
mask_char c =
    if c == 48
    then some zero_bit
    else if c == 49
    then some one_bit
    else if c == 46
    then some ignore_bit
    else if c == 120 || c == 88
    then some random_bit
    else none

abbrev pub in_mask0 : MaskChar → ℕ
in_mask0 zero_bit = 1
in_mask0 one_bit = 0
in_mask0 ignore_bit = 0
in_mask0 random_bit = 0

abbrev pub in_mask1 : MaskChar → ℕ
in_mask1 zero_bit = 0
in_mask1 one_bit = 1
in_mask1 ignore_bit = 0
in_mask1 random_bit = 0

abbrev pub in_mask_rnd : MaskChar → ℕ
in_mask_rnd zero_bit = 0
in_mask_rnd one_bit = 0
in_mask_rnd ignore_bit = 0
in_mask_rnd random_bit = 1

-- mask0, mask1 and maskRnd.
pub record Masks : Type 0 where
  pub mask0 : ℕ
  pub mask1 : ℕ
  pub mask_rnd : ℕ

-- One round of the loop over the mask.
abbrev pub shift_in : Masks → MaskChar → Masks
shift_in m c = record {
  mask0 = u32 (u32 (m.mask0 * 2) + in_mask0 c);
  mask1 = u32 (u32 (m.mask1 * 2) + in_mask1 c);
  mask_rnd = u32 (u32 (m.mask_rnd * 2) + in_mask_rnd c);
}

-- The loop over the mask; `none` is the jump on an unknown character.
unfoldable pub read_mask : Masks → List ℕ → Option Masks
read_mask m [] = some m
read_mask m (c ∷ mask) = elim (mask_char c) [ none ↦ none | some x ↦ read_mask (shift_in m x) mask ]

-- htonl on a machine with the low byte first.
unfoldable pub htonl : ℕ → ℕ
htonl n =
    n % 256 * 2 ^ 24 + (n / 2 ^ 8 % 256 * 2 ^ 16 + (n / 2 ^ 16 % 256 * 2 ^ 8 + n / 2 ^ 24 % 256))

-- `~w` on 32 bits.
abbrev pub complement : ℕ → ℕ
complement w = 2 ^ 32 - 1 - w

-- The masks of the specification, moved up to the top bit.
unfoldable pub spec_of : (offset pad_len : ℕ) → Masks → BfSpec
spec_of offset pad_len m =
    let mask0 = u32 (m.mask0 * 2 ^ pad_len) in
    let mask1 = u32 (m.mask1 * 2 ^ pad_len) in
    let mask_rnd = u32 (m.mask_rnd * 2 ^ pad_len) in
    record {
      offset = offset;
      and_mask = htonl (complement (bit_or mask0 mask_rnd));
      or_mask = htonl mask1;
      rnd_mask = htonl mask_rnd;
    }

abbrev pub no_masks : Masks
no_masks = record { mask0 = 0; mask1 = 0; mask_rnd = 0 }

abbrev pub with_spec : RndBits → (idx offset pad_len : ℕ) → Option Masks → RndBits
with_spec rnd_bits idx offset pad_len none = rnd_bits
with_spec rnd_bits idx offset pad_len (some m) = record {
  active_specs = bit_or rnd_bits.active_specs (2 ^ idx);
  specs = set rnd_bits.specs idx (spec_of offset pad_len m);
}

-- The specifications that the call leaves. It returns their `active_specs`.
unfoldable pub pktgen_set_random_bitfield : RndBits → (idx offset : ℕ) → (mask : List ℕ) → RndBits
pktgen_set_random_bitfield rnd_bits idx offset mask =
    if leb 32 idx
    then rnd_bits
    else if ltb 32 (length mask)
    then rnd_bits
    else if length mask == 0
    then record rnd_bits { active_specs = bit_and rnd_bits.active_specs (complement (2 ^ idx)) }
    else with_spec rnd_bits idx offset (32 - length mask) (read_mask no_masks mask)

-- The loop of pktgen_rnd_bits_init over the indices from `i` on.
unfoldable pub init_specs : RndBits → (n i : ℕ) → RndBits
init_specs rnd_bits zero i = rnd_bits
init_specs rnd_bits (suc n) i =
    let rnd_bits = pktgen_set_random_bitfield rnd_bits i 0 (replicate 32 63) in
    init_specs (pktgen_set_random_bitfield rnd_bits i 0 []) n (suc i)

abbrev pub zero_spec : BfSpec
zero_spec = record { offset = 0; and_mask = 0; or_mask = 0; rnd_mask = 0 }

-- The specifications of a port. The seed of the generator is read from the system.
unfoldable pub pktgen_rnd_bits_init : RndBits
pktgen_rnd_bits_init = init_specs (record { active_specs = 0; specs = replicate 32 zero_spec }) 32 0

-- The next state and the value of the generator.
unfoldable pub xorshift64star : ℕ → ℕ × ℕ
xorshift64star x =
    let x = bit_xor x (x / 2 ^ 12) in
    let x = bit_xor x (u64 (x * 2 ^ 25)) in
    let x = bit_xor x (x / 2 ^ 27) in (x, u64 (x * 2685821657736338717))

unfoldable pub pktgen_default_rnd_func : ℕ → ℕ × ℕ
pktgen_default_rnd_func x = let (x, value) = xorshift64star x in (x, u32 value)

-- Four bytes of a packet as a number, the low byte first, and their write.
unfoldable pub load32 : List ℕ → (offset : ℕ) → ℕ
load32 pkt offset =
    get_or pkt (offset + 3) 0 * 2 ^ 24
    + (get_or pkt (offset + 2) 0 * 2 ^ 16
        + (get_or pkt (offset + 1) 0 * 2 ^ 8 + get_or pkt offset 0))

unfoldable pub store32 : List ℕ → (offset w : ℕ) → List ℕ
store32 pkt offset w =
    let pkt = set pkt offset (w % 256) in
    let pkt = set pkt (offset + 1) (w / 2 ^ 8 % 256) in
    let pkt = set pkt (offset + 2) (w / 2 ^ 16 % 256) in set pkt (offset + 3) (w / 2 ^ 24 % 256)

-- With the generator of random words and its state.
module _ {St : Type 0} (rnd_func : St → St × ℕ) where
  -- `*pkt_data` under the masks of a specification.
  unfoldable pub mask_word : St → BfSpec → ℕ → St × ℕ
  mask_word state bf_spec w =
      let w = bit_or (bit_and w bf_spec.and_mask) bf_spec.or_mask in
      let (next, rnd_value) = rnd_func state in
      if bf_spec.rnd_mask == 0
      then (state, w)
      else (next, bit_or w (bit_and rnd_value bf_spec.rnd_mask))

  unfoldable pub apply_spec : St → BfSpec → List ℕ → St × List ℕ
  apply_spec state bf_spec pkt =
      let (state, w) = mask_word state bf_spec (load32 pkt bf_spec.offset) in
      (state, store32 pkt bf_spec.offset w)

  -- The loop over the specifications of one packet.
  unfoldable pub apply_specs : List BfSpec → (active_specs : ℕ) → St → List ℕ → St × List ℕ
  apply_specs [] active_specs state pkt = (state, pkt)
  apply_specs (bf_spec ∷ specs) active_specs state pkt =
      let (state', pkt') =
        if active_specs % 2 == 1 then apply_spec state bf_spec pkt else (state, pkt) in
      let rest = apply_specs specs (active_specs / 2) state' pkt' in
      if ltb 0 active_specs then rest else (state, pkt)

  -- The loop over the packets.
  unfoldable pub apply_all : RndBits → St → List (List ℕ) → St × List (List ℕ)
  apply_all rnd_bits state [] = (state, [])
  apply_all rnd_bits state (pkt ∷ pkts) =
      let (state, pkt) = apply_specs rnd_bits.specs rnd_bits.active_specs state pkt in
      let (state, pkts) = apply_all rnd_bits state pkts in (state, pkt ∷ pkts)

  unfoldable pub pktgen_rnd_bits_apply : RndBits → St → List (List ℕ) → St × List (List ℕ)
  pktgen_rnd_bits_apply rnd_bits state pkts =
      if rnd_bits.active_specs == 0 then (state, pkts) else apply_all rnd_bits state pkts
