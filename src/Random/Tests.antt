-- ===== src/Random/Tests.antt =====
-- Runs of app/pktgen-random.c on one packet.
use pktgen_dpdk.Base.{
  ℕ, zero, suc, ◌+◌, ◌-◌, ◌*◌, ◌≡◌, refl, List, [], ◌∷◌, replicate, get_or, get_elem?, bit, arith,
}
use pktgen_dpdk.Random.State.{
  RndBits, zero_spec, read_mask, mask_char, zero_bit, one_bit, ignore_bit, random_bit, MaskChar,
  pktgen_set_random_bitfield, pktgen_rnd_bits_apply, pktgen_rnd_bits_init, init_specs,
  pktgen_default_rnd_func, xorshift64star, apply_all, apply_specs, apply_spec, mask_word, load32,
  store32, spec_of, htonl,
}
use pktgen_dpdk.Random.Masks.{Reads, end_of_mask, next_char}
use pktgen_dpdk.Random.Memory.{byte_bit, Bytes}
use pktgen_dpdk.Random.Apply.{expected}
use pktgen_dpdk.Random.Field.{pktgen_rnd_bits_apply_lem}

abbrev fresh : RndBits
fresh = record { active_specs = 0; specs = replicate 32 zero_spec }

-- "01.x"
abbrev mask : List ℕ
mask = 48 ∷ 49 ∷ 46 ∷ 120 ∷ []

abbrev chars : List MaskChar
chars = zero_bit ∷ one_bit ∷ ignore_bit ∷ random_bit ∷ []

mask-Reads : Reads mask chars
unfolding mask_char
mask-Reads = next_char 48 zero_bit _ _ refl (
    next_char 49 one_bit _ _ refl
      (next_char 46 ignore_bit _ _ refl (next_char 120 random_bit _ _ refl end_of_mask)))

abbrev pkt : List ℕ
pkt = 1 ∷ 160 ∷ 3 ∷ 4 ∷ 5 ∷ []

pkt-Bytes : Bytes pkt
unfolding Bytes
pkt-Bytes zero = omega arith
pkt-Bytes (suc zero) = omega arith
pkt-Bytes (suc (suc zero)) = omega arith
pkt-Bytes (suc (suc (suc zero))) = omega arith
pkt-Bytes (suc (suc (suc (suc zero)))) = omega arith
pkt-Bytes (suc (suc (suc (suc (suc i))))) = omega arith

-- The four characters on the byte 160 at offset 1, with a generator at state 1.
masked :
    pktgen_rnd_bits_apply pktgen_default_rnd_func
      (pktgen_set_random_bitfield fresh 3 1 mask)
      1
      (pkt ∷ [])
    ≡ (33554433, (1 ∷ 112 ∷ 3 ∷ 4 ∷ 5 ∷ []) ∷ [])
unfolding pktgen_rnd_bits_apply pktgen_set_random_bitfield pktgen_default_rnd_func xorshift64star
    read_mask mask_char spec_of htonl apply_all apply_specs apply_spec mask_word load32 store32
masked = refl

pktgen_rnd_bits_apply_lem_example :
    (pkt' : List ℕ) × (state' : ℕ) × (pktgen_rnd_bits_apply pktgen_default_rnd_func
        (pktgen_set_random_bitfield fresh 3 1 mask)
        1
        (pkt ∷ [])
      ≡ (state', pkt' ∷ []))
    × (bit (get_or pkt' (1 + 0) 0) 7
        ≡ expected
            (get_elem? chars (8 * 0 + (7 - 7)))
            (bit (get_or pkt (1 + 0) 0) 7)
            (byte_bit (pktgen_default_rnd_func 1).1 0 7))
pktgen_rnd_bits_apply_lem_example =
    pktgen_rnd_bits_apply_lem pktgen_default_rnd_func fresh 3 1 mask chars 1 pkt 0 7 refl refl
      (omega arith) mask-Reads (omega arith) (omega arith) pkt-Bytes (omega arith) (omega arith)
      (omega arith)

-- The masks of "?" that pktgen_rnd_bits_init sets first are refused, so every mask stays 0.
init_zero : pktgen_rnd_bits_init ≡ fresh
unfolding pktgen_rnd_bits_init init_specs pktgen_set_random_bitfield read_mask mask_char
init_zero = refl
