-- ===== src/GapBuf/Copy.antt =====
-- gb_copy_to_buf of lib/cli/cli_gapbuf.c: the text copied out, and the bytes that are written.
use pktgen_dpdk.Base.{
  ℕ, zero, suc, ◌+◌, ◌-◌, ◌^◌, ◌≤◌, ◌<◌, ◌≡◌, arith, min, List, [], ◌∷◌, ◌++◌, append_assoc, ap,
  ap₂, ◌∙◌, if◌then◌else◌, ◌==◌, take, length, u32, length-append, ne→==,
}
use pktgen_dpdk.GapBuf.State.{GapBuf, gb_data_size}
use pktgen_dpdk.GapBuf.View.{slice, IsValid, text, length-slice}

-- The result, and the bytes that go to `dst[0]`, `dst[1]` and so on.
unfoldable pub gb_copy_to_buf : GapBuf → (size : ℕ) → ℕ × List ℕ
unfolding gb_data_size
gb_copy_to_buf gb size =
    let to_copy = min size (gb_data_size gb) in
    let left_copy = min (u32 gb.gap) to_copy in
    let right_copy = min (u32 (gb.ebuf - gb.egap)) (to_copy - left_copy) in
    if size == 0 then (0, 0 ∷ []) else (
      left_copy + right_copy,
      slice gb.mem 0 left_copy ++ (slice gb.mem gb.egap right_copy ++ (0 ∷ [])),
    )

take-slice : (mem : ℕ → ℕ) (i n k : ℕ) → take k (slice mem i n) ≡ slice mem i (min k n)
take-slice mem i n zero = let e : 0 ≡ min 0 n = omega arith in ap (slice mem i) e
take-slice mem i zero (suc k) = let e : 0 ≡ min (suc k) 0 = omega arith in ap (slice mem i) e
take-slice mem i (suc n) (suc k) =
    let e : suc (min k n) ≡ min (suc k) (suc n) = omega arith in
    ap (λ l. mem i ∷ l) (take-slice mem (i + 1) n k) ∙ ap (slice mem i) e

take-append : (k : ℕ) (xs ys : List ℕ) → take k (xs ++ ys) ≡ take k xs ++ take (k - length xs) ys
take-append zero xs ys = let e : 0 ≡ 0 - length xs = omega arith in ap (λ n. take n ys) e
take-append (suc k) [] ys = let e : suc k ≡ suc k - 0 = omega arith in ap (λ n. take n ys) e
take-append (suc k) (x ∷ xs) ys =
    let e : k - length xs ≡ suc k - suc (length xs) = omega arith in
    ap (λ l. x ∷ l) (take-append k xs ys ∙ ap (λ n. take k xs ++ take n ys) e)

take-text :
    (gb : GapBuf) (size : ℕ)
    → take size (text gb)
      ≡ slice gb.mem 0 (min size gb.gap)
        ++ slice gb.mem gb.egap (min (size - gb.gap) (gb.ebuf - gb.egap))
take-text gb size =
    take-append size (slice mem 0 gap) (slice mem egap (ebuf - egap))
    ∙ rw (length-slice mem 0 gap)
        (ap₂ ◌++◌ (take-slice mem 0 gap size) (take-slice mem egap (ebuf - egap) (size - gap)))
  where
    open gb use {mem, gap, egap, ebuf}

pub length-text : (gb : GapBuf) → length (text gb) ≡ gb.gap + (gb.ebuf - gb.egap)
length-text gb =
    length-append (slice mem 0 gap) (slice mem egap (ebuf - egap))
    ∙ rw (length-slice mem 0 gap, length-slice mem egap (ebuf - egap))
  where
    open gb use {mem, gap, egap, ebuf}

-- What the code copies of either side.
left_size :
    (size gap egap ebuf : ℕ)
    → gap ≤ egap
    → egap ≤ ebuf
    → ebuf < 2 ^ 32
    → min (u32 gap) (min size (u32 (ebuf - (egap - gap)))) ≡ min size gap
left_size size gap egap ebuf h k l = omega arith

right_size :
    (size gap egap ebuf : ℕ)
    → gap ≤ egap
    → egap ≤ ebuf
    → ebuf < 2 ^ 32
    → min (u32 (ebuf - egap)) (min size (u32 (ebuf - (egap - gap))) - min size gap)
      ≡ min (size - gap) (ebuf - egap)
right_size size gap egap ebuf h k l = omega arith

-- gb_copy_to_buf writes the first `size` bytes of the text, or all of it if it is shorter, then one
-- 0 byte, and returns how many bytes of the text it wrote: `dst` needs room for `size + 1` bytes.
pub gb_copy_to_buf_lem :
    (gb : GapBuf) (size : ℕ)
    → IsValid gb
    → gb.ebuf < 2 ^ 32
    → gb_copy_to_buf gb size ≡ (min size (length (text gb)), take size (text gb) ++ (0 ∷ []))
unfolding gb_copy_to_buf
gb_copy_to_buf_lem gb zero v h = rw (length-text gb) (ap (λ n. (n, 0 ∷ [])) (omega arith))
gb_copy_to_buf_lem gb (suc s) v h =
    rw
      (
        left_size (suc s) gb.gap gb.egap gb.ebuf v.gap_le v.egap_le h,
        right_size (suc s) gb.gap gb.egap gb.ebuf v.gap_le v.egap_le h,
        length-text gb,
        take-text gb (suc s),
        ne→== (suc s) 0 (omega arith),
        append_assoc,
      )
      (ap
        (λ n. (
          n,
          slice gb.mem 0 (min (suc s) gb.gap)
              ++ (slice gb.mem gb.egap (min (suc s - gb.gap) (gb.ebuf - gb.egap)) ++ (0 ∷ [])),
        ))
        (omega arith))
