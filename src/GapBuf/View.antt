-- ===== src/GapBuf/View.antt =====
-- The text of a gap buffer, before and after the point, and the invariant of its pointers.
use pktgen_dpdk.Base.{
  ℕ, zero, suc, ◌+◌, ◌-◌, ◌≤◌, ◌<◌, ◌≡◌, refl, ◌⊎◌, List, [], ◌∷◌, ◌++◌, leb, arith, if◌then◌else◌,
  length, ap, ap₂, ne→==, ◌∙◌, le→leb, lt→ltb,
}
use pktgen_dpdk.GapBuf.State.{GapBuf, store, memmove}

-- The `n` bytes from offset `i` on.
abbrev pub slice : (ℕ → ℕ) → ℕ → ℕ → List ℕ
slice mem i zero = []
slice mem i (suc n) = mem i ∷ slice mem (i + 1) n

pub record IsValid (gb : GapBuf) : Type 0 where
  pub gap_le : gb.gap ≤ gb.egap
  pub egap_le : gb.egap ≤ gb.ebuf
  pub ebuf_le : gb.ebuf ≤ gb.alloc
  pub point_in : (gb.point ≤ gb.gap) ⊎ ((gb.egap ≤ gb.point) × (gb.point ≤ gb.ebuf))

-- The text before an offset `point`, and from it on, of a memory with the gap `gap` to `egap`.
abbrev pub before_of : (ℕ → ℕ) → (gap egap point : ℕ) → List ℕ
before_of mem gap egap point =
    if leb point gap then slice mem 0 point else slice mem 0 gap ++ slice mem egap (point - egap)

abbrev pub after_of : (ℕ → ℕ) → (gap egap ebuf point : ℕ) → List ℕ
after_of mem gap egap ebuf point =
    if leb point gap
    then slice mem point (gap - point) ++ slice mem egap (ebuf - egap)
    else slice mem point (ebuf - point)

-- The text before the point.
abbrev pub before : GapBuf → List ℕ
before gb = before_of gb.mem gb.gap gb.egap gb.point

-- The text from the point on.
abbrev pub after : GapBuf → List ℕ
after gb = after_of gb.mem gb.gap gb.egap gb.ebuf gb.point

-- An offset outside the gap.
abbrev pub IsOutside : (gap egap ebuf point : ℕ) → Type 0
IsOutside gap egap ebuf point = (point ≤ gap) ⊎ ((egap ≤ point) × (point ≤ ebuf))

-- The whole text: the bytes outside the gap.
abbrev pub text : GapBuf → List ℕ
text gb = slice gb.mem 0 gb.gap ++ slice gb.mem gb.egap (gb.ebuf - gb.egap)

pub length-slice : (mem : ℕ → ℕ) (i n : ℕ) → length (slice mem i n) ≡ n
length-slice mem i zero = refl
length-slice mem i (suc n) = ap suc (length-slice mem (i + 1) n)

pub slice-add :
    (mem : ℕ → ℕ) (i a b : ℕ) → slice mem i (a + b) ≡ slice mem i a ++ slice mem (i + a) b
slice-add mem i zero b = ap₂ (slice mem) (omega arith) (omega arith)
slice-add mem i (suc a) b =
    let e : suc a + b ≡ suc (a + b) = omega arith in
    let e' : i + 1 + a ≡ i + suc a = omega arith in
    ap (slice mem i) e
    ∙ ap (λ l. mem i ∷ l)
        (slice-add mem (i + 1) a b ∙ ap (λ k. slice mem (i + 1) a ++ slice mem k b) e')

-- Slices of two memories that agree, offset by offset.
pub slice_ext :
    (f g : ℕ → ℕ) (i j n : ℕ)
    → ((k : ℕ) → k < n → f (i + k) ≡ g (j + k))
    → slice f i n ≡ slice g j n
slice_ext f g i j zero h = refl
slice_ext f g i j (suc n) h =
    ap₂ ◌∷◌ (ap f (omega arith) ∙ h 0 (omega arith) ∙ ap g (omega arith)) (
      slice_ext f g (i + 1) (j + 1) n
        (λ k l. ap f (omega arith) ∙ h (k + 1) (omega arith) ∙ ap g (omega arith)))

memmove_inside :
    (mem : ℕ → ℕ) (dst src n k : ℕ) → k < n → memmove mem dst src n (dst + k) ≡ mem (src + k)
unfolding memmove
memmove_inside mem dst src n k h =
    rw (le→leb dst (dst + k) (omega arith), lt→ltb (dst + k) (dst + n) (omega arith))
      (ap mem (omega arith))

memmove_outside :
    (mem : ℕ → ℕ) (dst src n j : ℕ) → (j < dst) ⊎ (dst + n ≤ j) → memmove mem dst src n j ≡ mem j
unfolding memmove
memmove_outside mem dst src n j h = ground arith

-- A move puts the source's bytes at the destination.
pub slice-memmove :
    (mem : ℕ → ℕ) (dst src n : ℕ) → slice (memmove mem dst src n) dst n ≡ slice mem src n
slice-memmove mem dst src n =
    slice_ext (memmove mem dst src n) mem dst src n (λ k h. memmove_inside mem dst src n k h)

-- A slice that the move does not touch stays as it was.
pub slice-memmove_out :
    (mem : ℕ → ℕ) (dst src n i m : ℕ)
    → (i + m ≤ dst) ⊎ (dst + n ≤ i)
    → slice (memmove mem dst src n) i m ≡ slice mem i m
slice-memmove_out mem dst src n i m h =
    slice_ext (memmove mem dst src n) mem i i m
      (λ k l. memmove_outside mem dst src n (i + k) (omega arith))

-- The same for one stored byte.
pub slice-store_out :
    (mem : ℕ → ℕ) (j c i m : ℕ) → (i + m ≤ j) ⊎ (j < i) → slice (store mem j c) i m ≡ slice mem i m
unfolding store
slice-store_out mem j c i m h =
    slice_ext (store mem j c) mem i i m (λ k l. rw (ne→== (i + k) j (omega arith)))
