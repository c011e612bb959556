-- ===== src/Heap/Alloc.antt =====
-- heap_alloc of lib/utils/heap.c: which bytes it takes off the free list.
use pktgen_dpdk.Base.{
  ℕ, zero, ◌+◌, ◌-◌, ◌<◌, ◌≤◌, ◌≡◌, ◌≢◌, ◌^◌, refl, sym, ap, ◌∙◌, inl, inr, true, false, subst,
  ◌&&◌, Bool-cases, Option, none, some, List, [], ◌∷◌, ltb, leb, ◌==◌, if◌then◌else◌, u64, arith,
  taken, skipped, ◌⊎◌, leb→le,
}
use pktgen_dpdk.Heap.State.{
  Entry, entry_size, alloc_from, rest_of, found_behind, heap_alloc, Heap, area_size, with_alloc,
}

-- 1 for a byte of the region, 0 for all others.
abbrev pub covers : (at size x : ℕ) → ℕ
covers at size x = if leb at x && ltb x (at + size) then 1 else 0

-- How many entries of the list hold the byte.
unfoldable pub free_at : List Entry → (x : ℕ) → ℕ
free_at [] x = 0
free_at (e ∷ list) x = covers e.at e.size x + free_at list x

-- Every entry has room for its own record and ends below 2^64.
unfoldable pub IsFreeList : List Entry → Type 0
IsFreeList [] = zero ≡ zero
IsFreeList (e ∷ list) = (entry_size ≤ e.size) × (e.at + e.size < 2 ^ 64) × IsFreeList list

-- No entry has the size, or leaves room for an entry behind it.
pub HasNoFit : (size : ℕ) → List Entry → Type 0
HasNoFit size [] = zero ≡ zero
HasNoFit size (e ∷ list) = (size ≢ e.size) × (e.size < size + entry_size) × HasNoFit size list

-- What the loop has to find in the list.
pub IsFound : (size : ℕ) → List Entry → Option (ℕ × List Entry) → Type 0
IsFound size list none = HasNoFit size list
IsFound size list (some (at, list')) =
    IsFreeList list' × ((x : ℕ) → free_at list x ≡ covers at size x + free_at list' x)

abbrev fit_or_rest : (size : ℕ) → Entry → List Entry → Option (ℕ × List Entry)
fit_or_rest size hd list =
    if leb size (u64 (hd.size + 2 ^ 64 - entry_size))
    then some (hd.at, rest_of hd size ∷ list)
    else found_behind hd (alloc_from size list)

behind_lem :
    (size : ℕ) (hd : Entry) (list : List Entry) (r : Option (ℕ × List Entry))
    → size ≢ hd.size
    → hd.size < size + entry_size
    → entry_size ≤ hd.size
    → hd.at + hd.size < 2 ^ 64
    → IsFound size list r
    → IsFound size (hd ∷ list) (found_behind hd r)
unfolding IsFound IsFreeList HasNoFit free_at
behind_lem size hd list none ne lt big short found = (ne, lt, found)
behind_lem size hd list (some (at, list')) ne lt big short (valid, bytes) = (
  (big, short, valid),
  λ x.
      swap (free_at list x) (covers at size x) (free_at list' x) (covers hd.at hd.size x) (bytes x),
)
  where
    swap : (b c d a : ℕ) → b ≡ c + d → a + b ≡ c + (a + d)
    swap b c d a e = omega arith

-- A region and what is left behind it.
parts_cover :
    (at size all x : ℕ)
    → size ≤ all
    → covers at all x ≡ covers at size x + covers (at + size) (all - size) x
parts_cover at size all x le = ground arith

rest_at : (at size all : ℕ) → size ≤ all → at + all < 2 ^ 64 → u64 (at + size) ≡ at + size
rest_at at size all le short = omega arith

rest_size : (size all : ℕ) → size ≤ all → all < 2 ^ 64 → u64 (all + 2 ^ 64 - size) ≡ all - size
rest_size size all le short = omega arith

fit_bounds :
    (at size all at' size' : ℕ)
    → at' ≡ at + size
    → size' ≡ all - size
    → size + 16 ≤ all
    → at + all < 2 ^ 64
    → (16 ≤ size') × (at' + size' < 2 ^ 64)
fit_bounds at size all at' size' e f le short = (omega arith, omega arith)

fit_cover :
    (at size all at' size' x free : ℕ)
    → at' ≡ at + size
    → size' ≡ all - size
    → size ≤ all
    → covers at all x + free ≡ covers at size x + (covers at' size' x + free)
fit_cover at size all at' size' x free e f le = ground arith

fit_lem :
    (size : ℕ) (hd : Entry) (list : List Entry)
    → size + entry_size ≤ hd.size
    → hd.at + hd.size < 2 ^ 64
    → IsFreeList list
    → IsFound size (hd ∷ list) (some (hd.at, rest_of hd size ∷ list))
unfolding IsFound IsFreeList free_at
fit_lem size hd list le short valid =
    let at_same = rest_at hd.at size hd.size (smaller le) short in
    let size_same = rest_size size hd.size (smaller le) (below hd.at short) in
    let (big, ends) =
      fit_bounds hd.at size hd.size (rest_of hd size).at (rest_of hd size).size at_same size_same le
        short in
    (
      (big, ends, valid),
      λ x.
          fit_cover hd.at size hd.size (rest_of hd size).at (rest_of hd size).size x
            (free_at list x) at_same size_same (smaller le),
    )
  where
    smaller : size + entry_size ≤ hd.size → size ≤ hd.size
    smaller le = omega arith

    below : (at : ℕ) → at + hd.size < 2 ^ 64 → hd.size < 2 ^ 64
    below at lt = omega arith

-- Whether the remaining size, which the code computes modulo 2^64, is large enough.
room_iff :
    (size all : ℕ)
    → 16 ≤ all
    → all < 2 ^ 64
    → leb size (u64 (all + 2 ^ 64 - 16)) ≡ leb (size + 16) all
room_iff size all le short = same (u64 (all + 2 ^ 64 - 16)) (rest_size 16 all le short)
  where
    same : (n : ℕ) → n ≡ all - 16 → leb size n ≡ leb (size + 16) all
    same n e = ground arith

alloc_from_lem :
    (size : ℕ) (list : List Entry)
    → entry_size ≤ size
    → IsFreeList list
    → IsFound size list (alloc_from size list)
unfolding alloc_from IsFound IsFreeList HasNoFit free_at
alloc_from_lem size [] le valid = refl
alloc_from_lem size (hd ∷ list) le (big, short, valid) =
    let found = alloc_from_lem size list le valid in
    elim (Bool-cases (size == hd.size)) [
      | inl same ↦
          subst (IsFound size (hd ∷ list))
            (sym (taken (size == hd.size) (some (hd.at, list)) (fit_or_rest size hd list) same))
            (valid, λ x. ap (λ s. covers hd.at s x + free_at list x) (sym (same_size same)))
      | inr differs ↦
          subst (IsFound size (hd ∷ list))
            (sym
              (skipped (size == hd.size) (some (hd.at, list)) (fit_or_rest size hd list) differs))
            (elim (Bool-cases (leb size (u64 (hd.size + 2 ^ 64 - entry_size)))) [
              | inl fits ↦
                  subst (IsFound size (hd ∷ list))
                    (sym (
                      taken _ (some (hd.at, rest_of hd size ∷ list))
                        (found_behind hd (alloc_from size list)) fits))
                    (fit_lem size hd list (room hd.at short big fits) short valid)
              | inr no_fit ↦
                  subst (IsFound size (hd ∷ list))
                    (sym (
                      skipped _ (some (hd.at, rest_of hd size ∷ list))
                        (found_behind hd (alloc_from size list)) no_fit))
                    (behind_lem size hd list (alloc_from size list) (other differs)
                      (no_room hd.at short big no_fit) big short found)
            ])
    ]
  where
    same_size : (size == hd.size) ≡ true → size ≡ hd.size
    same_size e = ground arith

    other : (size == hd.size) ≡ false → size ≢ hd.size
    other e = ground arith

    below : (at : ℕ) → at + hd.size < 2 ^ 64 → hd.size < 2 ^ 64
    below at lt = omega arith

    room :
        (at : ℕ)
        → at + hd.size < 2 ^ 64
        → entry_size ≤ hd.size
        → leb size (u64 (hd.size + 2 ^ 64 - entry_size)) ≡ true
        → size + entry_size ≤ hd.size
    room at short big e = decided (sym (room_iff size hd.size big (below at short)) ∙ e)
      where
        decided : leb (size + 16) hd.size ≡ true → size + 16 ≤ hd.size
        decided e = ground arith

    no_room :
        (at : ℕ)
        → at + hd.size < 2 ^ 64
        → entry_size ≤ hd.size
        → leb size (u64 (hd.size + 2 ^ 64 - entry_size)) ≡ false
        → hd.size < size + entry_size
    no_room at short big e = decided (sym (room_iff size hd.size big (below at short)) ∙ e)
      where
        decided : leb (size + 16) hd.size ≡ false → hd.size < size + 16
        decided e = ground arith

module _ (align_ceil : ℕ → ℕ) where
  -- What heap_alloc has to give: no area only where there is none to give, and else the bytes of the
  -- area, each of which leaves the list once.
  pub IsAllocated : Heap → (size : ℕ) → Option (ℕ × Heap) → Type 0
  IsAllocated heap size none =
      (size ≡ zero)
      ⊎ (heap.total_space < area_size align_ceil size
          ⊎ HasNoFit (area_size align_ceil size) heap.list)
  IsAllocated heap size (some (at, heap')) =
      IsFreeList heap'.list
      × ((x : ℕ)
          → free_at heap.list x ≡ covers at (area_size align_ceil size) x + free_at heap'.list x)
      × (heap'.total_space + area_size align_ceil size ≡ heap.total_space)

  pub area_room : (size : ℕ) → entry_size ≤ area_size align_ceil size
  area_room size = large (align_ceil size)
    where
      large : (n : ℕ) → 16 ≤ (if ltb n 16 then 16 else n)
      large n = ground arith

  with_alloc_lem :
      (heap : Heap) (size : ℕ) (r : Option (ℕ × List Entry))
      → area_size align_ceil size ≤ heap.total_space
      → IsFound (area_size align_ceil size) heap.list r
      → IsAllocated heap size (with_alloc heap (area_size align_ceil size) r)
  unfolding IsAllocated IsFound
  with_alloc_lem heap size none le no_fit = inr (inr no_fit)
  with_alloc_lem heap size (some (at, list')) le (valid, bytes) =
      (valid, bytes, back (area_size align_ceil size) heap.total_space le)
    where
      back : (a b : ℕ) → a ≤ b → (b - a) + a ≡ b
      back a b le = omega arith

  abbrev if_room : Heap → (size : ℕ) → Option (ℕ × Heap)
  if_room heap size =
      if leb (area_size align_ceil size) heap.total_space
      then with_alloc heap (area_size align_ceil size)
          (alloc_from (area_size align_ceil size) heap.list)
      else none

  if_room_lem :
      (heap : Heap) (size : ℕ) → IsFreeList heap.list → IsAllocated heap size (if_room heap size)
  unfolding IsAllocated
  if_room_lem heap size valid =
      elim (Bool-cases (leb (area_size align_ceil size) heap.total_space)) [
        | inl e ↦
            subst (IsAllocated heap size)
              (sym (
                taken _
                  (with_alloc heap (area_size align_ceil size)
                    (alloc_from (area_size align_ceil size) heap.list))
                  none e))
              (with_alloc_lem heap size _ (leb→le _ _ e)
                (alloc_from_lem (area_size align_ceil size) heap.list (area_room size) valid))
        | inr e ↦
            subst (IsAllocated heap size)
              (sym (
                skipped _
                  (with_alloc heap (area_size align_ceil size)
                    (alloc_from (area_size align_ceil size) heap.list))
                  none e))
              (inr (inl (below _ _ e)))
      ]
    where
      below : (a b : ℕ) → leb a b ≡ false → b < a
      below a b e = ground arith

  -- heap_alloc on a free list whose entries have room for their records and end below 2^64 gives
  -- nothing only for a size of 0, where the count of free bytes is below the rounded size, or where no
  -- entry has that size or as much and 16 bytes more. Else the list that it leaves is such a list, every
  -- byte is on it as often as before, one time less for the bytes of the area, and the count is less by
  -- the rounded size.
  pub heap_alloc_lem :
      (heap : Heap) (size : ℕ)
      → IsFreeList heap.list
      → IsAllocated heap size (heap_alloc align_ceil heap size)
  unfolding heap_alloc IsAllocated
  heap_alloc_lem heap size valid = elim (Bool-cases (size == 0)) [
    | inl e ↦
        subst (IsAllocated heap size) (sym (taken (size == 0) none (if_room heap size) e))
          (inl (is_zero e))
    | inr e ↦
        subst (IsAllocated heap size) (sym (skipped (size == 0) none (if_room heap size) e))
          (if_room_lem heap size valid)
  ]
    where
      is_zero : (size == 0) ≡ true → size ≡ zero
      is_zero e = ground arith
