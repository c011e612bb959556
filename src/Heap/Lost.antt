-- ===== src/Heap/Lost.antt =====
-- The tail pointer of the free list of lib/utils/heap.c after heap_alloc.
use pktgen_dpdk.Base.{
  ℕ, ◌+◌, ◌-◌, ◌<◌, ◌≤◌, ◌≡◌, ◌^◌, ap, ◌∙◌, true, false, none, some, [], ◌∷◌, ltb, leb, ◌==◌, u64,
  taken, skipped, le→leb, arith,
}
use pktgen_dpdk.Heap.State.{
  Entry, Heap, entry_size, heap_create, heap_alloc, heap_free, alloc_from, with_alloc, area_size,
  insert_free, insert_tail, rest_of, with_entry,
}
use pktgen_dpdk.Heap.Alloc.{area_room}
use pktgen_dpdk.Heap.Free.{heap_free-some}

abbrev new_heap : (addr size : ℕ) → (ℕ → ℕ) → Heap
new_heap addr size words = record {
  list = record { at = addr; size = size } ∷ [];
  last = addr;
  addr = addr;
  total_space = size;
  words = words;
}

abbrev behind_area : (addr size area : ℕ) → Entry
behind_area addr size area = rest_of (record { at = addr; size = size }) area

abbrev split_heap : (addr size area : ℕ) → (ℕ → ℕ) → Heap
split_heap addr size area words = record {
  list = behind_area addr size area ∷ [];
  last = addr;
  addr = addr;
  total_space = size - area;
  words = words;
}

created_lem :
    (addr size : ℕ) (words : ℕ → ℕ)
    → entry_size ≤ size
    → heap_create addr size words ≡ some (new_heap addr size words)
unfolding heap_create
created_lem addr size words le =
    skipped (ltb size entry_size) none (some (new_heap addr size words)) (large size le)
  where
    large : (size : ℕ) → 16 ≤ size → ltb size 16 ≡ false
    large size le = ground arith

found_lem :
    (addr size area : ℕ)
    → area + entry_size ≤ size
    → addr + size < 2 ^ 64
    → alloc_from area (record { at = addr; size = size } ∷ [])
      ≡ some (addr, behind_area addr size area ∷ [])
unfolding alloc_from
found_lem addr size area room short =
    skipped (area == size) (some (addr, [])) _ (other area size room)
    ∙ taken (leb area (u64 (size + 2 ^ 64 - entry_size)))
        (some (addr, behind_area addr size area ∷ [])) none (enough addr area size room short)
  where
    other : (area size : ℕ) → area + 16 ≤ size → (area == size) ≡ false
    other area size room = ground arith

    enough :
        (addr area size : ℕ)
        → area + 16 ≤ size
        → addr + size < 2 ^ 64
        → leb area (u64 (size + 2 ^ 64 - 16)) ≡ true
    enough addr area size room short = ground arith

not_tail :
    (addr size area : ℕ) (p : Entry)
    → entry_size ≤ area
    → area + entry_size ≤ size
    → addr + size < 2 ^ 64
    → insert_tail addr p (behind_area addr size area ∷ []) ≡ behind_area addr size area ∷ []
unfolding insert_tail
not_tail addr size area p big room short =
    skipped (u64 (addr + area) == addr) _ (behind_area addr size area ∷ [])
      (moved addr size area big room short)
  where
    moved :
        (addr size area : ℕ)
        → 16 ≤ area
        → area + 16 ≤ size
        → addr + size < 2 ^ 64
        → (u64 (addr + area) == addr) ≡ false
    moved addr size area big room short = ground arith

module _ (align_ceil : ℕ → ℕ) where
  -- heap_alloc on a new heap of memory that ends below 2^64, of a rounded size with 16 bytes to spare,
  -- gives the start of the memory, and heap_free of that area returns 0 and leaves the list as it was:
  -- the bytes of the area are lost.
  pub heap_alloc-heap_free :
      (addr size n : ℕ) (words : ℕ → ℕ)
      → 0 < addr
      → 0 < n
      → area_size align_ceil n + entry_size ≤ size
      → addr + size < 2 ^ 64
      → (heap heap' heap'' : Heap) × (heap_create addr size words ≡ some heap)
        × (heap_alloc align_ceil heap n ≡ some (addr, heap'))
        × (heap_free heap' addr (area_size align_ceil n) ≡ some heap'')
        × (heap''.list ≡ heap'.list)
  unfolding heap_alloc insert_free
  heap_alloc-heap_free addr size n words at_some n_some room short =
      let area = area_size align_ceil n in
      let big = area_room align_ceil n in
      let p : Entry = record { at = addr; size = area } in
      (
        new_heap addr size words,
        split_heap addr size area words,
        with_entry (split_heap addr size area words) p,
        created_lem addr size words (in_range area size room),
        skipped (n == 0) none _ (positive n n_some)
            ∙ taken (leb area size) _ none (le→leb area size (smaller area size room))
            ∙ ap (with_alloc (new_heap addr size words) area) (found_lem addr size area room short),
        heap_free-some (split_heap addr size area words) addr area at_some (some_area area big),
        not_tail addr size area p big room short,
      )
    where
      positive : (n : ℕ) → 0 < n → (n == 0) ≡ false
      positive n lt = ground arith

      in_range : (area size : ℕ) → area + 16 ≤ size → 16 ≤ size
      in_range area size le = omega arith

      smaller : (area size : ℕ) → area + 16 ≤ size → area ≤ size
      smaller area size le = omega arith

      some_area : (area : ℕ) → 16 ≤ area → 0 < area
      some_area area le = omega arith
