-- ===== src/Heap/State.antt =====
-- lib/utils/heap.c and heap.h, on a 64-bit host. The memory behind the pointers is not written out: the
-- free list is the list of the entries that are reached from its head, each with its address, and the
-- words that heap_malloc puts in front of its areas are a function of the address. The spinlock is left
-- out. A region that is given back is not on the free list.
use pktgen_dpdk.Base.{
  ℕ, ◌+◌, ◌-◌, ◌%◌, ◌^◌, Option, none, some, List, [], ◌∷◌, ltb, leb, ◌==◌, if◌then◌else◌, u64,
}

-- heap_entry_t at its address.
pub record Entry : Type 0 where
  pub at : ℕ
  pub size : ℕ

-- `last` is the entry whose `next` the field stqh_last of the list points to.
pub record Heap : Type 0 where
  pub list : List Entry
  pub last : ℕ
  pub addr : ℕ
  pub total_space : ℕ
  pub words : ℕ → ℕ

-- sizeof(heap_entry_t)
abbrev pub entry_size : ℕ
entry_size = 16

unfoldable pub heap_create : (addr size : ℕ) → (words : ℕ → ℕ) → Option Heap
heap_create addr size words =
    if ltb size entry_size
    then none
    else some (record {
      list = record { at = addr; size = size } ∷ [];
      last = addr;
      addr = addr;
      total_space = size;
      words = words;
    })

-- STAILQ_INSERT_TAIL behind the entry at `last`: it leaves the list as it is where that entry is no
-- longer on it, and cuts off what follows the entry.
unfoldable pub insert_tail : (last : ℕ) (p : Entry) → List Entry → List Entry
insert_tail last p [] = []
insert_tail last p (q ∷ list) =
    let rest = insert_tail last p list in if q.at == last then q ∷ p ∷ [] else q ∷ rest

-- The two tests on an entry `q`, the next one `n` and what follows, for `p` in front of `n`.
abbrev pub join_upper : (p q n : Entry) → List Entry → Entry × List Entry
join_upper p q n list =
    if u64 (p.at + p.size) == n.at
    then (record { at = p.at; size = u64 (p.size + q.size) }, list)
    else (p, n ∷ list)

abbrev pub join_lower : (q : Entry) → Entry × List Entry → List Entry
join_lower q (p, list) =
    if u64 (q.at + q.size) == p.at
    then record { at = q.at; size = u64 (q.size + p.size) } ∷ list
    else q ∷ p ∷ list

abbrev pub behind_entry : Entry → Option (List Entry) → Option (List Entry)
behind_entry q none = none
behind_entry q (some list) = some (q ∷ list)

-- The search for the entry that the next one of is above `p`; `none` where the loop ends without one.
unfoldable pub insert_free : (p : Entry) → List Entry → Option (List Entry)
insert_free p [] = none
insert_free p (q ∷ []) = none
insert_free p (q ∷ n ∷ list) =
    if ltb p.at n.at
    then some (join_lower q (join_upper p q n list))
    else behind_entry q (insert_free p (n ∷ list))

abbrev pub with_free : Heap → Entry → Option (List Entry) → Heap
with_free heap p none = record heap { list = insert_tail heap.last p heap.list; last = p.at }
with_free heap p (some list) = record heap { list = list }

abbrev pub with_entry : Heap → Entry → Heap
with_entry heap p = with_free heap p (insert_free p heap.list)

-- The heap where the call returns 0. The address 0 is the NULL pointer.
unfoldable pub heap_free : Heap → (addr size : ℕ) → Option Heap
heap_free heap addr size =
    if addr == 0
    then none
    else if size == 0
    then none
    else some (with_entry heap (record { at = addr; size = size }))

abbrev pub found_behind : Entry → Option (ℕ × List Entry) → Option (ℕ × List Entry)
found_behind hd none = none
found_behind hd (some (at, list)) = some (at, hd ∷ list)

abbrev pub rest_of : Entry → (size : ℕ) → Entry
rest_of hd size = record { at = u64 (hd.at + size); size = u64 (hd.size + 2 ^ 64 - size) }

-- The loop of heap_alloc: the address that it finds, and the list without the bytes there.
unfoldable pub alloc_from : (size : ℕ) → List Entry → Option (ℕ × List Entry)
alloc_from size [] = none
alloc_from size (hd ∷ list) =
    let rest = alloc_from size list in
    if size == hd.size
    then some (hd.at, list)
    else if leb size (u64 (hd.size + 2 ^ 64 - entry_size))
    then some
        (hd.at, record { at = u64 (hd.at + size); size = u64 (hd.size + 2 ^ 64 - size) } ∷ list)
    else found_behind hd rest

abbrev pub with_alloc : Heap → (size : ℕ) → Option (ℕ × List Entry) → Option (ℕ × Heap)
with_alloc heap size none = none
with_alloc heap size (some (at, list)) =
    some (at, record heap { list = list; total_space = heap.total_space - size })

-- `RTE_ALIGN_CEIL(size, sizeof(heap_entry_t))` is a macro of DPDK.
module _ (align_ceil : ℕ → ℕ) where
  -- The size that heap_alloc looks for.
  abbrev pub area_size : ℕ → ℕ
  area_size size = if ltb (align_ceil size) entry_size then entry_size else align_ceil size

  -- The address and the heap; `none` is the NULL pointer, with which the heap stays as it was.
  unfoldable pub heap_alloc : Heap → (size : ℕ) → Option (ℕ × Heap)
  heap_alloc heap size =
      if size == 0
      then none
      else if leb (area_size size) heap.total_space
      then with_alloc heap (area_size size) (alloc_from (area_size size) heap.list)
      else none

  abbrev pub with_word : (size : ℕ) → Option (ℕ × Heap) → Option (ℕ × Heap)
  with_word size none = none
  with_word size (some (at, heap)) =
      some (at + 8, record heap { words = λ a. if a == at then size else heap.words a })

  unfoldable pub heap_malloc : Heap → (size : ℕ) → Option (ℕ × Heap)
  heap_malloc heap size =
      if size == 0
      then none
      else let size = if ltb size entry_size then entry_size else size in
        with_word (u64 (size + 8)) (heap_alloc heap (u64 (size + 8)))

abbrev pub free_word : Heap → (p : ℕ) → Option Heap
free_word heap p = if heap.words p == 0 then none else heap_free heap p (heap.words p)

-- The heap where the call returns 0.
unfoldable pub heap_mfree : Heap → (addr : ℕ) → Option Heap
heap_mfree heap addr =
    if addr == 0
    then some heap
    else if addr % 4 == 0
    then free_word heap (u64 (addr + 2 ^ 64 - 8))
    else none
