-- ===== src/Heap/Tests.antt =====
-- The free list of lib/utils/heap.c at concrete addresses.
use pktgen_dpdk.Base.{ℕ, ◌+◌, ◌*◌, ◌/◌, ◌≡◌, refl, some, List, [], ◌∷◌, arith}
use pktgen_dpdk.Heap.State.{Entry, Heap, heap_create, heap_alloc, heap_free, area_size, insert_free}
use pktgen_dpdk.Heap.Alloc.{IsAllocated, heap_alloc_lem, IsFreeList}
use pktgen_dpdk.Heap.Free.{here, IsFreed, heap_free_lem}
use pktgen_dpdk.Heap.Lost.{heap_alloc-heap_free}

abbrev align_16 : ℕ → ℕ
align_16 n = (n + 15) / 16 * 16

abbrev no_words : ℕ → ℕ
no_words a = 0

abbrev entry : ℕ → ℕ → Entry
entry at size = record { at = at; size = size }

-- Two free regions with used bytes between them.
abbrev two_entries : List Entry
two_entries = entry 4096 32 ∷ entry 4224 128 ∷ []

abbrev heap_of : List Entry → Heap
heap_of list = record { list = list; last = 4224; addr = 4096; total_space = 160; words = no_words }

two_entries-IsFreeList : IsFreeList two_entries
unfolding IsFreeList
two_entries-IsFreeList = ((omega arith), (omega arith), ((omega arith), (omega arith), refl))

-- Bytes that touch only the region behind them get the size of the region in front of them as well.
touching_test : insert_free (entry 4192 32) two_entries ≡ some (entry 4096 32 ∷ entry 4192 64 ∷ [])
unfolding insert_free
touching_test = refl

-- Bytes below the first entry are put behind it.
order_test :
    insert_free (entry 1024 32) two_entries
    ≡ some (entry 4096 32 ∷ entry 1024 32 ∷ entry 4224 128 ∷ [])
unfolding insert_free
order_test = refl

heap_alloc_lem_example :
    IsAllocated align_16 (heap_of two_entries) 40 (heap_alloc align_16 (heap_of two_entries) 40)
heap_alloc_lem_example = heap_alloc_lem align_16 (heap_of two_entries) 40 two_entries-IsFreeList

heap_free_lem_example :
    (heap' : Heap) × (heap_free (heap_of two_entries) 4128 32 ≡ some heap')
    × IsFreed (entry 4128 32) two_entries (some heap'.list)
    × (heap'.total_space ≡ 160)
heap_free_lem_example =
    heap_free_lem (heap_of two_entries) (entry 4128 32) (omega arith) (omega arith) (omega arith)
      two_entries-IsFreeList (here (omega arith) (omega arith))

heap_alloc-heap_free_example :
    (heap heap' heap'' : Heap) × (heap_create 4096 1024 no_words ≡ some heap)
    × (heap_alloc align_16 heap 40 ≡ some (4096, heap'))
    × (heap_free heap' 4096 (area_size align_16 40) ≡ some heap'')
    × (heap''.list ≡ heap'.list)
heap_alloc-heap_free_example =
    heap_alloc-heap_free align_16 4096 1024 40 no_words (omega arith) (omega arith) (omega arith)
      (omega arith)
