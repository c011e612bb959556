-- ===== src/Heap.antt =====
-- The free list of lib/utils/heap.c.
pub mod State
pub mod Alloc
pub mod Free
pub mod Lost
pub mod Tests
