-- ===== src/Heap/Free.antt =====
-- heap_free of lib/utils/heap.c: which bytes it puts on the free list.
use pktgen_dpdk.Base.{
  ℕ, zero, suc, ◌+◌, ◌<◌, ◌≤◌, ◌≡◌, ◌^◌, refl, sym, ap, ◌∙◌, inl, inr, false, subst, Bool-cases,
  Option, none, some, List, [], ◌∷◌, ltb, ◌==◌, if◌then◌else◌, u64, taken, skipped, arith, ==_iff,
  lt→ltb,
}
use pktgen_dpdk.Heap.State.{
  Entry, Heap, entry_size, insert_free, behind_entry, join_lower, join_upper, with_entry, with_free,
  heap_free,
}
use pktgen_dpdk.Heap.Alloc.{covers, free_at, IsFreeList}

-- The region lies behind an entry of the list and in front of the next one, which it does not touch, and
-- all entries up to there lie below it.
pub data IsBetween (p : Entry) : List Entry → Type 0 where
  here :
      {q n : Entry} {list : List Entry}
      → q.at + q.size ≤ p.at
      → p.at + p.size < n.at
      → IsBetween p (q ∷ n ∷ list)
  further :
      {q n : Entry} {list : List Entry}
      → n.at ≤ p.at
      → IsBetween p (n ∷ list)
      → IsBetween p (q ∷ n ∷ list)

-- What the call has to leave.
pub IsFreed : (p : Entry) → List Entry → Option (List Entry) → Type 0
IsFreed p list none = zero ≡ suc zero
IsFreed p list (some list') =
    IsFreeList list' × ((x : ℕ) → free_at list' x ≡ covers p.at p.size x + free_at list x)

before_end : (at size at' size' : ℕ) → at + size ≤ at' → at' + size' < 2 ^ 64 → at + size < 2 ^ 64
before_end at size at' size' le short = omega arith

-- Two regions, the second right behind the first.
joined_end : (at size at' : ℕ) → u64 (at + size) ≡ at' → at + size < 2 ^ 64 → at + size ≡ at'
joined_end at size at' e short = omega arith

joined_size :
    (at size at' size' : ℕ)
    → at + size ≡ at'
    → at' + size' < 2 ^ 64
    → u64 (size + size') ≡ size + size'
joined_size at size at' size' e short = omega arith

joined_bounds :
    (at size at' size' all : ℕ)
    → at + size ≡ at'
    → all ≡ size + size'
    → 16 ≤ size
    → at' + size' < 2 ^ 64
    → (16 ≤ all) × (at + all < 2 ^ 64)
joined_bounds at size at' size' all e f big short = (omega arith, omega arith)

joined_cover :
    (at size at' size' all x free : ℕ)
    → at + size ≡ at'
    → all ≡ size + size'
    → covers at all x + free ≡ covers at' size' x + (covers at size x + free)
joined_cover at size at' size' all x free e f = ground arith

joined : (q p : Entry) → Entry
joined q p = record { at = q.at; size = u64 (q.size + p.size) }

joined_lem :
    (p q : Entry) (list : List Entry)
    → q.at + q.size ≡ p.at
    → entry_size ≤ q.size
    → p.at + p.size < 2 ^ 64
    → IsFreeList list
    → IsFreed p (q ∷ list) (some (joined q p ∷ list))
unfolding IsFreed IsFreeList free_at joined
joined_lem p q list e big short valid =
    let same = joined_size q.at q.size p.at p.size e short in
    let (big', short') =
      joined_bounds q.at q.size p.at p.size (u64 (q.size + p.size)) e same big short in
    (
      (big', short', valid),
      λ x. joined_cover q.at q.size p.at p.size (u64 (q.size + p.size)) x (free_at list x) e same,
    )

join_lower_lem :
    (p q : Entry) (list : List Entry)
    → q.at + q.size ≤ p.at
    → entry_size ≤ q.size
    → entry_size ≤ p.size
    → p.at + p.size < 2 ^ 64
    → IsFreeList list
    → IsFreed p (q ∷ list) (some (join_lower q (p, list)))
unfolding IsFreed IsFreeList free_at joined
join_lower_lem p q list le big_q big_p short valid =
    elim (Bool-cases (u64 (q.at + q.size) == p.at)) [
      | inl e ↦
          subst (λ r. IsFreed p (q ∷ list) (some r))
            (sym (taken _ (joined q p ∷ list) (q ∷ p ∷ list) e))
            (joined_lem p q list
              (joined_end q.at q.size p.at ((==_iff _ _).0 e)
                (before_end q.at q.size p.at p.size le short))
              big_q short valid)
      | inr e ↦
          subst (λ r. IsFreed p (q ∷ list) (some r))
            (sym (skipped _ (joined q p ∷ list) (q ∷ p ∷ list) e))
            (
              (big_q, before_end q.at q.size p.at p.size le short, (big_p, short, valid)),
              λ x. swap (covers q.at q.size x) (covers p.at p.size x) (free_at list x),
            )
    ]
  where
    swap : (a b c : ℕ) → a + (b + c) ≡ b + (a + c)
    swap a b c = omega arith

apart : (at size at' : ℕ) → at + size < at' → at + size < 2 ^ 64 → (u64 (at + size) == at') ≡ false
apart at size at' lt short = ground arith

behind_entry_lem :
    (p q : Entry) (list : List Entry) (r : Option (List Entry))
    → entry_size ≤ q.size
    → q.at + q.size < 2 ^ 64
    → IsFreed p list r
    → IsFreed p (q ∷ list) (behind_entry q r)
unfolding IsFreed IsFreeList free_at
behind_entry_lem p q list none big short freed = freed
behind_entry_lem p q list (some list') big short (valid, bytes) = (
  (big, short, valid),
  λ x.
      swap (covers q.at q.size x) (free_at list' x) (covers p.at p.size x) (free_at list x)
        (bytes x),
)
  where
    swap : (a b c d : ℕ) → b ≡ c + d → a + b ≡ c + (a + d)
    swap a b c d e = omega arith

insert_free_lem :
    (p : Entry) (list : List Entry)
    → entry_size ≤ p.size
    → p.at + p.size < 2 ^ 64
    → IsFreeList list
    → IsBetween p list
    → IsFreed p list (insert_free p list)
unfolding insert_free IsFreeList
insert_free_lem p [] big short valid between = elim between [ ]
insert_free_lem p (q ∷ []) big short valid between = elim between [ ]
insert_free_lem p (q ∷ n ∷ list) big short (big_q, short_q, rest) (here le lt) =
    subst (IsFreed p (q ∷ n ∷ list))
      (sym (
        taken (ltb p.at n.at) (some (join_lower q (join_upper p q n list)))
          (behind_entry q (insert_free p (n ∷ list)))
          (lt→ltb p.at n.at (under p.at p.size n.at lt))))
      (subst (λ r. IsFreed p (q ∷ n ∷ list) (some (join_lower q r)))
        (sym (
          skipped _ (record { at = p.at; size = u64 (p.size + q.size) }, list) (p, n ∷ list)
            (apart p.at p.size n.at lt short)))
        (join_lower_lem p q (n ∷ list) le big_q big short rest))
  where
    under : (a s b : ℕ) → a + s < b → a < b
    under a s b lt = omega arith
insert_free_lem p (q ∷ n ∷ list) big short (big_q, short_q, rest) (further le between) =
    subst (IsFreed p (q ∷ n ∷ list))
      (sym (
        skipped (ltb p.at n.at) (some (join_lower q (join_upper p q n list)))
          (behind_entry q (insert_free p (n ∷ list))) (not_under p.at n.at le)))
      (behind_entry_lem p q (n ∷ list) (insert_free p (n ∷ list)) big_q short_q
        (insert_free_lem p (n ∷ list) big short rest between))
  where
    not_under : (a b : ℕ) → b ≤ a → ltb a b ≡ false
    not_under a b le = ground arith

IsFreed-list :
    (p : Entry) (list : List Entry) (r : Option (List Entry))
    → IsFreed p list r
    → (list' : List Entry) × (r ≡ some list') × IsFreed p list (some list')
unfolding IsFreed
IsFreed-list p list none freed = absurd cc
IsFreed-list p list (some list') freed = (list', refl, freed)

abbrev pub if_sized : Heap → (addr size : ℕ) → Option Heap
if_sized heap addr size =
    if size == 0 then none else some (with_entry heap (record { at = addr; size = size }))

pub heap_free-some :
    (heap : Heap) (addr size : ℕ)
    → 0 < addr
    → 0 < size
    → heap_free heap addr size ≡ some (with_entry heap (record { at = addr; size = size }))
unfolding heap_free
heap_free-some heap addr size at_some size_some =
    skipped (addr == 0) none (if_sized heap addr size) (no_zero addr at_some)
    ∙ skipped (size == 0) none (some (with_entry heap (record { at = addr; size = size })))
        (no_zero size size_some)
  where
    no_zero : (n : ℕ) → 0 < n → (n == 0) ≡ false
    no_zero n lt = ground arith

-- heap_free of a region of at least 16 bytes that lies between two entries of a free list and does not
-- touch the second succeeds: every byte is then on the list as often as before, one time more for the
-- bytes of the region, and the list is one whose entries have room for their records and end below
-- 2^64. The count of free bytes stays as it was.
pub heap_free_lem :
    (heap : Heap) (p : Entry)
    → 0 < p.at
    → entry_size ≤ p.size
    → p.at + p.size < 2 ^ 64
    → IsFreeList heap.list
    → IsBetween p heap.list
    → (heap' : Heap) × (heap_free heap p.at p.size ≡ some heap')
      × IsFreed p heap.list (some heap'.list)
      × (heap'.total_space ≡ heap.total_space)
heap_free_lem heap p at_some big short valid between =
    let (list', e, freed) =
      IsFreed-list p heap.list (insert_free p heap.list)
        (insert_free_lem p heap.list big short valid between) in
    (
      record heap { list = list' },
      heap_free-some heap p.at p.size at_some (positive p.size big)
          ∙ ap (λ r. some (with_free heap p r)) e,
      freed,
      refl,
    )
  where
    positive : (n : ℕ) → 16 ≤ n → 0 < n
    positive n le = omega arith
