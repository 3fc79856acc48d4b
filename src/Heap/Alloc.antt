-- ===== src/Heap/Alloc.antt =====
-- What `heap_malloc` gives.
use gensis32os.Heap.Search.{heap_get_start_block-found}
use gensis32os.Heap.Mark.{mark_taken-at}
use gensis32os.Prelude.{
  lt_or_le, ℕ, zero, suc, ◌+◌, ◌-◌, ◌*◌, ◌^◌, ◌≤◌, ◌<◌, ◌≡◌, refl, ◌⊎◌, inl, inr, Option, none,
  some, arith,
}
use gensis32os.Memory.{Mem}
use gensis32os.Blocks.{FreeRun, FirstFit, found, full, Marked}
use gensis32os.Heap.{
  HeapTable, table_malloc, block_count_of, heap_get_start_block, start_block_loop, scan_free,
}

-- The two ways in which an allocation of `size` bytes can end. On success the block is the first free
-- run of `n` entries, the least number whose storage holds `size` bytes; its entries alone change.
pub data Malloc (m : Mem) (t : HeapTable) (start size : ℕ) : Option ℕ × Mem → Type 0 where
  allocated :
      {m' : Mem} (k n : ℕ)
      → 1 ≤ n
      → size ≤ n * 4096
      → n * 4096 < size + 4096
      → t.entries ≤ k
      → k + n ≤ t.entries + t.total
      → FreeRun m k n
      → ((i : ℕ) → t.entries ≤ i → i < k → ¬ FreeRun m i n)
      → Marked m m' k n
      → Malloc m t start size (some (start + (k - t.entries) * 4096), m')
  refused :
      (size ≡ 0)
        ⊎ (2 ^ 32 ≤ size + 4095)
        ⊎ ((i : ℕ)
            → t.entries ≤ i
            → i + block_count_of size ≤ t.entries + t.total
            → ¬ FreeRun m i (block_count_of size))
      → Malloc m t start size (none, m)

block_count_of-fits :
    (size : ℕ)
    → size + 4095 < 2 ^ 32
    → (size ≤ block_count_of size * 4096) × (block_count_of size * 4096 < size + 4096)
unfolding block_count_of
block_count_of-fits size h = omega arith

block_count_of-wrapped :
    (size : ℕ) → size < 2 ^ 32 → (size ≡ 0) ⊎ (2 ^ 32 ≤ size + 4095) → block_count_of size ≡ 0
unfolding block_count_of
block_count_of-wrapped size h c = omega arith

scan_free-count_zero : (left : ℕ) (m : Mem) (i : ℕ) → (scan_free left m 0 1 i).count ≡ 1
unfolding scan_free
scan_free-count_zero zero m i = refl
scan_free-count_zero (suc left) m i = refl

start_block_loop-none : (f left : ℕ) (m : Mem) (i : ℕ) → start_block_loop f left m 0 i ≡ none
unfolding start_block_loop
start_block_loop-none zero left m i = refl
start_block_loop-none (suc f) zero m i = refl
start_block_loop-none (suc f) (suc left) m i = ground (
  arith,
  scan_free-count_zero left m (i + 1),
  start_block_loop-none f left m (i + 1),
  start_block_loop-none f ((scan_free left m 0 1 (i + 1)).left - 1) m
      ((scan_free left m 0 1 (i + 1)).pos + 1),
)

fit-Malloc :
    (m : Mem) (t : HeapTable) (start size : ℕ) (r : Option ℕ)
    → 1 ≤ size
    → size + 4095 < 2 ^ 32
    → heap_get_start_block m t (block_count_of size) ≡ r
    → FirstFit m t.entries (t.entries + t.total) (block_count_of size) r
    → Malloc m t start size (table_malloc t start m size)
unfolding table_malloc
fit-Malloc m t start size r pos fits e (found {r = k} a b run first) =
    rw (table_malloc, e)
      (allocated k (block_count_of size) (omega (arith, block_count_of-fits size))
        (block_count_of-fits size fits).0 (block_count_of-fits size fits).1 a b run first
        (λ x. mark_taken-at m k (block_count_of size) x (omega (arith, block_count_of-fits size))))
fit-Malloc m t start size r pos fits e (full never) =
    rw (table_malloc, e) (refused (inr (inr never)))

table_malloc-none :
    (m : Mem) (t : HeapTable) (start size : ℕ)
    → block_count_of size ≡ 0
    → table_malloc t start m size ≡ (none, m)
unfolding table_malloc heap_get_start_block
table_malloc-none m t start size e =
    rw (table_malloc, e, start_block_loop-none (t.total + 1) t.total m t.entries)

-- Every call of `heap_malloc` ends in one of the two ways: a first-fit block of exactly the entries that
-- the size needs, with nothing else changed, or NULL with the memory as it was. NULL is returned for
-- size 0, for a size whose rounding wraps around 2 ^ 32, and when the table has no such run.
pub table_malloc-Malloc :
    (m : Mem) (t : HeapTable) (start size : ℕ)
    → size < 2 ^ 32
    → Malloc m t start size (table_malloc t start m size)
table_malloc-Malloc m t start size h = elim (lt_or_le 0 size) [
  | inr z ↦
      let zero_size : size ≡ 0 = omega arith in
      rw (table_malloc-none m t start size (block_count_of-wrapped size h (inl zero_size)))
        (refused (inl zero_size))
  | inl pos ↦ elim (lt_or_le (size + 4095) (2 ^ 32)) [
    | inr wraps ↦
        rw (table_malloc-none m t start size (block_count_of-wrapped size h (inr wraps)))
          (refused (inr (inl wraps)))
    | inl fits ↦ fit-Malloc m t start size _ pos fits refl (
        heap_get_start_block-found m t (block_count_of size)
          (omega (arith, block_count_of-fits size fits)))
  ]
]
