-- ===== src/Heap/Release.antt =====
-- What `heap_free` gives back.
use gensis32os.Blocks.Layout.{Cleared-Marked, Marked-IsBlock}
use gensis32os.Prelude.{
  eq_or_ne, sub32, ℕ, ◌+◌, ◌-◌, ◌*◌, ◌/◌, ◌^◌, ◌≤◌, ◌<◌, ◌≡◌, ◌≢◌, inl, inr, Option, some, arith,
}
use gensis32os.Memory.{Mem, store}
use gensis32os.Blocks.{IsBlock, block_end, Cleared, block_start, block_single}
use gensis32os.Heap.{HeapTable, table_free, table_malloc}
use gensis32os.Heap.Mark.{clear_block-at}
use gensis32os.Heap.Alloc.{Malloc, allocated, refused, table_malloc-Malloc}

block_body : {m : Mem} {k n : ℕ} → IsBlock m k n → (j : ℕ) → k ≤ j → j < k + n - 1 → m j ≢ block_end
block_body {m} {k} {n} b j p q = ground (arith, b.size, b.codes j p (omega arith))

block_last : {m : Mem} {k n : ℕ} → IsBlock m k n → 2 ≤ n → m (k + n - 1) ≡ block_end
block_last {m} {k} {n} b two =
    ground (arith, b.codes (k + n - 1) (omega (arith, b.size)) (omega (arith, b.size)))

-- Freeing a pointer into the unit where a block of the table starts clears exactly that block's entries.
pub table_free-block :
    (m : Mem) (t : HeapTable) (start abs k n : ℕ)
    → IsBlock m k n
    → k + n ≤ t.entries + t.total
    → t.entries + sub32 abs start / 4096 ≡ k
    → Cleared m (table_free t start m abs) k n
unfolding table_free store
table_free-block m t start abs k n b fits e a = elim (eq_or_ne n 1) [
  | inl one ↦ ground (arith, one, e, b.codes k (omega arith) (omega (arith, b.size)))
  | inr more ↦ ground (
    arith,
    e,
    b.size,
    b.codes k (omega arith) (omega (arith, b.size)),
    clear_block-at (t.entries + t.total - k) m k (k + n - 1) a (omega (arith, b.size))
        (omega (arith, b.size)) (block_body b) (block_last b (omega (arith, b.size))),
  )
]

-- A pointer whose table entry starts no block is left alone.
pub table_free-idle :
    (m : Mem) (t : HeapTable) (start abs : ℕ)
    → m (t.entries + sub32 abs start / 4096) ≢ block_single
    → m (t.entries + sub32 abs start / 4096) ≢ block_start
    → table_free t start m abs ≡ m
unfolding table_free
table_free-idle m t start abs s b = ground arith

Malloc-free :
    (m : Mem) (t : HeapTable) (start size p : ℕ) {r : Option ℕ × Mem}
    → t.total * 4096 < 2 ^ 32
    → Malloc m t start size r
    → r.0 ≡ some p
    → table_free t start r.1 p ≡ m
Malloc-free m t start size p small (allocated {m'} k n one lo hi low high run first marks) e =
    let at : start + (k - t.entries) * 4096 ≡ p = cc in
    Cleared-Marked m m' (table_free t start m' p) k n run marks
      (table_free-block m' t start p k n (Marked-IsBlock m m' k n one marks) high (omega arith))
Malloc-free m t start size p small (refused why) e = cc

-- Round trip: freeing what `heap_malloc` returned gives back the memory as it was before the call, table
-- included, for every heap whose blocks fit the 32-bit address space.
pub table_free-table_malloc :
    (m : Mem) (t : HeapTable) (start size p : ℕ)
    → size < 2 ^ 32
    → t.total * 4096 < 2 ^ 32
    → (table_malloc t start m size).0 ≡ some p
    → table_free t start (table_malloc t start m size).1 p ≡ m
table_free-table_malloc m t start size p h small e =
    Malloc-free m t start size p small (table_malloc-Malloc m t start size h) e
