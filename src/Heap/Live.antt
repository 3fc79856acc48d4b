-- ===== src/Heap/Live.antt =====
-- Live blocks: what an allocation or a release does to the blocks that others hold.
use gensis32os.Prelude.{
  lt_or_le, ℕ, ◌+◌, ◌-◌, ◌*◌, ◌^◌, ◌≤◌, ◌<◌, ◌≡◌, ◌≢◌, ◌⊎◌, inl, inr, Option, some, arith,
}
use gensis32os.Memory.{Mem}
use gensis32os.Blocks.{FreeRun, IsBlock}
use gensis32os.Blocks.Layout.{IsBlock-ne-zero, kept-IsBlock, other-IsBlock}
use gensis32os.Heap.{HeapTable, table_malloc, table_free}
use gensis32os.Heap.Alloc.{Malloc, allocated, refused, table_malloc-Malloc}
use gensis32os.Heap.Release.{table_free-block}

-- The address at which the storage of table entry `k` begins.
abbrev pub address_of : HeapTable → (start k : ℕ) → ℕ
address_of t start k = start + (k - t.entries) * 4096

apart_run :
    (m : Mem) (k n i s : ℕ) → FreeRun m k n → IsBlock m i s → 1 ≤ n → (i + s ≤ k) ⊎ (k + n ≤ i)
apart_run m k n i s run b one = elim (lt_or_le i k) [
  | inl left ↦ elim (lt_or_le k (i + s)) [
    | inr le ↦ inl le
    | inl lt ↦ absurd (IsBlock-ne-zero b k (omega arith) lt (run k (omega arith) (omega arith)))
  ]
  | inr ge ↦ elim (lt_or_le i (k + n)) [
    | inr le ↦ inr le
    | inl lt ↦ absurd (IsBlock-ne-zero b i (omega arith) (omega (arith, b.size)) (run i ge lt))
  ]
]

Malloc-live :
    (m : Mem) (t : HeapTable) (start size i s p : ℕ) {r : Option ℕ × Mem}
    → Malloc m t start size r
    → IsBlock m i s
    → t.entries ≤ i
    → r.0 ≡ some p
    → IsBlock r.1 i s × ((address_of t start i + s * 4096 ≤ p) ⊎ (p + size ≤ address_of t start i))
Malloc-live m t start size i s p (allocated {m'} k n one fits tight low high run first marks) b lo
      e =
    let at : start + (k - t.entries) * 4096 ≡ p = cc in
    (
      kept-IsBlock m m' k n run marks b,
      elim (apart_run m k n i s run b one) [
        | inl left ↦ inl (omega arith)
        | inr right ↦ inr (omega arith)
      ],
    )
Malloc-live m t start size i s p (refused why) b lo e = cc

-- An allocation leaves every live block a block of the same size, and the storage that it hands out has
-- no byte in common with the storage of a live block.
pub table_malloc-live :
    (m : Mem) (t : HeapTable) (start size i s p : ℕ)
    → size < 2 ^ 32
    → IsBlock m i s
    → t.entries ≤ i
    → (table_malloc t start m size).0 ≡ some p
    → IsBlock (table_malloc t start m size).1 i s
      × ((address_of t start i + s * 4096 ≤ p) ⊎ (p + size ≤ address_of t start i))
table_malloc-live m t start size i s p h b lo e =
    Malloc-live m t start size i s p (table_malloc-Malloc m t start size h) b lo e

-- Freeing the block at entry `k` by its address clears its entries and no others, and every other block
-- stays live.
pub table_free-live :
    (m : Mem) (t : HeapTable) (start k n : ℕ)
    → t.total * 4096 < 2 ^ 32
    → IsBlock m k n
    → t.entries ≤ k
    → k + n ≤ t.entries + t.total
    → let m' = table_free t start m (address_of t start k) in
      FreeRun m' k n × ((i s : ℕ) → IsBlock m i s → k ≢ i → IsBlock m' i s)
table_free-live m t start k n small b lo hi =
    let m' = table_free t start m (address_of t start k) in
    let clears =
      table_free-block m t start (address_of t start k) k n b hi (omega (arith, b.size)) in
    ((λ j p q. ground (arith, clears j)), (λ i s c ne. other-IsBlock m m' k n b clears c ne))
