-- ===== src/Heap/Tests.antt =====
-- Runs of the block heap on a table of four entries.
use gensis32os.Prelude.{
  ◌==◌, if◌then◌else◌, lt_or_le, ℕ, ◌+◌, ◌*◌, ◌≤◌, ◌≡◌, refl, ◌≢◌, ◌⊎◌, inl, inr, none, some, arith,
}
use gensis32os.Memory.{Mem}
use gensis32os.Blocks.{FreeRun, IsBlock, FirstFit}
use gensis32os.Heap.{HeapTable, heap_get_start_block, table_malloc, table_free, block_count_of}
use gensis32os.Heap.Search.{heap_get_start_block-FirstFit}
use gensis32os.Heap.Alloc.{Malloc, table_malloc-Malloc}
use gensis32os.Heap.Release.{table_free-table_malloc}
use gensis32os.Heap.Invariant.{WellFormed, table_malloc-WellFormed, table_free-WellFormed}
use gensis32os.Heap.Live.{address_of, table_malloc-live, table_free-live}

abbrev four : HeapTable
four = record { entries = 16; total = 4 }

-- Entries 16 and 17 are one block, 18 and 19 are free.
abbrev half_used : Mem
half_used a = if a == 16 then 0xc1 else if a == 17 then 0x01 else 0

half_used-IsBlock : IsBlock half_used 16 2
half_used-IsBlock = record { size = omega arith; codes = λ j p q. ground arith }

half_used-WellFormed : WellFormed half_used four
half_used-WellFormed j p q = elim (lt_or_le j 18) [
  | inl lt ↦ inr (record {
    k = 16;
    n = 2;
    low = omega arith;
    high = omega arith;
    after = p;
    before = lt;
    block = half_used-IsBlock;
  })
  | inr ge ↦ inl (ground arith)
]

heap_get_start_block-FirstFit_example :
    ((◌≡◌ {A = ℕ} 2 0) × (heap_get_start_block half_used four 2 ≡ none))
    ⊎ ((1 ≤ 2) × FirstFit half_used 16 (16 + 4) 2 (heap_get_start_block half_used four 2))
heap_get_start_block-FirstFit_example = heap_get_start_block-FirstFit half_used four 2

table_malloc-Malloc_example :
    Malloc half_used four 0x10000 5000 (table_malloc four 0x10000 half_used 5000)
table_malloc-Malloc_example = table_malloc-Malloc half_used four 0x10000 5000 (omega arith)

half_used-malloc : (table_malloc four 0x10000 half_used 5000).0 ≡ some 0x12000
unfolding table_malloc heap_get_start_block block_count_of
half_used-malloc = refl

table_free-table_malloc_example :
    table_free four 0x10000 (table_malloc four 0x10000 half_used 5000).1 0x12000 ≡ half_used
table_free-table_malloc_example =
    table_free-table_malloc half_used four 0x10000 5000 0x12000 (omega arith) (omega arith)
      half_used-malloc

table_malloc-WellFormed_example : WellFormed (table_malloc four 0x10000 half_used 5000).1 four
table_malloc-WellFormed_example =
    table_malloc-WellFormed half_used four 0x10000 5000 (omega arith) half_used-WellFormed

table_free-WellFormed_example : WellFormed (table_free four 0x10000 half_used 0x11000) four
table_free-WellFormed_example =
    table_free-WellFormed half_used four 0x10000 0x11000 (omega arith) half_used-WellFormed

table_malloc-live_example :
    IsBlock (table_malloc four 0x10000 half_used 5000).1 16 2
    × ((address_of four 0x10000 16 + 2 * 4096 ≤ 0x12000)
        ⊎ (0x12000 + 5000 ≤ address_of four 0x10000 16))
table_malloc-live_example =
    table_malloc-live half_used four 0x10000 5000 16 2 0x12000 (omega arith) half_used-IsBlock
      (omega arith) half_used-malloc

table_free-live_example :
    let m' = table_free four 0x10000 half_used (address_of four 0x10000 16) in
    FreeRun m' 16 2 × ((i s : ℕ) → IsBlock half_used i s → 16 ≢ i → IsBlock m' i s)
table_free-live_example =
    table_free-live half_used four 0x10000 16 2 (omega arith) half_used-IsBlock (omega arith)
      (omega arith)
