-- ===== src/Kheap.antt =====
-- src/kernel/heap/kheap.c: the kernel's heap, 100 MB of blocks from KHEAP_START on with the table at
-- KHEAP_TABLE (src/kernel/osconfig.h). A result `none` outside is a fault, `none` inside is NULL.
mod Tests
pub mod Pages
use gensis32os.Prelude.{ℕ, ◌+◌, ◌/◌, Option, none, some}
use gensis32os.Memory.{Mem}
use gensis32os.Essentials.{memset}
use gensis32os.Heap.{Heap, HeapTable, heap_create, heap_malloc, heap_free}

abbrev pub kheap_start : ℕ
kheap_start = 0x1000000

abbrev pub kheap_size_bytes : ℕ
kheap_size_bytes = 0x6400000

abbrev pub kheap_table : ℕ
kheap_table = 0x7e00

-- `kernel_heap_table` as `kheap_init` sets it.
abbrev pub kernel_heap_table : HeapTable
kernel_heap_table = record { entries = kheap_table; total = kheap_size_bytes / 4096 }

-- A failure of `heap_create` is only printed.
unfoldable pub kheap_init : Mem → Heap → Heap × Mem
kheap_init m h =
    let (status, h', m') =
      heap_create m h kheap_start (kheap_start + kheap_size_bytes) kernel_heap_table in
    (h', m')

unfoldable pub kmalloc : Heap → Mem → (size : ℕ) → Option (Option ℕ × Mem)
kmalloc h m size = heap_malloc h m size

-- `if(ptr != NULL) memset(ptr, 0x00, size)`
unfoldable pub zero_filled : (size : ℕ) → Option ℕ × Mem → Option ℕ × Mem
zero_filled size (none, m) = (none, m)
zero_filled size (some ptr, m) = (some ptr, memset m ptr 0 size)

unfoldable pub kzalloc : Heap → Mem → (size : ℕ) → Option (Option ℕ × Mem)
unfolding kmalloc
kzalloc h m size = elim (kmalloc h m size) [ none ↦ none | some r ↦ some (zero_filled size r) ]

unfoldable pub kfree : Heap → Mem → (ptr : ℕ) → Option Mem
kfree h m ptr = heap_free h m ptr
