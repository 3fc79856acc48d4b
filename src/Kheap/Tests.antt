-- ===== src/Kheap/Tests.antt =====
-- The kernel heap after its set-up.
use gensis32os.Essentials.{memset}
use gensis32os.Prelude.{◌≡◌, refl, none, some}
use gensis32os.Memory.{Mem, store}
use gensis32os.Blocks.{block_single}
use gensis32os.Heap.{Heap, heap_malloc}
use gensis32os.Kheap.{kheap_table, kmalloc, zero_filled, kzalloc}
use gensis32os.Kheap.Pages.{kernel_heap}

abbrev ones : Mem
ones a = 1

abbrev no_heap : Heap
no_heap = record { table = none; start_addr = 0; end_addr = 0 }

abbrev zeros : Mem
zeros a = 0

-- The first page of the heap is handed out.
first_page : Mem
first_page = memset (store zeros kheap_table block_single) 0x1000000 0 100

zeros-kzalloc : kzalloc kernel_heap zeros 100 ≡ some (some 0x1000000, first_page)
unfolding kzalloc kmalloc zero_filled heap_malloc first_page
zeros-kzalloc = refl
