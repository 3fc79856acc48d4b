-- ===== src/HeapCream/Tests.antt =====
-- Runs of the small heap with `mothermary` at 0x100.
use gensis32os.Prelude.{◌==◌, if◌then◌else◌, ◌+◌, ◌<◌, ◌≡◌, refl, false, some, arith}
use gensis32os.Memory.{Mem, load32}
use gensis32os.Blocks.{IsBlock, Cleared}
use gensis32os.Heap32.{malloc_32, get_index, index_loop, no_blocks_of}
use gensis32os.Heap32.Release.{unit_address}
use gensis32os.Kheap.Pages.{kernel_heap}
use gensis32os.HeapCream.{slot, heap_cream_malloc, heap_cream_free, after_search, search_pages}
use gensis32os.HeapCream.Search.{CreamMalloc, heap_cream_malloc-CreamMalloc}
use gensis32os.HeapCream.Free.{GivenBack, heap_cream_free-hole, heap_cream_free-block}

-- The page at 0x1000 with a block of one unit is in slot 0.
abbrev one_page : Mem
one_page a = if a == 0x101 then 0x10 else if a == 0x1000 then 0x41 else 0

-- The same page in slot 1, after slot 0 was emptied.
abbrev hole : Mem
hole a = if a == 0x105 then 0x10 else if a == 0x1000 then 0x41 else 0

hole-slot : slot hole 0x100 0 ≡ 0
unfolding load32
hole-slot = refl

one_page-slot : 0 < slot one_page 0x100 0
unfolding load32
one_page-slot = omega arith

one_page-IsBlock : IsBlock one_page (slot one_page 0x100 0 + 0) 1
unfolding load32
one_page-IsBlock = record { size = omega arith; codes = λ j p q. ground arith }

one_page-malloc :
    heap_cream_malloc kernel_heap one_page 0x100 10
    ≡ some (some 0x10a0, (malloc_32 one_page 0x1000 10).1)
unfolding heap_cream_malloc search_pages after_search malloc_32 load32 get_index index_loop
    no_blocks_of
one_page-malloc = refl

heap_cream_malloc-CreamMalloc_example :
    CreamMalloc one_page kernel_heap 0x100 10 (some 0x10a0, (malloc_32 one_page 0x1000 10).1)
heap_cream_malloc-CreamMalloc_example =
    heap_cream_malloc-CreamMalloc kernel_heap one_page 0x100 10
      (some 0x10a0, (malloc_32 one_page 0x1000 10).1) one_page-malloc

heap_cream_free-hole_example :
    heap_cream_free kernel_heap hole 0x100 (unit_address 0x1000 0) ≡ some (false, hole)
heap_cream_free-hole_example =
    heap_cream_free-hole kernel_heap hole 0x100 (unit_address 0x1000 0) 0 (omega arith) hole-slot
      (λ k h. absurd (omega arith))

heap_cream_free-block_example :
    (m1 : Mem) × Cleared one_page m1 (slot one_page 0x100 0 + 0) 1
    × GivenBack kernel_heap m1 0x100 0
        (heap_cream_free kernel_heap one_page 0x100 (unit_address (slot one_page 0x100 0) 0))
heap_cream_free-block_example =
    heap_cream_free-block kernel_heap one_page 0x100 0 0 1 (omega arith) one_page-slot
      one_page-IsBlock (omega arith) (λ k h. absurd (omega arith))
