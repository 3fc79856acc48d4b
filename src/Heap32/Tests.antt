-- ===== src/Heap32/Tests.antt =====
-- Runs of the page heap on a page at 0x1000.
use gensis32os.Prelude.{◌==◌, if◌then◌else◌, ◌+◌, ◌≡◌, refl, true, some, arith}
use gensis32os.Memory.{Mem}
use gensis32os.Blocks.{IsBlock}
use gensis32os.Heap32.{malloc_32, heap32_free, get_index, no_blocks_of, index_loop}
use gensis32os.Heap32.Alloc.{Malloc32, malloc_32-Malloc32}
use gensis32os.Heap32.Release.{heap32_free-malloc_32}

-- Units 0 and 1 are one block, and unit 2 is a block alone.
abbrev used : Mem
used a = if a == 0x1000 then 0xc1 else if a == 0x1001 then 0x01 else if a == 0x1002 then 0x41 else 0

used-IsBlock : IsBlock used (0x1000 + 0) 2
used-IsBlock = record { size = omega arith; codes = λ j p q. ground arith }

malloc_32-Malloc32_example : Malloc32 used 0x1000 40 (malloc_32 used 0x1000 40)
malloc_32-Malloc32_example = malloc_32-Malloc32 used 0x1000 40 (omega arith)

used-malloc : (malloc_32 used 0x1000 40).0 ≡ some 0x10e0
unfolding malloc_32 get_index no_blocks_of gensis32os.Heap32.index_loop
used-malloc = refl

heap32_free-malloc_32_example :
    heap32_free (malloc_32 used 0x1000 40).1 0x1000 0x10e0 ≡ (true, used)
heap32_free-malloc_32_example =
    heap32_free-malloc_32 used 0x1000 40 0x10e0 (omega arith) used-malloc
