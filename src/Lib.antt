-- ===== src/Lib.antt =====
-- gensis32OS, a 32-bit kernel for x86 in C (src/kernel): models of its code and proofs about them.
--
-- The parts. `kernel_main` (src/kernel/kernel.c) clears the screen and sets up the kernel heap, the
-- interrupt table, the timer, paging, the small heap, the disks and the partitions, in this order. The
-- kernel heap (src/kernel/heap/kheap.c over src/kernel/heap/heap.c) hands out blocks of 4096 bytes;
-- paging takes its tables from it, and the small heap (src/kernel/heap/heap_cream.c) takes pages, which
-- it divides with the page heap (src/kernel/heap/heap32.c). The ATA driver (src/kernel/disk/disk.c)
-- reads and writes sectors through ports; streams (src/kernel/disk/disk_stream.c), partition tables
-- (src/kernel/file_syst/partitions.c) and FAT16 (src/kernel/file_syst/fat16.c) read through it.
--
-- The files and the code:
--   Prelude      shared names, C integers as numbers, bit operations, division, lists
--   Memory       memory as bytes by address, little-endian words; a pointer is its address
--   Essentials   src/kernel/essentials/essentials.c: memset, memset_fast, gen_memset, memcmp, memcpy
--   Strings      src/kernel/string/string.c: strlen, strcpy, strncpy, strnlen, strncmp, strcmp
--   Ctype        src/kernel/ctype/ctype.c: the classes and case maps of characters
--   Blocks       the encoding of block tables that both heaps share, and its specification
--   Heap         src/kernel/heap/heap.c: heap_create, heap_malloc, heap_free
--   Kheap        src/kernel/heap/kheap.c: kheap_init, kmalloc, kzalloc, kfree
--   Heap32       src/kernel/heap/heap32.c: malloc_32, heap32_free
--   HeapCream    src/kernel/heap/heap_cream.c: heap_cream_malloc, heap_cream_free and the pages
--   Paging       src/kernel/paging/paging.c: create_32_dir_table, set_page_table_enrty
--   Idt          src/kernel/idt/idt.c: idt_init
--   Time         src/kernel/time/time.c, src/kernel/pit/pit.c, the tick of src/kernel/isr/isr.c
--   Console      the screen of src/kernel/kernel.c: print and its kin, scroll1
--   Disk         src/kernel/disk/disk.c: read_disk_block, write_disk_block, disk_search_and_init
--   DiskStream   src/kernel/disk/disk_stream.c: get_bytes_from_disk
--   Partitions   src/kernel/file_syst/partitions.c: create_linked_list, single_disk_scan
--   Fat16        src/kernel/file_syst/fat16.c: the boot sector, and in its children
--     Device       read_disk_block and write_disk_block as fat16.c calls them
--     Files        read_fat16; Chain, Sectors, ReadRound and Read are its proof
--     FreeCluster  get_free_cluster; FatWords, FatMarks, FatEntries and FreeFirst are its proof
--     WriteFile    write_fat16; WriteRound, Stretch, Write and RoundTrip are its proof
--     Tables       the tables of mounts and of open files
--     Mounting     mount_fat16, umount_fat16; Mount is a proof
--     Opening      fat16_sub_open_file, fat16_sub_close_file; OpenFiles, Linking, OpenClose and
--                  LostEntry are their proofs
--     Directory    read_cluster_find_match; Matching and Lookup are its proof
--     Names        set_fname
--   Gen32Heap    src/kernel/gen32_heap/heap.c: heap_init, malloc, free
--   Fat12        src/tools/fat.c: the program that prints a file of a FAT12 image
--   Vfs          src/kernel/file_syst/vfs.c, src/kernel/file_syst/hash.c, the search of the cache table
-- Each file has its definitions, its children the proofs, and its child Tests the runs on small inputs.
--
-- State and results. Memory is a function from addresses to bytes, passed on by every operation that
-- writes; NULL is `none`; an `int` result is its 32-bit pattern, so a negative one is at least 2^31;
-- a call that would follow a NULL pointer or not end has the result `none` outside, with one
-- exception: in the tables of FAT16 (Fat16/Tables) a write through NULL changes the cell of address
-- 0, as it does in a kernel that maps that address. In Fat12 a write behind the block that malloc
-- gave has the result `none` too. Unsigned sums wrap where the code lets them (`u32`, `sub32`); the
-- two `int` counters of set_fname do not, nor does the address that heap_malloc returns, which lies
-- below 2^32 as long as the heap ends there. The drive behind the ports and the sector reader of a
-- stream are parameters with named laws (Disk/Drive, DiskStream/Bytes): a drive obeys a read command
-- where the device register has the LBA bit and the bit of the drive, and may fail a read of a sector
-- that is not readable. FAT16 reads and writes a device (Fat16/Device), which the driver's calls fill
-- and whose laws say that a sector keeps what was written. Blocks that the heap gives to FAT16 are
-- arguments, 0 for NULL; the tables of mounts and of open files are functions from a block's address
-- to its fields.
--
-- Bounds and fuel. Loops with a counter recur on the rounds that are left. The search of a block table
-- has one unit of fuel more than the table has entries, which the proofs show to be enough; `strlen`,
-- `strcmp`, `strcpy` and the sleeps take fuel and are proved to end with any that is larger than the
-- text or the number of ticks. read_fat16 and write_fat16 take one round for each byte wanted, which is
-- more than the clusters they pass; the search in Gen32Heap takes one for each block; Fat12 takes one
-- for each cluster of the chain. The polls of a drive are bounded by ATA_WAIT in the code itself.
--
-- Not modelled: the assembly (boot loader, stubs, port and control instructions), `kernel_main` and
-- what only prints, the heap cells that hold disks and partitions, get_fs_specific_path_last_dir,
-- get_last_open and create_file_fat16 of FAT16, the clock, and file_syst/archive, which is outside the
-- build.
pub mod Prelude
pub mod Memory
pub mod Essentials
pub mod Strings
pub mod Ctype
pub mod Blocks
pub mod Gen32Heap
pub mod Heap
pub mod Kheap
pub mod Heap32
pub mod HeapCream
pub mod Paging
pub mod Idt
pub mod Console
pub mod Disk
pub mod Partitions
pub mod Fat12
pub mod Fat16
pub mod DiskStream
pub mod Vfs
pub mod Time
