-- ===== src/Paging.antt =====
-- src/kernel/paging/paging.c: the two-level page tables. A table is 1024 words of 4 bytes in memory. The
-- kernel heap is an argument; a result `none` outside is its fault, `none` inside is NULL.
mod Tests
pub mod Walk
pub mod Change
use gensis32os.Prelude.{
  ◌==◌, if◌then◌else◌, u32, ℕ, zero, suc, ◌+◌, ◌*◌, ◌/◌, ◌%◌, bit_and, bit_or, not, Option, none,
  some,
}
use gensis32os.Memory.{Mem, load32, store32}
use gensis32os.Heap.{Heap}
use gensis32os.Kheap.{kzalloc}

abbrev pub paging_present : ℕ
paging_present = 1

abbrev pub read_and_write : ℕ
read_and_write = 2

-- `base | (flags & 0xfff) | READ_AND_WRITE | PAGING_PRESENT`
pub entry_of : (base flags : ℕ) → ℕ
entry_of base flags =
    bit_or (bit_or (bit_or base (bit_and flags 0xfff)) read_and_write) paging_present

-- The inner loop over one page table, with `left` rounds to go; the `offset` that it leaves is beside
-- the memory.
pub fill_page_table : (left : ℕ) → Mem → (page_index flags j offset : ℕ) → Mem × ℕ
fill_page_table zero m page flags j offset = (m, offset)
fill_page_table (suc left) m page flags j offset =
    fill_page_table left (store32 m (page + 4 * j) (entry_of offset flags)) page flags (j + 1)
      (u32 (offset + 0x1000))

-- One round of the outer loop, on what `kzalloc` returned. Where it gave no usable page the directory
-- entry is 0 and `offset` stays.
pub set_dir_entry : (index flags i offset : ℕ) → Option ℕ × Mem → Mem × ℕ
set_dir_entry index flags i offset (none, m) = (store32 m (index + 4 * i) 0, offset)
set_dir_entry index flags i offset (some page, m) =
    if not (bit_and page 0xfff == 0)
    then (store32 m (index + 4 * i) 0, offset)
    else fill_page_table 1024 (store32 m (index + 4 * i) (entry_of (bit_and page 0xfffff000) flags))
        page flags 0 offset

pub dir_loop : (left : ℕ) → Heap → Mem → (index flags i offset : ℕ) → Option Mem
dir_loop zero h m index flags i offset = some m
dir_loop (suc left) h m index flags i offset =
    let next = λ (r : Mem × ℕ). dir_loop left h r.0 index flags (i + 1) r.1 in
    elim (kzalloc h m 4096) [ none ↦ none | some r ↦ next (set_dir_entry index flags i offset r) ]

-- The directory and the memory.
pub dir_from : Heap → (flags : ℕ) → Option ℕ × Mem → Option (Option ℕ × Mem)
dir_from h flags (none, m) = some (none, m)
dir_from h flags (some rtn_val, m) =
    if not (bit_and rtn_val 0xfff == 0)
    then some (none, m)
    else elim (dir_loop 1024 h m rtn_val flags 0 0) [
      | none ↦ none
      | some m' ↦ some (some rtn_val, m')
    ]

pub create_32_dir_table : Heap → Mem → (flags : ℕ) → Option (Option ℕ × Mem)
create_32_dir_table h m flags = elim (kzalloc h m 4096) [
  | none ↦ none
  | some r ↦ dir_from h flags r
]

-- The status with both indices; on an error the two results are not written.
pub get_index_from_virt : (virtual_address : ℕ) → Option (ℕ × ℕ)
get_index_from_virt virt =
    if not (bit_and virt 0xfff == 0)
    then none
    else some (virt / (1024 * 4096), virt % (1024 * 4096) / 4096)

-- `none` is -GEN32_INVARG.
pub set_page_table_entry : Mem → (dir_table virt_addr set_val flags : ℕ) → Option Mem
set_page_table_entry m dir virt set_val flags = elim (get_index_from_virt virt) [
  | none ↦ none
  | some (dir_index, page_index) ↦
      let pg_t = bit_and (load32 m (dir + 4 * dir_index)) 0xfffff000 in
      some (store32 m (pg_t + 4 * page_index) (bit_or set_val flags))
]
