-- ===== src/Heap.antt =====
-- src/kernel/heap/heap.c: a heap of whole 4096-byte blocks with a table of one byte for each. `NULL` is
-- `none`. A call that would follow the heap's NULL table pointer has no result, `none` outside.
mod Tests
pub mod Search
pub mod Mark
pub mod Alloc
pub mod Release
pub mod Invariant
pub mod Live
use gensis32os.Prelude.{
  ltb, ◌==◌, if◌then◌else◌, u32, sub32, sdiv32, ◌>>>◌, neg, ℕ, zero, suc, ◌+◌, ◌-◌, ◌*◌, ◌/◌, ◌%◌,
  Bool, ◌&&◌, ◌||◌, not, Option, none, some,
}
use gensis32os.Memory.{Mem, store}
use gensis32os.Essentials.{memset}
use gensis32os.Blocks.{block_start, block_end, block_mid, block_single}

abbrev pub kheap_block_size : ℕ
kheap_block_size = 4096

abbrev pub kheap_block_shift : ℕ
kheap_block_shift = 12

-- GEN32_INVARG
abbrev pub gen32_invarg : ℕ
gen32_invarg = 2

pub record HeapTable : Type 0 where
  pub entries : ℕ
  pub total : ℕ

pub record Heap : Type 0 where
  pub table : Option HeapTable
  pub start_addr : ℕ
  pub end_addr : ℕ

-- `(int)end % 4096 == 0`: the remainder of a negative `int` is 0 exactly when the low bits are.
heap_validate_alignment : ℕ → Bool
heap_validate_alignment end = end % kheap_block_size == 0

heap_entry_count : Heap → HeapTable → Bool
heap_entry_count h t = sdiv32 (sub32 h.end_addr h.start_addr) kheap_block_size == t.total

-- The status, the heap and the memory after the call.
unfoldable pub heap_create : Mem → Heap → (ptr end : ℕ) → HeapTable → ℕ × Heap × Mem
unfolding heap_validate_alignment heap_entry_count
heap_create m h ptr end t =
    if not (heap_validate_alignment end) || not (heap_validate_alignment ptr)
    then (neg gen32_invarg, h, m)
    else let h' : Heap = record { table = none; start_addr = ptr; end_addr = end } in
      if heap_entry_count h' t
      then (0, record h' { table = some t }, memset m t.entries 0 t.total)
      else (neg gen32_invarg, h', m)

-- Where a scan stands: the bytes left up to the table's end, the position, and the free ones seen.
pub record Scan : Type 0 where
  pub left : ℕ
  pub pos : ℕ
  pub count : ℕ

-- `while(count < block_count && i < max && *i == 0) { count++; i++; }`, `left` being max - i.
unfoldable pub scan_free : (left : ℕ) → Mem → (block_count count i : ℕ) → Scan
scan_free zero m bc count i = record { left = 0; pos = i; count = count }
scan_free (suc left) m bc count i =
    let rest = scan_free left m bc (count + 1) (i + 1) in
    if ltb count bc && (m i == 0) then rest else record { left = suc left; pos = i; count = count }

-- The outer loop, with fuel for its rounds.
unfoldable pub start_block_loop : (fuel left : ℕ) → Mem → (block_count i : ℕ) → Option ℕ
unfolding scan_free
start_block_loop zero left m bc i = none
start_block_loop (suc f) zero m bc i = none
start_block_loop (suc f) (suc left) m bc i =
    let s = scan_free left m bc 1 (i + 1) in
    let after = start_block_loop f (s.left - 1) m bc (s.pos + 1) in
    let next = start_block_loop f left m bc (i + 1) in
    if m i == 0 then if s.count == bc then some i else after else next

pub heap_get_start_block : Mem → HeapTable → ℕ → Option ℕ
unfolding start_block_loop
heap_get_start_block m t bc = start_block_loop (t.total + 1) t.total m bc t.entries

-- `for(temp = address + 1; temp <= address + block_count - 2; temp++) *temp = MID`, over the rounds left.
pub mark_mid : ℕ → Mem → ℕ → Mem
mark_mid zero m temp = m
mark_mid (suc left) m temp = mark_mid left (store m temp block_mid) (temp + 1)

pub mark_taken : Mem → (address block_count : ℕ) → Mem
unfolding mark_mid
mark_taken m address bc =
    if bc == 1
    then store m address block_single
    else store (mark_mid (bc - 2) (store m address block_start) (address + 1)) (address + bc - 1)
        block_end

-- `(size + 4095) >> 12` in 32 bits.
pub block_count_of : ℕ → ℕ
block_count_of size = u32 (size + kheap_block_size - 1) >>> kheap_block_shift

pub table_malloc : HeapTable → (start_addr : ℕ) → Mem → (size : ℕ) → Option ℕ × Mem
unfolding heap_get_start_block mark_taken block_count_of
table_malloc t start m size = elim (heap_get_start_block m t (block_count_of size)) [
  | none ↦ (none, m)
  | some address ↦ (
    some (start + (address - t.entries) * kheap_block_size),
    mark_taken m address (block_count_of size),
  )
]

unfoldable pub heap_malloc : Heap → Mem → (size : ℕ) → Option (Option ℕ × Mem)
unfolding table_malloc
heap_malloc h m size = elim h.table [
  | none ↦ none
  | some t ↦ some (table_malloc t h.start_addr m size)
]

-- `while(*ptr != END && ptr < max) *ptr++ = 0; if(ptr < max) *ptr = 0`, `left` being max - ptr.
pub clear_block : ℕ → Mem → ℕ → Mem
clear_block zero m ptr = m
clear_block (suc left) m ptr =
    let rest = clear_block left (store m ptr 0) (ptr + 1) in
    if m ptr == block_end then store m ptr 0 else rest

pub table_free : HeapTable → (start_addr : ℕ) → Mem → (abs_addr : ℕ) → Mem
unfolding clear_block
table_free t start m abs =
    let i = sub32 abs start / kheap_block_size in
    let ptr = t.entries + i in
    if m ptr == block_single
    then store m ptr 0
    else if m ptr == block_start
    then clear_block (t.entries + t.total - ptr) m ptr
    else m

unfoldable pub heap_free : Heap → Mem → (abs_addr : ℕ) → Option Mem
unfolding table_free
heap_free h m abs = elim h.table [ none ↦ none | some t ↦ some (table_free t h.start_addr m abs) ]
