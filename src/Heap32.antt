-- ===== src/Heap32.antt =====
-- src/kernel/heap/heap32.c: a 4096-byte page cut into 32-byte units. Its first 124 bytes are the table,
-- bytes 124 to 127 a guard, and the units begin at byte 128. `NULL` and an index of -1 are `none`.
mod Tests
pub mod Search
pub mod Alloc
pub mod Release
use gensis32os.Prelude.{
  ltb, leb, ◌==◌, if◌then◌else◌, u32, sub32, ◌>>>◌, ℕ, zero, suc, ◌+◌, ◌-◌, ◌*◌, ◌/◌, ◌%◌, ◌^◌,
  Bool, true, false, ◌&&◌, ◌||◌, not, Option, none, some,
}
use gensis32os.Memory.{Mem, store}
use gensis32os.Blocks.{block_start, block_end, block_mid, block_single}

abbrev pub data_offset_bytes : ℕ
data_offset_bytes = 128

abbrev pub size_of_block_byte : ℕ
size_of_block_byte = 32

unfoldable pub table_guard_set : Mem → (page_addr : ℕ) → Mem
table_guard_set m page =
    store (store (store (store m (page + 124) 0xab) (page + 125) 0xab) (page + 126) 0xab)
      (page + 127) 0xab

-- Where the inner loop stands: table bytes left up to index 124, the address, and `target`, an `int` as
-- its 32-bit pattern.
pub record Seek : Type 0 where
  pub left : ℕ
  pub pos : ℕ
  pub target : ℕ

-- `for(; target && i < 124; i++, target--) if(table_index[i] != 0) break;`
unfoldable pub seek_free : (left : ℕ) → Mem → (target i : ℕ) → Seek
seek_free zero m target i = record { left = 0; pos = i; target = target }
seek_free (suc left) m target i =
    let rest = seek_free left m (sub32 target 1) (i + 1) in
    if not (target == 0) && (m i == 0)
    then rest
    else record { left = suc left; pos = i; target = target }

-- The outer loop, with fuel for its rounds; `i` is the address of the table byte.
unfoldable pub index_loop : (fuel left : ℕ) → Mem → (no_blocks i : ℕ) → Option ℕ
unfolding seek_free
index_loop zero left m n i = none
index_loop (suc f) zero m n i = none
index_loop (suc f) (suc left) m n i =
    let s = seek_free left m (sub32 n 1) (i + 1) in
    let after = index_loop f (s.left - 1) m n (s.pos + 1) in
    let next = index_loop f left m n (i + 1) in
    if m i == 0 then if s.target == 0 then some i else after else next

-- The index is the position less the page address.
unfoldable pub get_index : Mem → (page_addr no_blocks : ℕ) → Option ℕ
get_index m page n = elim (index_loop 125 124 m n page) [ none ↦ none | some i ↦ some (i - page) ]

-- `for(; i < no_blocks - 1; i++)`, over the rounds left: a taken byte ends it with GEN32_INVARG.
pub set_mid : ℕ → Mem → (addr : ℕ) → ℕ × Mem
set_mid zero m addr = (0, m)
set_mid (suc left) m addr =
    let rest = set_mid left (store m addr block_mid) (addr + 1) in
    if m addr == 0 then rest else (2, m)

-- The last byte, reached when the loop has not returned.
pub set_last : (addr : ℕ) → ℕ × Mem → ℕ × Mem
set_last addr (zero, m) = if m addr == 0 then (0, store m addr block_end) else (2, m)
set_last addr (suc e, m) = (suc e, m)

pub set_table_val : Mem → (page_addr index no_blocks : ℕ) → ℕ × Mem
unfolding set_mid set_last
set_table_val m page index n =
    let addr = page + index in
    if n == 1
    then if m addr == 0 then (0, store m addr block_single) else (2, m)
    else if m addr == 0
    then set_last (addr + n - 1) (set_mid (n - 2) (store m addr block_start) (addr + 1))
    else (2, m)

-- `(uint32_t)((size + 31) >> 5)` in 32 bits.
unfoldable pub no_blocks_of : ℕ → ℕ
no_blocks_of size = u32 (size + 31) >>> 5

-- The error of `set_table_val` is a positive number, so the test for `< 0` never holds and its result is
-- not looked at.
unfoldable pub malloc_32 : Mem → (page_addr size : ℕ) → Option ℕ × Mem
malloc_32 m page size = elim (get_index m page (no_blocks_of size)) [
  | none ↦ (none, m)
  | some index ↦ (
    some (page + (data_offset_bytes + index * size_of_block_byte)),
    (set_table_val m page index (no_blocks_of size)).1,
  )
]

-- The loop over a block's body: `left` is 128 less the offset of `addr` in the page. The Boolean says
-- that no byte but MID was met.
pub clear_body : ℕ → Mem → (addr : ℕ) → Bool × Mem
clear_body zero m addr = (true, store m addr 0)
clear_body (suc left) m addr =
    let rest = clear_body left (store m addr 0) (addr + 1) in
    if m addr == block_end
    then (true, store m addr 0)
    else if m addr == block_mid
    then rest
    else (false, m)

-- The checks on the table byte at `addr`, and the clearing; `left` bytes follow it up to offset 128.
pub free_entry : (left : ℕ) → Mem → (addr : ℕ) → Bool × Mem
free_entry left m addr =
    if m addr == 0xab
    then (false, m)
    else if m addr == 0
    then (false, m)
    else if m addr == block_end || (m addr == block_mid)
    then (false, m)
    else if m addr == block_single
    then (true, store m addr 0)
    else if not (m addr == block_start)
    then (false, m)
    else clear_body left (store m addr 0) (addr + 1)

-- The pointer difference is signed: a pointer below the data of the page, or 2 GB past it, is refused.
unfoldable pub heap32_free : Mem → (page_addr block_addr : ℕ) → Bool × Mem
heap32_free m page block =
    let diff = sub32 block page in
    let index = diff - data_offset_bytes in
    if ltb diff data_offset_bytes || leb (2 ^ 31) diff
    then (false, m)
    else if not (index % 32 == 0)
    then (false, m)
    else free_entry (127 - index / 32) m (page + index / 32)
