-- ===== src/HeapCream.antt =====
-- src/kernel/heap/heap_cream.c: small allocations out of up to 124 pages of the kernel heap. `mothermary`
-- is an array of page addresses in memory, 4 bytes each, in which 0 ends the search. The kernel heap `h`
-- and the address `mm` of the array are arguments; `none` outside is a fault of the kernel heap.
mod Tests
pub mod Search
pub mod Free
use gensis32os.Prelude.{
  ltb, leb, ◌==◌, if◌then◌else◌, ℕ, zero, suc, ◌+◌, ◌-◌, ◌*◌, Bool, true, false, ◌&&◌, Option, none,
  some,
}
use gensis32os.Memory.{Mem, load32, store32}
use gensis32os.Heap.{Heap}
use gensis32os.Kheap.{kzalloc, kfree}
use gensis32os.Heap32.{malloc_32, heap32_free, table_guard_set}

abbrev pub max_4kb_heap : ℕ
max_4kb_heap = 124

abbrev pub total_bytes_avail : ℕ
total_bytes_avail = 3968

-- `mothermary[i]`
abbrev pub slot : Mem → (mm i : ℕ) → ℕ
slot m mm i = load32 m (mm + 4 * i)

-- A pointer as a number: NULL is 0.
abbrev pub addr_of : Option ℕ → ℕ
addr_of none = 0
addr_of (some p) = p

-- `help_me_mary_mother_of_god`: the new value of `mothermary`, from a call that asks for one byte.
pub help_me_mary : Heap → Mem → Option (ℕ × Mem)
help_me_mary h m = elim (kzalloc h m 1) [ none ↦ none | some (p, m') ↦ some (addr_of p, m') ]

pub cream_init_loop : ℕ → Mem → (mm i : ℕ) → Mem
cream_init_loop zero m mm i = m
cream_init_loop (suc left) m mm i = cream_init_loop left (store32 m (mm + 4 * i) 0) mm (i + 1)

pub heap_cream_init : Mem → (mm : ℕ) → Mem
heap_cream_init m mm = cream_init_loop max_4kb_heap m mm 0

-- How the loop over the pages ends: a page served the request, or the loop stopped at slot `i`.
pub data PageSearch : Type 0 where
  served : ℕ → Mem → PageSearch
  stopped : ℕ → PageSearch

-- `for(; i < MAX_4KB_HEAP && mothermary[i] != 0; i++)`, with MAX_4KB_HEAP - i rounds left.
pub search_pages : (left : ℕ) → Mem → (mm size i : ℕ) → PageSearch
search_pages zero m mm size i = stopped i
search_pages (suc left) m mm size i =
    let rest = search_pages left m mm size (i + 1) in
    let (rtn_val, m') = malloc_32 m (slot m mm i) size in
    if slot m mm i == 0 then stopped i else elim rtn_val [ some p ↦ served p m' | none ↦ rest ]

-- What follows the call of `kzalloc` for slot `i`.
pub page_from : (mm size i : ℕ) → Option ℕ × Mem → Option ℕ × Mem
page_from mm size i (none, m) = (none, store32 m (mm + 4 * i) 0)
page_from mm size i (some page, m) =
    malloc_32 (table_guard_set (store32 m (mm + 4 * i) page) page) page size

-- A new page for slot `i`. Only the first byte of the page is zeroed, since `kzalloc` is asked for one.
pub new_page : Heap → Mem → (mm size i : ℕ) → Option (Option ℕ × Mem)
new_page h m mm size i = elim (kzalloc h m 1) [
  | none ↦ none
  | some r ↦ some (page_from mm size i r)
]

-- What follows the loop over the pages.
pub after_search : Heap → Mem → (mm size : ℕ) → PageSearch → Option (Option ℕ × Mem)
after_search h m mm size (served p m') = some (some p, m')
after_search h m mm size (stopped i) =
    if i == max_4kb_heap then some (none, m) else new_page h m mm size i

unfoldable pub heap_cream_malloc : Heap → Mem → (mm size : ℕ) → Option (Option ℕ × Mem)
heap_cream_malloc h m mm size =
    if ltb total_bytes_avail size
    then some (none, m)
    else after_search h m mm size (search_pages max_4kb_heap m mm size 0)

-- `heap_cream_kill`: the page goes back to the kernel heap, and its slot becomes 0.
pub heap_cream_kill : Heap → Mem → (mm index : ℕ) → Option Mem
heap_cream_kill h m mm i = elim (kfree h m (slot m mm i)) [
  | none ↦ none
  | some m' ↦ some (store32 m' (mm + 4 * i) 0)
]

-- `for(j = 0; j < 124; j++) if(table[j] != 0) break;` ran to its end.
pub page_is_empty : (left : ℕ) → Mem → (addr : ℕ) → Bool
page_is_empty zero m addr = true
page_is_empty (suc left) m addr = (m addr == 0) && page_is_empty left m (addr + 1)

pub heap_cream_single_chk_kill : Heap → Mem → (mm index : ℕ) → Option Mem
heap_cream_single_chk_kill h m mm i =
    if page_is_empty 124 m (slot m mm i) then heap_cream_kill h m mm i else some m

-- The result of a free that was reported to the caller as true.
pub freed : Option Mem → Option (Bool × Mem)
freed none = none
freed (some m) = some (true, m)

pub free_loop : (left : ℕ) → Heap → Mem → (mm ptr i : ℕ) → Option (Bool × Mem)
free_loop zero h m mm ptr i = some (false, m)
free_loop (suc left) h m mm ptr i =
    let base = slot m mm i in
    let skip = free_loop left h m mm ptr (i + 1) in
    let r = heap32_free m base ptr in
    let refused = free_loop left h r.1 mm ptr (i + 1) in
    if base == 0
    then some (false, m)
    else if leb base ptr && ltb (ptr - base) 4096
    then if r.0 then freed (heap_cream_single_chk_kill h r.1 mm i) else refused
    else skip

pub heap_cream_free : Heap → Mem → (mm ptr : ℕ) → Option (Bool × Mem)
heap_cream_free h m mm ptr =
    if ptr == 0 then some (false, m) else free_loop max_4kb_heap h m mm ptr 0

pub destroy_loop : (left : ℕ) → Heap → Mem → (mm i : ℕ) → Option Mem
destroy_loop zero h m mm i = some m
destroy_loop (suc left) h m mm i =
    let rest = λ (m' : Mem). destroy_loop left h m' mm (i + 1) in
    if slot m mm i == 0
    then some m
    else elim (heap_cream_kill h m mm i) [ none ↦ none | some m' ↦ rest m' ]

pub heap_cream_destroy : Heap → Mem → (mm : ℕ) → Option Mem
heap_cream_destroy h m mm = destroy_loop max_4kb_heap h m mm 0
