-- ===== src/Gen32Heap.antt =====
-- src/kernel/gen32_heap/heap.c: the heap that src/kernel/heap replaced, a list of blocks, each behind its header. A header
-- is known by its address; headers stand at multiples of 16 and do not overlap.
mod Tests
pub mod Fresh
pub mod Search
use gensis32os.Prelude.{
  ltb, ◌==◌, if◌then◌else◌, u32, sub32, ℕ, zero, suc, ◌+◌, bit_and, Bool, true, false, ◌&&◌, Option,
  none, some,
}
use gensis32os.Memory.{put_block}

abbrev pub heap_start : ℕ
heap_start = 0x1000000

abbrev pub heap_size : ℕ
heap_size = 0x2000000

abbrev pub heap_header : ℕ
heap_header = 16

abbrev pub heap_min_limit : ℕ
heap_min_limit = 16

-- `struct heap_table_entr`
pub record HeapTableEntr : Type 0 where
  pub size : ℕ
  pub addr_n : ℕ
  pub free : Bool
  pub flags : ℕ

abbrev pub Headers : Type 0
Headers = ℕ → HeapTableEntr

set_size : Headers → (p size : ℕ) → Headers
unfolding put_block
set_size h p x = put_block h p (record (h p) { size = x })

set_addr_n : Headers → (p addr : ℕ) → Headers
unfolding put_block
set_addr_n h p x = put_block h p (record (h p) { addr_n = x })

set_free : Headers → (p : ℕ) → (is_free : Bool) → Headers
unfolding put_block
set_free h p x = put_block h p (record (h p) { free = x })

unfoldable pub heap_init : Headers → Headers
unfolding set_size set_addr_n set_free
heap_init h =
    set_size (set_free (set_addr_n h heap_start 0) heap_start true) heap_start
      (sub32 heap_size 0x10)

-- `next` is what the variable holds that the code reads before it sets it.
unfoldable pub default_case : (next : ℕ) → Headers → (cur size : ℕ) → ℕ × Headers
unfolding set_size set_addr_n set_free
default_case next h cur size = elim (ltb heap_size (u32 ((h cur).size + size + heap_header))) [
  | true ↦ (0, h)
  | false ↦
      let h1 = set_addr_n (set_addr_n h cur (u32 (cur + heap_header + size))) cur next in
      let h2 = set_size h1 next (sub32 (h1 cur).size (u32 (heap_header + size))) in
      let h3 = set_free (set_free (set_size h2 cur size) cur false) next true in
      (u32 (cur + heap_header), set_addr_n h3 next 0)
]

unfoldable pub favourable_worst : Headers → (cur size : ℕ) → ℕ × Headers
unfolding set_free
favourable_worst h cur size = (u32 (cur + heap_header), set_free h cur false)

unfoldable pub fair : Headers → (cur size : ℕ) → ℕ × Headers
unfolding set_size set_addr_n set_free
fair h cur size =
    let next = u32 (cur + size + heap_header) in
    let h1 = set_addr_n (set_addr_n h next (h cur).addr_n) cur next in
    let h2 = set_size h1 next (sub32 (h1 cur).size (u32 (heap_header + size))) in
    let h3 = set_size h2 cur size in
    (u32 (cur + heap_header), set_free (set_free h3 next true) cur false)

-- What a round of the loop makes of `cand` at a free block of another size.
unfoldable pub next_cand : Headers → (cur cand size : ℕ) → ℕ
next_cand h cur cand size =
    let limit = u32 (size + heap_header + heap_min_limit) in
    elim (ltb limit (h cur).size) [
      | true ↦ elim (cand == 0) [
        | true ↦ cur
        | false ↦ elim (ltb (h cand).size (h cur).size) [ true ↦ cur | false ↦ cand ]
      ]
      | false ↦ elim (((h cur).size == limit) && (cand == 0)) [ true ↦ cur | false ↦ cand ]
    ]

-- How the loop of `malloc` ends: at a free block of the size, or behind the whole list.
pub data LoopEnd : Type 0 where
  fit : (cur : ℕ) → LoopEnd
  no_fit : (cand cur : ℕ) → LoopEnd

unfoldable pub search_loop : (fuel : ℕ) → Headers → (cur cand size : ℕ) → Option LoopEnd
unfolding next_cand
search_loop zero h cur cand size = none
search_loop (suc fuel) h cur cand size = elim ((h cur).addr_n == 0) [
  | true ↦ some (no_fit cand cur)
  | false ↦ elim ((h cur).free) [
    | false ↦ search_loop fuel h (h cur).addr_n cand size
    | true ↦ elim ((h cur).size == size) [
      | true ↦ some (fit cur)
      | false ↦ search_loop fuel h (h cur).addr_n (next_cand h cur cand size) size
    ]
  ]
]

-- `(size+0xf) & ~(0xf)`
abbrev pub round_up : (size : ℕ) → ℕ
round_up size = bit_and (u32 (size + 0xf)) 0xfffffff0

unfoldable pub malloc : (fuel next : ℕ) → Headers → (size : ℕ) → Option (ℕ × Headers)
unfolding search_loop default_case favourable_worst fair
malloc fuel unset h wanted =
    let size = round_up wanted in
    elim (wanted == 0) [
      | true ↦ some (0, h)
      | false ↦ elim (search_loop fuel h heap_start 0 size) [
        | none ↦ none
        | some (fit cur) ↦ some (favourable_worst h cur size)
        | some (no_fit cand cur) ↦ some (
            if cand == 0
            then default_case unset h cur size
            else if ltb (u32 (size + heap_header + heap_min_limit)) (h cand).size
            then fair h cand size
            else favourable_worst h cand size)
      ]
    ]

-- `void disk_coalescing();` in its body declares a function and calls none.
unfoldable pub free : Headers → (ptr : ℕ) → Headers
unfolding set_free
free h ptr = set_free h (sub32 ptr heap_header) true
