-- ===== src/Kheap/Pages.antt =====
-- The kernel heap after `kheap_init`: what its calls give, and that they keep it.
use gensis32os.Essentials.Fill.{memset-at}
use gensis32os.Essentials.{memset}
use gensis32os.Prelude.{
  ℕ, ◌+◌, ◌-◌, ◌*◌, ◌/◌, ◌%◌, ◌^◌, ◌≤◌, ◌<◌, ◌≡◌, refl, sym, ap, ◌∙◌, Option, none, some, arith,
}
use gensis32os.Memory.{Mem}
use gensis32os.Blocks.{FreeRun}
use gensis32os.Heap.{Heap, heap_create, table_malloc, heap_malloc}
use gensis32os.Heap.Alloc.{Malloc, allocated, refused, table_malloc-Malloc}
use gensis32os.Heap.Invariant.{
  WellFormed, WellFormed-frame, table_malloc-WellFormed, heap_create-WellFormed,
}
use gensis32os.Kheap.{
  kheap_start, kheap_size_bytes, kheap_table, kernel_heap_table, kheap_init, kzalloc, zero_filled,
}

-- `kernel_heap` as `kheap_init` leaves it.
abbrev pub kernel_heap : Heap
kernel_heap = record {
  table = some kernel_heap_table;
  start_addr = kheap_start;
  end_addr = kheap_start + kheap_size_bytes;
}

heap_create-ok :
    (m : Mem) (h : Heap)
    → (heap_create m h kheap_start (kheap_start + kheap_size_bytes) kernel_heap_table).0 ≡ 0
unfolding heap_create
heap_create-ok m h = refl

-- `kheap_init` never fails: from any memory it sets up the kernel heap with a free, well-formed table.
pub kheap_init-eq :
    (m : Mem) (h : Heap)
    → let (h', m') = kheap_init m h in
      (h' ≡ kernel_heap)
      × WellFormed m' kernel_heap_table
      × FreeRun m' kheap_table (kheap_size_bytes / 4096)
unfolding kheap_init
kheap_init-eq m h =
    let r =
      heap_create-WellFormed m h kheap_start (kheap_start + kheap_size_bytes) kernel_heap_table
        (heap_create-ok m h) in
    (r.2, r.0, r.1)

-- The pointers that the kernel heap hands out.
pub record IsRegion (p size : ℕ) : Type 0 where
  pub aligned : p % 4096 ≡ 0
  pub low : kheap_start ≤ p
  pub high : p + size ≤ kheap_start + kheap_size_bytes

Malloc-IsRegion :
    (m : Mem) (size p : ℕ) {r : Option ℕ × Mem}
    → Malloc m kernel_heap_table kheap_start size r
    → r.0 ≡ some p
    → IsRegion p size
Malloc-IsRegion m size p (allocated {m'} k n one fits tight low high run first marks) e =
    let at : kheap_start + (k - kheap_table) * 4096 ≡ p = cc in omega arith
Malloc-IsRegion m size p (refused why) e = cc

zero_filled-eq :
    (size p : ℕ) (m' : Mem) (r : Option ℕ × Mem)
    → zero_filled size r ≡ (some p, m')
    → (r.0 ≡ some p) × (m' ≡ memset r.1 p 0 size)
unfolding zero_filled
zero_filled-eq size p m' (none, m) e = cc (ap (λ x. x.0) e)
zero_filled-eq size p m' (some q, m) e =
    let first : some q ≡ some p = ap (λ x. x.0) e in
    let same : q ≡ p = cc first in (first, sym (ap (λ x. x.1) e) ∙ ap (λ k. memset m k 0 size) same)

kzalloc-eq :
    (m : Mem) (size p : ℕ) (m' : Mem)
    → kzalloc kernel_heap m size ≡ some (some p, m')
    → let r = table_malloc kernel_heap_table kheap_start m size in
      (r.0 ≡ some p) × (m' ≡ memset r.1 p 0 size)
unfolding kzalloc heap_malloc
kzalloc-eq m size p m' e =
    zero_filled-eq size p m' (table_malloc kernel_heap_table kheap_start m size) (cc)

-- What `kzalloc` returns, unless it is NULL, is a page-aligned region inside the kernel heap whose `size` bytes are
-- zero; it keeps the table well formed.
pub kzalloc-IsRegion :
    (m : Mem) (size p : ℕ) (m' : Mem)
    → size < 2 ^ 32
    → WellFormed m kernel_heap_table
    → kzalloc kernel_heap m size ≡ some (some p, m')
    → IsRegion p size
      × ((a : ℕ) → p ≤ a → a < p + size → m' a ≡ 0)
      × WellFormed m' kernel_heap_table
kzalloc-IsRegion m size p m' h wf e =
    let r = table_malloc kernel_heap_table kheap_start m size in
    let q = kzalloc-eq m size p m' e in
    let region =
      Malloc-IsRegion m size p (table_malloc-Malloc m kernel_heap_table kheap_start size h) q.0 in
    rw q.1 (
      region,
      (λ a x y. ground (arith, memset-at r.1 p 0 size a)),
      WellFormed-frame (λ j x y. ground (arith, region.low, memset-at r.1 p 0 size j))
          (table_malloc-WellFormed m kernel_heap_table kheap_start size h wf),
    )
