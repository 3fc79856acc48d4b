-- ===== src/HeapCream/Free.antt =====
-- What `heap_cream_free` gives back, and where it cannot find a block.
use gensis32os.Prelude.Branches.{by_option}
use gensis32os.Kheap.{kfree}
use gensis32os.Heap32.{heap32_free}
use gensis32os.Heap32.Release.{unit_address, heap32_free-block}
use gensis32os.Prelude.{
  ltb, leb, eq→==, ne→not_==, Bool-cases, lt_or_le, eq_or_ne, ℕ, zero, suc, ◌+◌, ◌-◌, ◌*◌, ◌≤◌, ◌<◌,
  ◌≡◌, refl, sym, ◌∙◌, subst, ◌≢◌, ◌⊎◌, inl, inr, Bool, true, false, ◌&&◌, Option, none, some,
  arith,
}
use mathlib.Core.Bool.{false≢true}
use gensis32os.Memory.{Mem, store32}
use gensis32os.Blocks.{FreeRun, IsBlock, Cleared}
use gensis32os.Heap.{Heap}
use gensis32os.HeapCream.{
  slot, page_is_empty, heap_cream_kill, heap_cream_single_chk_kill, free_loop, freed,
  heap_cream_free,
}

-- `ptr` lies in the page of slot `k`.
abbrev pub Inside : Mem → (mm k ptr : ℕ) → Type 0
Inside m mm k ptr = (slot m mm k ≤ ptr) × (ptr < slot m mm k + 4096)

page_is_empty-true :
    (left : ℕ) (m : Mem) (addr : ℕ) → page_is_empty left m addr ≡ true → FreeRun m addr left
unfolding page_is_empty
page_is_empty-true zero m addr e j p q = absurd (omega arith)
page_is_empty-true (suc left) m addr e j p q = elim (eq_or_ne j addr) [
  | inl same ↦ ground (arith, same)
  | inr ne ↦ page_is_empty-true left m (addr + 1) (ground arith) j (omega arith) (omega arith)
]

page_is_empty-false :
    (left : ℕ) (m : Mem) (addr : ℕ) → FreeRun m addr left → page_is_empty left m addr ≡ true
unfolding page_is_empty
page_is_empty-false zero m addr run = refl
page_is_empty-false (suc left) m addr run = ground (
  arith,
  run addr (omega arith) (omega arith),
  page_is_empty-false left m (addr + 1) (λ j p q. run j (omega arith) (omega arith)),
)

-- A page is given back to the kernel heap exactly when all 124 bytes of its table are free; otherwise
-- nothing changes.
pub heap_cream_single_chk_kill-cases :
    (h : Heap) (m : Mem) (mm i : ℕ)
    → (FreeRun m (slot m mm i) 124
        × (heap_cream_single_chk_kill h m mm i ≡ heap_cream_kill h m mm i))
      ⊎ ((¬ FreeRun m (slot m mm i) 124) × (heap_cream_single_chk_kill h m mm i ≡ some m))
unfolding heap_cream_single_chk_kill
heap_cream_single_chk_kill-cases h m mm i = elim (Bool-cases (page_is_empty 124 m (slot m mm i))) [
  | inl e ↦ inl (page_is_empty-true 124 m (slot m mm i) e, rw (heap_cream_single_chk_kill, e))
  | inr e ↦ inr (
    (λ run. absurd (false≢true (sym e ∙ page_is_empty-false 124 m (slot m mm i) run))),
    rw (heap_cream_single_chk_kill, e),
  )
]

inside_test :
    (base ptr : ℕ)
    → ¬ ((base ≤ ptr) × (ptr < base + 4096))
    → (leb base ptr && ltb (ptr - base) 4096) ≡ false
inside_test base ptr out = elim (lt_or_le ptr base) [
  | inl below ↦ ground arith
  | inr above ↦ elim (lt_or_le ptr (base + 4096)) [
    | inl lt ↦ absurd (out (above, lt))
    | inr ge ↦ ground arith
  ]
]

-- The loop passes over a page that does not hold the pointer.
free_loop-pass :
    (left : ℕ) (h : Heap) (m : Mem) (mm ptr i : ℕ)
    → slot m mm i ≢ 0
    → ¬ Inside m mm i ptr
    → free_loop (suc left) h m mm ptr i ≡ free_loop left h m mm ptr (i + 1)
unfolding free_loop
free_loop-pass left h m mm ptr i some_page out =
    rw (ne→not_== (slot m mm i) 0 some_page, inside_test (slot m mm i) ptr out)

free_loop-skip :
    (t n left : ℕ) (h : Heap) (m : Mem) (mm ptr i j : ℕ)
    → t ≡ n + left
    → j ≡ i + n
    → ((k : ℕ) → i ≤ k → k < j → (slot m mm k ≢ 0) × (¬ Inside m mm k ptr))
    → free_loop t h m mm ptr i ≡ free_loop left h m mm ptr j
free_loop-skip t zero left h m mm ptr i j e f pass =
    let same : t ≡ left = omega arith in let at : j ≡ i = omega arith in rw (same, at)
free_loop-skip zero (suc n) left h m mm ptr i j e f pass = absurd (omega arith)
free_loop-skip (suc t) (suc n) left h m mm ptr i j e f pass =
    let here = pass i (omega arith) (omega arith) in
    free_loop-pass t h m mm ptr i here.0 here.1
    ∙ free_loop-skip t n left h m mm ptr (i + 1) j (omega arith) (omega arith)
        (λ k p q. pass k (omega arith) q)

-- A pointer that no page before the first empty slot holds is refused, and nothing is written: so a
-- live block in the page of a later slot cannot be freed while an earlier slot is empty.
pub heap_cream_free-hole :
    (h : Heap) (m : Mem) (mm ptr j : ℕ)
    → j < 124
    → slot m mm j ≡ 0
    → ((k : ℕ) → k < j → (slot m mm k ≢ 0) × (¬ Inside m mm k ptr))
    → heap_cream_free h m mm ptr ≡ some (false, m)
unfolding heap_cream_free
heap_cream_free-hole h m mm ptr j lt empty pass = elim (eq_or_ne ptr 0) [
  | inl null ↦ rw (heap_cream_free, eq→== ptr 0 null)
  | inr some_ptr ↦
      rw
        (
          heap_cream_free,
          ne→not_== ptr 0 some_ptr,
          free_loop-skip 124 j (suc (123 - j)) h m mm ptr 0 j (omega arith) (omega arith)
              (λ k p q. pass k q),
        )
        (unfold free_loop in rw (eq→== (slot m mm j) 0 empty))
]

free_loop-here :
    (left : ℕ) (h : Heap) (m : Mem) (mm ptr i : ℕ)
    → slot m mm i ≢ 0
    → Inside m mm i ptr
    → (heap32_free m (slot m mm i) ptr).0 ≡ true
    → free_loop (suc left) h m mm ptr i
      ≡ freed (heap_cream_single_chk_kill h (heap32_free m (slot m mm i) ptr).1 mm i)
unfolding free_loop
free_loop-here left h m mm ptr i some_page inside accepted =
    let base : ℕ = slot m mm i in
    let test : (leb base ptr && ltb (ptr - base) 4096) ≡ true =
      ground (arith, inside.0, inside.1) in
    rw (ne→not_== base 0 some_page, test, accepted)

-- What is left of a free that the page heap accepted with memory `m`: where all 124 bytes of the page's table are free
-- the page goes back to the kernel heap and its slot becomes 0, and otherwise the memory stays. The result is true.
pub data GivenBack (h : Heap) (m : Mem) (mm j : ℕ) : Option (Bool × Mem) → Type 0 where
  page_kept : ¬ FreeRun m (slot m mm j) 124 → GivenBack h m mm j (some (true, m))
  page_freed :
      {m' : Mem}
      → FreeRun m (slot m mm j) 124
      → kfree h m (slot m mm j) ≡ some m'
      → GivenBack h m mm j (some (true, store32 m' (mm + 4 * j) 0))
  page_fault :
      FreeRun m (slot m mm j) 124 → kfree h m (slot m mm j) ≡ none → GivenBack h m mm j none

freed-GivenBack :
    (h : Heap) (m : Mem) (mm j : ℕ)
    → GivenBack h m mm j (freed (heap_cream_single_chk_kill h m mm j))
unfolding freed heap_cream_kill
freed-GivenBack h m mm j =
    let P = λ (r : Option Mem). GivenBack h m mm j (freed r) in
    elim (heap_cream_single_chk_kill-cases h m mm j) [
      | inr (live, same) ↦ subst P (sym same) (page_kept live)
      | inl (empty, same) ↦ subst P (sym same) (
          by_option P (kfree h m (slot m mm j)) (λ e. page_fault empty e)
            (λ m' e. page_freed empty e))
    ]

-- A block of the page of slot `j`, freed by its address while every earlier slot holds a page that does
-- not contain it: the call succeeds, clears exactly the block's table bytes, and then gives the page
-- back to the kernel heap and sets its slot to 0 if all 124 bytes of its table are free, and only then.
pub heap_cream_free-block :
    (h : Heap) (m : Mem) (mm j u n : ℕ)
    → j < 124
    → 0 < slot m mm j
    → IsBlock m (slot m mm j + u) n
    → u + n ≤ 124
    → ((k : ℕ) → k < j → (slot m mm k ≢ 0) × (¬ Inside m mm k (unit_address (slot m mm j) u)))
    → (m1 : Mem) × Cleared m m1 (slot m mm j + u) n
      × GivenBack h m1 mm j (heap_cream_free h m mm (unit_address (slot m mm j) u))
unfolding heap_cream_free
heap_cream_free-block h m mm j u n lt page b fits pass =
    let base : ℕ = slot m mm j in
    let ptr : ℕ = unit_address base u in
    let r = heap32_free-block m base u n b fits in
    let m1 = (heap32_free m base ptr).1 in
    (
      m1,
      r.1,
      rw
          (
            heap_cream_free,
            ne→not_== ptr 0 (omega arith),
            free_loop-skip 124 j (suc (123 - j)) h m mm ptr 0 j (omega arith) (omega arith)
                (λ k p q. pass k q),
            free_loop-here (123 - j) h m mm ptr j (omega arith) (omega arith, omega (arith, b.size))
                r.0,
          )
          (freed-GivenBack h m1 mm j),
    )
