-- ===== src/Heap32/Alloc.antt =====
-- What `malloc_32` gives from a page.
use gensis32os.Heap32.Search.{index_loop-FirstFit}
use gensis32os.Prelude.{
  ltb, leb, if◌then◌else◌, eq→==, ne→not_==, lt_or_le, eq_or_ne, sub32, ℕ, zero, suc, ◌+◌, ◌-◌, ◌*◌,
  ◌^◌, ◌≤◌, ◌<◌, ◌≡◌, refl, subst, ◌≢◌, ◌⊎◌, inl, inr, ◌&&◌, Option, none, some, arith,
}
use gensis32os.Memory.{Mem, store, store_ne}
use gensis32os.Blocks.{
  FreeRun, Marked, block_mid, block_start, block_end, block_single, FirstFit, found, full,
}
use gensis32os.Heap32.{
  set_table_val, set_mid, set_last, no_blocks_of, index_loop, get_index, malloc_32, seek_free,
}

set_mid-at :
    (left : ℕ) (m : Mem) (p : ℕ)
    → FreeRun m p left
    → ((set_mid left m p).0 ≡ 0)
      × ((a : ℕ)
          → (set_mid left m p).1 a ≡ (if leb p a && ltb a (p + left) then block_mid else m a))
unfolding set_mid store
set_mid-at zero m p run = (refl, λ a. ground arith)
set_mid-at (suc left) m p run =
    let rest =
      set_mid-at left (store m p block_mid) (p + 1)
        (λ j x y. ground (arith, run j (omega arith) (omega arith))) in
    (
      ground (arith, run p (omega arith) (omega arith), rest.0),
      λ a. ground (arith, run p (omega arith) (omega arith), rest.1 a),
    )

set_last-eq :
    (addr : ℕ) (r : ℕ × Mem)
    → r.0 ≡ 0
    → r.1 addr ≡ 0
    → set_last addr r ≡ (0, store r.1 addr block_end)
unfolding set_last
set_last-eq addr (zero, m) e free = rw (eq→== (m addr) 0 free)
set_last-eq addr (suc k, m) e free = absurd (omega arith)

set_long-Marked :
    (m : Mem) (addr n : ℕ)
    → 2 ≤ n
    → FreeRun m addr n
    → let r = set_mid (n - 2) (store m addr block_start) (addr + 1) in
      (r.0 ≡ 0) × (r.1 (addr + n - 1) ≡ 0) × Marked m (store r.1 (addr + n - 1) block_end) addr n
unfolding store
set_long-Marked m addr n two run =
    let mid =
      set_mid-at (n - 2) (store m addr block_start) (addr + 1) (λ j p q.
        ground (arith, store_ne m addr block_start j, run j (omega arith) (omega arith))) in
    (
      mid.0,
      ground (arith, mid.1 (addr + n - 1), run (addr + n - 1) (omega arith) (omega arith)),
      (λ a. ground (arith, mid.1 a)),
    )

set_table_val-eq_single :
    (m : Mem) (page index : ℕ)
    → m (page + index) ≡ 0
    → set_table_val m page index 1 ≡ (0, store m (page + index) block_single)
unfolding set_table_val
set_table_val-eq_single m page index free = rw (eq→== (m (page + index)) 0 free)

set_table_val-eq_long :
    (m : Mem) (page index n : ℕ)
    → n ≢ 1
    → m (page + index) ≡ 0
    → set_table_val m page index n
      ≡ set_last
          (page + index + n - 1)
          (set_mid (n - 2) (store m (page + index) block_start) (page + index + 1))
unfolding set_table_val
set_table_val-eq_long m page index n ne free =
    rw (ne→not_== n 1 ne, eq→== (m (page + index)) 0 free)

-- On a free run `set_table_val` reports success and marks exactly that block.
pub set_table_val-Marked :
    (m : Mem) (page index n : ℕ)
    → 1 ≤ n
    → FreeRun m (page + index) n
    → ((set_table_val m page index n).0 ≡ 0)
      × Marked m (set_table_val m page index n).1 (page + index) n
set_table_val-Marked m page index n one run =
    let addr : ℕ = page + index in
    let head = run addr (omega arith) (omega arith) in
    elim (eq_or_ne n 1) [
      | inl e ↦
          rw (e, set_table_val-eq_single m page index head)
            (refl, λ a. unfold store in ground arith)
      | inr ne ↦
          let long = set_long-Marked m addr n (omega arith) run in
          rw
            (
              set_table_val-eq_long m page index n ne head,
              set_last-eq (addr + n - 1) (set_mid (n - 2) (store m addr block_start) (addr + 1))
                  long.0 long.1,
            )
            (refl, long.2)
    ]

-- The two ways in which an allocation from a page can end, as for the kernel heap: units of 32 bytes.
pub data Malloc32 (m : Mem) (page size : ℕ) : Option ℕ × Mem → Type 0 where
  allocated :
      {m' : Mem} (k n : ℕ)
      → 1 ≤ n
      → size ≤ n * 32
      → n * 32 < size + 32
      → page ≤ k
      → k + n ≤ page + 124
      → FreeRun m k n
      → ((i : ℕ) → page ≤ i → i < k → ¬ FreeRun m i n)
      → Marked m m' k n
      → Malloc32 m page size (some (page + (128 + (k - page) * 32)), m')
  refused :
      (size ≡ 0)
        ⊎ (2 ^ 32 ≤ size + 31)
        ⊎ ((i : ℕ)
            → page ≤ i
            → i + no_blocks_of size ≤ page + 124
            → ¬ FreeRun m i (no_blocks_of size))
      → Malloc32 m page size (none, m)

no_blocks_of-fits :
    (size : ℕ)
    → size + 31 < 2 ^ 32
    → (size ≤ no_blocks_of size * 32)
      × (no_blocks_of size * 32 < size + 32)
      × (no_blocks_of size < 2 ^ 32)
unfolding no_blocks_of
no_blocks_of-fits size h = omega arith

no_blocks_of-wrapped :
    (size : ℕ) → size < 2 ^ 32 → (size ≡ 0) ⊎ (2 ^ 32 ≤ size + 31) → no_blocks_of size ≡ 0
unfolding no_blocks_of
no_blocks_of-wrapped size h c = omega arith

-- From a target beyond the bytes left, a scan does not count down to 0.
seek_free-target :
    (left : ℕ) (m : Mem) (target i : ℕ)
    → left < target
    → target < 2 ^ 32
    → ((seek_free left m target i).target ≢ 0) × ((seek_free left m target i).left ≤ left)
unfolding seek_free
seek_free-target zero m target i h k = ground arith
seek_free-target (suc left) m target i h k =
    ground (arith, seek_free-target left m (sub32 target 1) (i + 1) (omega arith) (omega arith))

index_loop-none :
    (f left : ℕ) (m : Mem) (i : ℕ) → left < 2 ^ 32 - 1 → index_loop f left m 0 i ≡ none
unfolding index_loop
index_loop-none zero left m i h = refl
index_loop-none (suc f) zero m i h = refl
index_loop-none (suc f) (suc left) m i h =
    let s = seek_free left m (sub32 0 1) (i + 1) in
    let p = seek_free-target left m (sub32 0 1) (i + 1) (omega arith) (omega arith) in
    ground (
      arith,
      p,
      index_loop-none f left m (i + 1) (omega arith),
      index_loop-none f (s.left - 1) m (s.pos + 1) (omega (arith, p.1)),
    )

get_index-eq :
    (m : Mem) (page n : ℕ) (r : Option ℕ)
    → index_loop 125 124 m n page ≡ r
    → get_index m page n ≡ elim r [ none ↦ none | some i ↦ some (i - page) ]
unfolding get_index
get_index-eq m page n r e = rw (get_index, e)

fit-Malloc32 :
    (m : Mem) (page size : ℕ) (r : Option ℕ)
    → 1 ≤ size
    → size + 31 < 2 ^ 32
    → index_loop 125 124 m (no_blocks_of size) page ≡ r
    → FirstFit m page (page + 124) (no_blocks_of size) r
    → Malloc32 m page size (malloc_32 m page size)
unfolding malloc_32
fit-Malloc32 m page size r pos fits e (found {r = k} a b run first) =
    let n : ℕ = no_blocks_of size in
    let counts = no_blocks_of-fits size fits in
    let back : page + (k - page) ≡ k = omega arith in
    let marked = set_table_val-Marked m page (k - page) n (omega (arith, counts.0)) (rw back run) in
    rw (malloc_32, get_index-eq m page n (some k) e)
      (allocated k n (omega (arith, counts.0)) counts.0 counts.1 a b run first
        (subst (λ x. Marked m (set_table_val m page (k - page) n).1 x n) back marked.1))
fit-Malloc32 m page size r pos fits e (full never) =
    rw (malloc_32, get_index-eq m page (no_blocks_of size) none e) (refused (inr (inr never)))

malloc_32-none :
    (m : Mem) (page size : ℕ) → no_blocks_of size ≡ 0 → malloc_32 m page size ≡ (none, m)
unfolding malloc_32
malloc_32-none m page size e =
    rw (malloc_32, e, get_index-eq m page 0 none (index_loop-none 125 124 m page (omega arith)))

-- Every call of `malloc_32` ends in one of the two ways: the first run of exactly as many free units as
-- the size needs is marked, nothing else changes, and the result is the address of its first unit; or
-- NULL, with the memory as it was, for size 0, for a size whose rounding wraps, and when the page has
-- no such run. The marking never fails after the search.
pub malloc_32-Malloc32 :
    (m : Mem) (page size : ℕ) → size < 2 ^ 32 → Malloc32 m page size (malloc_32 m page size)
malloc_32-Malloc32 m page size h = elim (lt_or_le 0 size) [
  | inr z ↦
      let zero_size : size ≡ 0 = omega arith in
      rw (malloc_32-none m page size (no_blocks_of-wrapped size h (inl zero_size)))
        (refused (inl zero_size))
  | inl pos ↦ elim (lt_or_le (size + 31) (2 ^ 32)) [
    | inr wraps ↦
        rw (malloc_32-none m page size (no_blocks_of-wrapped size h (inr wraps)))
          (refused (inr (inl wraps)))
    | inl fits ↦
        let counts = no_blocks_of-fits size fits in
        fit-Malloc32 m page size _ pos fits refl
          (index_loop-FirstFit m page (no_blocks_of size) (omega (arith, counts.0)) counts.2)
  ]
]
