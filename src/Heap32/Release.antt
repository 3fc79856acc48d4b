-- ===== src/Heap32/Release.antt =====
-- What `heap32_free` gives back, and what it refuses.
use gensis32os.Blocks.Layout.{Marked-IsBlock, Cleared-Marked}
use gensis32os.Heap32.Alloc.{malloc_32-Malloc32, Malloc32, allocated, refused}
use gensis32os.Prelude.{
  leb, if◌then◌else◌, eq_or_ne, pair_eq, sub32, ℕ, zero, suc, ◌+◌, ◌-◌, ◌*◌, ◌/◌, ◌%◌, ◌^◌, ◌≤◌,
  ◌<◌, ◌≡◌, refl, subst, ◌≢◌, ◌⊎◌, inl, inr, true, false, ◌&&◌, Option, some, arith,
}
use gensis32os.Memory.{Mem, store}
use gensis32os.Blocks.{IsBlock, Cleared, block_end, block_mid, block_start, block_single}
use gensis32os.Heap32.{heap32_free, clear_body, malloc_32, free_entry}

-- From inside a block, MID bytes up to an END at `last` are cleared, the END included.
clear_body-at :
    (left : ℕ) (m : Mem) (p last : ℕ)
    → p ≤ last
    → last ≤ p + left
    → ((j : ℕ) → p ≤ j → j < last → m j ≡ block_mid)
    → m last ≡ block_end
    → ((clear_body left m p).0 ≡ true)
      × ((a : ℕ) → (clear_body left m p).1 a ≡ (if leb p a && leb a last then 0 else m a))
unfolding clear_body store
clear_body-at zero m p last h fits body end = (refl, λ a. ground arith)
clear_body-at (suc left) m p last h fits body end = elim (eq_or_ne p last) [
  | inl e ↦ (ground (arith, e), λ a. ground (arith, e))
  | inr ne ↦
      let here = body p (omega arith) (omega arith) in
      let rest =
        clear_body-at left (store m p 0) (p + 1) last (omega arith) (omega arith)
          (λ j q r. unfold store in ground (arith, body j (omega arith) r))
          (unfold store in ground arith) in
      (ground (arith, here, rest.0), λ a. ground (arith, here, rest.1 a))
]

-- The unit at which the table's block of `n` units at `page + i` begins.
abbrev pub unit_address : (page i : ℕ) → ℕ
unit_address page i = page + (128 + i * 32)

heap32_free-eq :
    (m : Mem) (page i : ℕ)
    → i < 124
    → heap32_free m page (unit_address page i) ≡ free_entry (127 - i) m (page + i)
unfolding heap32_free
heap32_free-eq m page i h = ground arith

free_entry-single :
    (left : ℕ) (m : Mem) (addr : ℕ)
    → m addr ≡ block_single
    → free_entry left m addr ≡ (true, store m addr 0)
unfolding free_entry
free_entry-single left m addr e = ground arith

free_entry-start :
    (left : ℕ) (m : Mem) (addr : ℕ)
    → m addr ≡ block_start
    → free_entry left m addr ≡ clear_body left (store m addr 0) (addr + 1)
unfolding free_entry
free_entry-start left m addr e = ground arith

free_entry-block :
    (left : ℕ) (m : Mem) (k n : ℕ)
    → IsBlock m k n
    → n ≤ left + 1
    → ((free_entry left m k).0 ≡ true) × Cleared m (free_entry left m k).1 k n
free_entry-block left m k n b fits = elim (eq_or_ne n 1) [
  | inl e ↦
      let head : m k ≡ block_single =
        ground (arith, e, b.codes k (omega arith) (omega (arith, b.size))) in
      rw (e, free_entry-single left m k head) (refl, λ a. unfold store in ground arith)
  | inr ne ↦
      let head : m k ≡ block_start =
        ground (arith, b.codes k (omega arith) (omega (arith, b.size))) in
      let rest =
        clear_body-at left (store m k 0) (k + 1) (k + n - 1) (omega (arith, b.size))
          (omega (arith, b.size))
          (λ j p q. unfold store in ground (arith, b.codes j (omega arith) (omega arith)))
          (unfold store in
            ground (
              arith,
              b.size,
              b.codes (k + n - 1) (omega (arith, b.size)) (omega (arith, b.size)),
            )) in
      rw (free_entry-start left m k head)
        (rest.0, λ a. unfold store in ground (arith, b.size, rest.1 a))
]

-- Freeing a block of the page by the address of its first unit succeeds and clears exactly its bytes.
pub heap32_free-block :
    (m : Mem) (page i n : ℕ)
    → IsBlock m (page + i) n
    → i + n ≤ 124
    → ((heap32_free m page (unit_address page i)).0 ≡ true)
      × Cleared m (heap32_free m page (unit_address page i)).1 (page + i) n
heap32_free-block m page i n b fits =
    rw (heap32_free-eq m page i (omega (arith, b.size)))
      (free_entry-block (127 - i) m (page + i) n b (omega arith))

Malloc32-free :
    (m : Mem) (page size p : ℕ) {r : Option ℕ × Mem}
    → Malloc32 m page size r
    → r.0 ≡ some p
    → heap32_free r.1 page p ≡ (true, m)
Malloc32-free m page size p (allocated {m'} k n one fits tight low high run first marks) e =
    let at : unit_address page (k - page) ≡ p = cc in
    let back : page + (k - page) ≡ k = omega arith in
    let b : IsBlock m' (page + (k - page)) n = rw back (Marked-IsBlock m m' k n one marks) in
    let freed = heap32_free-block m' page (k - page) n b (omega arith) in
    let clears : Cleared m' (heap32_free m' page (unit_address page (k - page))).1 k n =
      subst (λ x. Cleared m' (heap32_free m' page (unit_address page (k - page))).1 x n) back
        freed.1 in
    subst (λ x. heap32_free m' page x ≡ (true, m)) at
      (pair_eq (heap32_free m' page (unit_address page (k - page))) freed.0
        (Cleared-Marked m m' _ k n run marks clears))
Malloc32-free m page size p (refused why) e = cc

-- Round trip: freeing what `malloc_32` returned succeeds and gives back the memory as it was before.
pub heap32_free-malloc_32 :
    (m : Mem) (page size p : ℕ)
    → size < 2 ^ 32
    → (malloc_32 m page size).0 ≡ some p
    → heap32_free (malloc_32 m page size).1 page p ≡ (true, m)
heap32_free-malloc_32 m page size p h e =
    Malloc32-free m page size p (malloc_32-Malloc32 m page size h) e

-- What `heap32_free` accepts: it returns true only for a pointer, below 2 GB past the page, whose offset
-- is 128 or more and a multiple of 32, and whose table byte starts a block.
pub heap32_free-true :
    (m : Mem) (page block : ℕ)
    → (heap32_free m page block).0 ≡ true
    → let diff = sub32 block page in
      (128 ≤ diff)
      × (diff < 2 ^ 31)
      × (diff % 32 ≡ 0)
      × ((m (page + (diff - 128) / 32) ≡ block_single)
          ⊎ (m (page + (diff - 128) / 32) ≡ block_start))
unfolding heap32_free free_entry
heap32_free-true m page block e = ground arith

-- A unit address that is not the start of a block (free, inside a block, or the guard) is refused and
-- nothing is written: a double free is caught.
pub heap32_free-refused :
    (m : Mem) (page i : ℕ)
    → i < 124
    → m (page + i) ≢ block_single
    → m (page + i) ≢ block_start
    → heap32_free m page (unit_address page i) ≡ (false, m)
heap32_free-refused m page i h single start =
    rw (heap32_free-eq m page i h) (unfold free_entry in ground arith)
