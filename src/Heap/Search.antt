-- ===== src/Heap/Search.antt =====
-- `heap_get_start_block` is a first-fit search.
use gensis32os.Blocks.Fit.{FirstFit-earlier, taken-not_run}
use gensis32os.Blocks.{FreeRun, FirstFit, found, full}
use gensis32os.Prelude.{
  lt→ltb, le→not_ltb, eq→==, ne→not_==, lt_or_le, eq_or_ne, ℕ, zero, suc, ◌+◌, ◌-◌, ◌≤◌, ◌<◌, ◌≡◌,
  refl, ◌≢◌, ◌⊎◌, inl, inr, none, arith,
}
use gensis32os.Memory.{Mem}
use gensis32os.Heap.{Scan, scan_free, start_block_loop, HeapTable, heap_get_start_block}

-- What the inner loop leaves: it moved over free bytes only, and it stopped for a reason.
record Scanned (m : Mem) (bc left count i : ℕ) (s : Scan) : Type 0 where
  total : s.pos + s.left ≡ i + left
  moved : s.count + i ≡ count + s.pos
  bound : s.count ≤ bc
  free : (j : ℕ) → i ≤ j → j < s.pos → m j ≡ 0
  stop : (s.count ≡ bc) ⊎ (s.left ≡ 0) ⊎ (m s.pos ≢ 0)

scan_free-Scanned :
    (left : ℕ) (m : Mem) (bc count i : ℕ)
    → count ≤ bc
    → Scanned m bc left count i (scan_free left m bc count i)
unfolding scan_free
scan_free-Scanned zero m bc count i h = record {
  total = refl;
  moved = omega arith;
  bound = h;
  free = λ j p q. absurd (omega arith);
  stop = inr (inl refl);
}
scan_free-Scanned (suc left) m bc count i h = elim (lt_or_le count bc) [
  | inr ge ↦ rw (le→not_ltb count bc ge) record {
    total = refl;
    moved = omega arith;
    bound = h;
    free = λ j p q. absurd (omega arith);
    stop = inl (omega arith);
  }
  | inl lt ↦ elim (eq_or_ne (m i) 0) [
    | inr taken ↦
        rw (lt→ltb count bc lt, ne→not_== (m i) 0 taken)
          record {
            total = refl;
            moved = omega arith;
            bound = h;
            free = λ j p q. absurd (omega arith);
            stop = inr (inr taken);
          }
    | inl e ↦
        let s = scan_free-Scanned left m bc (count + 1) (i + 1) (omega arith) in
        rw (lt→ltb count bc lt, eq→== (m i) 0 e)
          record {
            total = omega (arith, s.total);
            moved = omega (arith, s.moved);
            bound = s.bound;
            free = λ j p q. elim (eq_or_ne j i) [
              | inl same ↦ rw same e
              | inr ne ↦ s.free j (omega arith) q
            ];
            stop = s.stop;
          }
  ]
]

start_block_loop-zero : (f : ℕ) (m : Mem) (bc i : ℕ) → start_block_loop f zero m bc i ≡ none
unfolding start_block_loop
start_block_loop-zero zero m bc i = refl
start_block_loop-zero (suc f) m bc i = refl

-- No run begins where an unfinished scan went.
short-not_run :
    (m : Mem) (bc left i : ℕ) (s : Scan)
    → Scanned m bc left 1 (i + 1) s
    → s.count ≢ bc
    → (k : ℕ) → i ≤ k
    → k < s.pos + 1
    → (s.left ≢ 0) ⊎ (k + bc ≤ i + suc left)
    → ¬ FreeRun m k bc
short-not_run m bc left i s w short k p q r run = elim w.stop [
  | inl e ↦ short e
  | inr (inl end) ↦ elim r [
    | inl more ↦ more end
    | inr fits ↦ omega (arith, w.total, w.moved, w.bound)
  ]
  | inr (inr taken) ↦ taken (run s.pos (omega arith) (omega (arith, w.total, w.moved, w.bound)))
]

pub start_block_loop-FirstFit :
    (f left : ℕ) (m : Mem) (bc i hi : ℕ)
    → left < f
    → 1 ≤ bc
    → i + left ≡ hi
    → FirstFit m i hi bc (start_block_loop f left m bc i)
unfolding start_block_loop
start_block_loop-FirstFit zero left m bc i hi h one e = absurd (omega arith)
start_block_loop-FirstFit (suc f) zero m bc i hi h one e = full λ k p q. absurd (omega arith)
start_block_loop-FirstFit (suc f) (suc left) m bc i hi h one e = elim (eq_or_ne (m i) 0) [
  | inr taken ↦ rw (ne→not_== (m i) 0 taken) (
      FirstFit-earlier m i (i + 1) hi bc (omega arith)
        (λ k p q. taken-not_run m k bc i (omega arith) (omega arith) taken)
        (start_block_loop-FirstFit f left m bc (i + 1) hi (omega arith) one (omega arith)))
  | inl free ↦
      let s = scan_free left m bc 1 (i + 1) in
      let w : Scanned m bc left 1 (i + 1) s = scan_free-Scanned left m bc 1 (i + 1) one in
      rw (eq→== (m i) 0 free) (elim (eq_or_ne s.count bc) [
        | inl fits ↦ rw (eq→== s.count bc fits) (
            found {r = i} (omega arith) (omega (arith, w.total, w.moved))
              (λ j p q. elim (eq_or_ne j i) [
                | inl same ↦ rw same free
                | inr ne ↦ w.free j (omega arith) (omega (arith, w.moved))
              ])
              (λ k p q. absurd (omega arith)))
        | inr short ↦
            let skip = short-not_run m bc left i s w short in
            rw (ne→not_== s.count bc short) (elim (eq_or_ne s.left 0) [
              | inl end ↦
                  let never : (k : ℕ) → i ≤ k → k + bc ≤ hi → ¬ FreeRun m k bc =
                    λ k p q. skip k p (omega (arith, w.total, one)) (inr (omega arith)) in
                  rw (end, start_block_loop-zero f m bc (s.pos + 1)) (full never)
              | inr more ↦
                  FirstFit-earlier m i (s.pos + 1) hi bc (omega (arith, w.moved))
                    (λ k p q. skip k p q (inl more))
                    (start_block_loop-FirstFit f (s.left - 1) m bc (s.pos + 1) hi
                      (omega (arith, w.total, w.moved)) one (omega (arith, w.total)))
            ])
      ])
]

scan_free-some :
    (left : ℕ) (m : Mem) (bc count i : ℕ) → 1 ≤ count → 1 ≤ (scan_free left m bc count i).count
unfolding scan_free
scan_free-some zero m bc count i h = h
scan_free-some (suc left) m bc count i h =
    ground (arith, scan_free-some left m bc (count + 1) (i + 1) (omega arith), h)

-- A count of one free entry is never 0.
start_block_loop-none : (f left : ℕ) (m : Mem) (i : ℕ) → start_block_loop f left m 0 i ≡ none
unfolding start_block_loop
start_block_loop-none zero left m i = refl
start_block_loop-none (suc f) zero m i = refl
start_block_loop-none (suc f) (suc left) m i =
    let s = scan_free left m 0 1 (i + 1) in
    ground (
      arith,
      scan_free-some left m 0 1 (i + 1) (omega arith),
      start_block_loop-none f (s.left - 1) m (s.pos + 1),
      start_block_loop-none f left m (i + 1),
    )

-- `heap_get_start_block` is a complete first-fit search of the table: for a block of at least one entry it returns the
-- lowest position from which that many entries are all free and inside the table, and NULL exactly when no such run
-- exists; for a block of no entries, which size 0 and a size that wraps around ask for, it returns NULL. The fuel of the
-- model is always enough.
pub heap_get_start_block-FirstFit :
    (m : Mem) (t : HeapTable) (block_count : ℕ)
    → ((block_count ≡ 0) × (heap_get_start_block m t block_count ≡ none))
      ⊎ ((1 ≤ block_count)
          × FirstFit m t.entries
              (t.entries + t.total)
              block_count
              (heap_get_start_block m t block_count))
unfolding heap_get_start_block
heap_get_start_block-FirstFit m t zero =
    inl (refl, start_block_loop-none (t.total + 1) t.total m t.entries)
heap_get_start_block-FirstFit m t (suc n) = inr (
  omega arith,
  start_block_loop-FirstFit (t.total + 1) t.total m (suc n) t.entries (t.entries + t.total)
      (omega arith) (omega arith) refl,
)

pub heap_get_start_block-found :
    (m : Mem) (t : HeapTable) (block_count : ℕ)
    → 1 ≤ block_count
    → FirstFit m t.entries (t.entries + t.total) block_count (heap_get_start_block m t block_count)
heap_get_start_block-found m t bc one = elim (heap_get_start_block-FirstFit m t bc) [
  | inl (z, _) ↦ absurd (omega (arith, z, one))
  | inr (_, fit) ↦ fit
]
