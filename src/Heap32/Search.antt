-- ===== src/Heap32/Search.antt =====
-- `get_index` of a page is the same first-fit search as `heap_get_start_block` of the kernel heap.
use gensis32os.Prelude.{
  eq_or_ne, sub32, ℕ, zero, suc, ◌+◌, ◌-◌, ◌^◌, ◌≤◌, ◌<◌, ◌≡◌, refl, ap, inl, inr, arith,
}
use gensis32os.Memory.{Mem}
use gensis32os.Blocks.{FirstFit}
use gensis32os.Heap.{Scan, scan_free, start_block_loop}
use gensis32os.Heap.Search.{start_block_loop-FirstFit}
use gensis32os.Heap32.{Seek, seek_free, index_loop}

-- Counting `target` down to 0 stops where counting up to `block_count` does.
record Agree (n : ℕ) (s : Seek) (c : Scan) : Type 0 where
  left : s.left ≡ c.left
  pos : s.pos ≡ c.pos
  sum : s.target + c.count ≡ n

seek_free-Agree :
    (left : ℕ) (m : Mem) (n target count i : ℕ)
    → target + count ≡ n
    → n < 2 ^ 32
    → Agree n (seek_free left m target i) (scan_free left m n count i)
unfolding seek_free scan_free
seek_free-Agree zero m n target count i e h = record { left = refl; pos = refl; sum = e }
seek_free-Agree (suc left) m n target count i e h = elim (eq_or_ne target 0) [
  | inl z ↦ ground (arith, z)
  | inr ne ↦
      ground (arith, seek_free-Agree left m n (sub32 target 1) (count + 1) (i + 1) (omega arith) h)
]

index_loop-eq :
    (f left : ℕ) (m : Mem) (n i : ℕ)
    → 1 ≤ n
    → n < 2 ^ 32
    → index_loop f left m n i ≡ start_block_loop f left m n i
unfolding index_loop start_block_loop
index_loop-eq zero left m n i one h = refl
index_loop-eq (suc f) zero m n i one h = refl
index_loop-eq (suc f) (suc left) m n i one h =
    let s = seek_free left m (sub32 n 1) (i + 1) in
    let c = scan_free left m n 1 (i + 1) in
    let a : Agree n s c = seek_free-Agree left m n (sub32 n 1) 1 (i + 1) (omega arith) h in
    ground (
      arith,
      a,
      index_loop-eq f left m n (i + 1) one h,
      index_loop-eq f (s.left - 1) m n (s.pos + 1) one h,
      ap (λ k. start_block_loop f (k - 1) m n (s.pos + 1)) a.left,
      ap (λ k. start_block_loop f (c.left - 1) m n (k + 1)) a.pos,
    )

-- The search of a page is a complete first-fit search of its 124 table bytes.
pub index_loop-FirstFit :
    (m : Mem) (page n : ℕ)
    → 1 ≤ n
    → n < 2 ^ 32
    → FirstFit m page (page + 124) n (index_loop 125 124 m n page)
index_loop-FirstFit m page n one h =
    rw (index_loop-eq 125 124 m n page one h)
      (start_block_loop-FirstFit 125 124 m n page (page + 124) (omega arith) one refl)
