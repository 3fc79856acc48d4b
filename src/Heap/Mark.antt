-- ===== src/Heap/Mark.antt =====
-- What `heap_malloc` marks and what `heap_free` clears, byte by byte.
use gensis32os.Prelude.{
  ltb, leb, if◌then◌else◌, eq_or_ne, ℕ, zero, suc, ◌+◌, ◌-◌, ◌≤◌, ◌<◌, ◌≡◌, ◌≢◌, inl, inr, ◌&&◌,
  arith,
}
use gensis32os.Memory.{Mem, store}
use gensis32os.Blocks.{code_at, block_mid, block_end, block_start}
use gensis32os.Heap.{mark_mid, mark_taken, clear_block}

mark_mid-at :
    (left : ℕ) (m : Mem) (p a : ℕ)
    → mark_mid left m p a ≡ (if leb p a && ltb a (p + left) then block_mid else m a)
unfolding mark_mid store
mark_mid-at zero m p a = ground arith
mark_mid-at (suc left) m p a = ground (arith, mark_mid-at left (store m p block_mid) (p + 1) a)

pub mark_taken-at :
    (m : Mem) (k n a : ℕ)
    → 1 ≤ n
    → mark_taken m k n a ≡ (if leb k a && ltb a (k + n) then code_at k n a else m a)
unfolding mark_taken store
mark_taken-at m k n a h = ground (arith, mark_mid-at (n - 2) (store m k block_start) (k + 1) a)

-- Clearing from position `p` of a block's body on, when its END is at `last`.
pub clear_block-at :
    (left : ℕ) (m : Mem) (p last a : ℕ)
    → p ≤ last
    → last < p + left
    → ((j : ℕ) → p ≤ j → j < last → m j ≢ block_end)
    → m last ≡ block_end
    → clear_block left m p a ≡ (if leb p a && leb a last then 0 else m a)
unfolding clear_block store
clear_block-at zero m p last a h fits body end = absurd (omega arith)
clear_block-at (suc left) m p last a h fits body end = elim (eq_or_ne p last) [
  | inl e ↦ ground (arith, e)
  | inr ne ↦ ground (
    arith,
    body p (omega arith) (omega arith),
    clear_block-at left (store m p 0) (p + 1) last a (omega arith) (omega arith)
        (λ j q r. ground (arith, body j (omega arith) r)) (ground arith),
  )
]
