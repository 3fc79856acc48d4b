-- ===== src/Blocks.antt =====
-- The table encoding that both heaps share (HEAP_TABLE_BLOCK_* of src/kernel/heap/heap.h and BLOCK_* of
-- src/kernel/heap/heap32.h): one byte for each unit of storage, 0 for a free one. A block of one unit
-- is SINGLE; a longer one is START, MID for each unit between, and END.
pub mod Fit
pub mod Layout
use gensis32os.Prelude.{
  ltb, leb, ◌==◌, if◌then◌else◌, ℕ, ◌+◌, ◌≤◌, ◌<◌, ◌≡◌, ◌&&◌, Option, none, some,
}
use gensis32os.Memory.{Mem}

abbrev pub block_start : ℕ
block_start = 0xc1

abbrev pub block_end : ℕ
block_end = 0x01

abbrev pub block_mid : ℕ
block_mid = 0x81

abbrev pub block_single : ℕ
block_single = 0x41

-- The `n` table bytes from `i` on are all free.
abbrev pub FreeRun : Mem → ℕ → ℕ → Type 0
FreeRun m i n = (j : ℕ) → i ≤ j → j < i + n → m j ≡ 0

-- The byte of table position `j` in a block of `n` units at `k`.
abbrev pub code_at : ℕ → ℕ → ℕ → ℕ
code_at k n j =
    if n == 1
    then block_single
    else if j == k
    then block_start
    else if j + 1 == k + n
    then block_end
    else block_mid

-- The table holds a block of `n` units at position `k`.
pub record IsBlock (m : Mem) (k n : ℕ) : Type 0 where
  pub size : 1 ≤ n
  pub codes : (j : ℕ) → k ≤ j → j < k + n → m j ≡ code_at k n j

-- The table `m'` is `m` with a block of `n` units marked at `k`; or with `n` bytes from `k` on cleared.
abbrev pub Marked : Mem → Mem → ℕ → ℕ → Type 0
Marked m m' k n = (a : ℕ) → m' a ≡ (if leb k a && ltb a (k + n) then code_at k n a else m a)

abbrev pub Cleared : Mem → Mem → ℕ → ℕ → Type 0
Cleared m m' k n = (a : ℕ) → m' a ≡ (if leb k a && ltb a (k + n) then 0 else m a)

-- What a first-fit search for `n` free bytes between `lo` and `hi` has to answer.
pub data FirstFit (m : Mem) (lo hi n : ℕ) : Option ℕ → Type 0 where
  found :
      {r : ℕ}
      → lo ≤ r
      → r + n ≤ hi
      → FreeRun m r n
      → ((k : ℕ) → lo ≤ k → k < r → ¬ FreeRun m k n)
      → FirstFit m lo hi n (some r)
  full : ((k : ℕ) → lo ≤ k → k + n ≤ hi → ¬ FreeRun m k n) → FirstFit m lo hi n none
