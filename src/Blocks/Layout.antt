-- ===== src/Blocks/Layout.antt =====
-- Blocks do not overlap, and what a change of the table leaves of them.
use gensis32os.Prelude.{
  lt_or_le, ℕ, ◌+◌, ◌-◌, ◌≤◌, ◌<◌, ◌≡◌, ◌∙◌, fun_ext, ◌≢◌, ◌⊎◌, inl, inr, arith,
}
use gensis32os.Memory.{Mem}
use gensis32os.Blocks.{IsBlock, code_at, FreeRun, Marked, Cleared}

code_at-ne-zero : (k n j : ℕ) → code_at k n j ≢ 0
code_at-ne-zero k n j = ground arith

-- No byte of a block is free.
pub IsBlock-ne-zero : {m : Mem} {k n : ℕ} → IsBlock m k n → (j : ℕ) → k ≤ j → j < k + n → m j ≢ 0
IsBlock-ne-zero {m} {k} {n} b j p q = ground (arith, b.codes j p q)

same_start-size : {m : Mem} {k n n' : ℕ} → IsBlock m k n → IsBlock m k n' → n ≤ n'
same_start-size {m} {k} {n} {n'} b b' = elim (lt_or_le n' n) [
  | inr le ↦ le
  | inl lt ↦ absurd (
      ground (
        arith,
        b.size,
        b'.size,
        b.codes (k + n' - 1) (omega (arith, b'.size)) (omega (arith, b'.size)),
        b'.codes (k + n' - 1) (omega (arith, b'.size)) (omega (arith, b'.size)),
      ))
]

-- A block's first byte is no later byte of another block.
later_start : {m : Mem} {k n k' n' : ℕ} → IsBlock m k n → IsBlock m k' n' → k < k' → k + n ≤ k'
later_start {m} {k} {n} {k'} {n'} b b' p = elim (lt_or_le k' (k + n)) [
  | inr le ↦ le
  | inl lt ↦ absurd (
      ground (
        arith,
        b.size,
        b'.size,
        b.codes k' (omega arith) lt,
        b'.codes k' (omega arith) (omega (arith, b'.size)),
      ))
]

-- The encoding delimits itself: of two blocks in one table, either both are the same, or they have
-- no table byte in common.
pub IsBlock-disjoint :
    {m : Mem} {k n k' n' : ℕ}
    → IsBlock m k n
    → IsBlock m k' n'
    → ((k ≡ k') × (n ≡ n')) ⊎ (k + n ≤ k') ⊎ (k' + n' ≤ k)
IsBlock-disjoint {m} {k} {n} {k'} {n'} b b' = elim (lt_or_le k k') [
  | inl lt ↦ inr (inl (later_start b b' lt))
  | inr le ↦ elim (lt_or_le k' k) [
    | inl gt ↦ inr (inr (later_start b' b gt))
    | inr ge ↦
        let e : k ≡ k' = omega arith in
        let c : IsBlock m k n' = rw e b' in
        inl (e, omega (arith, same_start-size b c, same_start-size c b))
  ]
]

-- A block stays where the bytes of its part of the table stay.
pub IsBlock-frame :
    {m m' : Mem} {k n : ℕ}
    → ((j : ℕ) → k ≤ j → j < k + n → m' j ≡ m j)
    → IsBlock m k n
    → IsBlock m' k n
IsBlock-frame same b = record { size = b.size; codes = λ j p q. same j p q ∙ b.codes j p q }

pub Marked-IsBlock : (m m' : Mem) (k n : ℕ) → 1 ≤ n → Marked m m' k n → IsBlock m' k n
Marked-IsBlock m m' k n one marks = record { size = one; codes = λ j x y. ground (arith, marks j) }

-- Marking a free run touches no block of the table.
pub kept-IsBlock :
    (m m' : Mem) (k n : ℕ) {i s : ℕ}
    → FreeRun m k n
    → Marked m m' k n
    → IsBlock m i s
    → IsBlock m' i s
kept-IsBlock m m' k n run marks b =
    IsBlock-frame (λ j p q. ground (arith, marks j, run j, IsBlock-ne-zero b j p q)) b

-- Clearing one block touches no other.
pub other-IsBlock :
    (m m' : Mem) (k n : ℕ) {i s : ℕ}
    → IsBlock m k n
    → Cleared m m' k n
    → IsBlock m i s
    → k ≢ i
    → IsBlock m' i s
other-IsBlock m m' k n {i} {s} b clears c ne = elim (IsBlock-disjoint b c) [
  | inl same ↦ absurd (ne same.0)
  | inr apart ↦ IsBlock-frame (λ j p q. ground (arith, clears j)) c
]

-- Marking a free run and clearing it again restores every byte.
pub Cleared-Marked :
    (m m' m'' : Mem) (k n : ℕ) → FreeRun m k n → Marked m m' k n → Cleared m' m'' k n → m'' ≡ m
Cleared-Marked m m' m'' k n run marks clears = fun_ext λ a. ground (arith, run a, marks a, clears a)
