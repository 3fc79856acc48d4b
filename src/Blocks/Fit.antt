-- ===== src/Blocks/Fit.antt =====
-- Steps of a first-fit search.
use gensis32os.Prelude.{lt_or_le, ℕ, ◌+◌, ◌≤◌, ◌<◌, ◌≢◌, inl, inr, Option, arith}
use gensis32os.Memory.{Mem}
use gensis32os.Blocks.{FreeRun, FirstFit, found, full}

-- A search may begin earlier when no run begins in the part that it skips.
pub FirstFit-earlier :
    (m : Mem) (lo lo' hi n : ℕ) {r : Option ℕ}
    → lo ≤ lo'
    → ((k : ℕ) → lo ≤ k → k < lo' → ¬ FreeRun m k n)
    → FirstFit m lo' hi n r
    → FirstFit m lo hi n r
FirstFit-earlier m lo lo' hi n le skip (found {r} a b run first) =
    found (omega arith) b run
      λ k p q. elim (lt_or_le k lo') [ inl l ↦ skip k p l | inr g ↦ first k g q ]
FirstFit-earlier m lo lo' hi n le skip (full never) =
    full λ k p q. elim (lt_or_le k lo') [ inl l ↦ skip k p l | inr g ↦ never k g q ]

-- A taken byte inside a run refutes it.
pub taken-not_run : (m : Mem) (k n i : ℕ) → k ≤ i → i < k + n → m i ≢ 0 → ¬ FreeRun m k n
taken-not_run m k n i p q taken run = taken (run i p q)
