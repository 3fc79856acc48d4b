-- ===== src/Time/Tests.antt =====
-- Runs of the sleeps and of the timer's set-up.
use gensis32os.Prelude.{ℕ, ◌*◌, ◌≤◌, ◌<◌, ◌≡◌, some, arith}
use gensis32os.Time.{sleep}
use gensis32os.Time.Sleep.{sleep-eq}

sleep-eq_example :
    (50000000 ≤ 42949672 → sleep 5000000001 7 50000000 ≡ some (50000000 * 100))
    × (42949672 < 50000000
        → (n : ℕ) × (sleep 5000000001 7 50000000 ≡ some n) × (n < 50000000 * 100))
sleep-eq_example = sleep-eq 5000000001 7 50000000 (omega arith) (omega arith) (omega arith)
