-- ===== src/Console/Tests.antt =====
-- Runs of the screen.
use gensis32os.Prelude.{ℕ, ◌%◌, ◌^◌, [], ◌∷◌, arith}
use gensis32os.Console.{Screen, print}
use gensis32os.Console.Print.{OnScreen, Bounded, print-OnScreen}

abbrev numbered : ℕ → ℕ
numbered k = k % 2 ^ 16

abbrev last_row : Screen
last_row = record { cells = numbered; cursor_x = 77; cursor_y = 24 }

print-OnScreen_example :
    OnScreen (print last_row (72 ∷ 105 ∷ 10 ∷ 33 ∷ []))
    × Bounded last_row.cells (print last_row (72 ∷ 105 ∷ 10 ∷ 33 ∷ [])).cells
print-OnScreen_example =
    print-OnScreen (72 ∷ 105 ∷ 10 ∷ 33 ∷ []) last_row (omega arith, omega arith)
      (λ i h. ground arith)
