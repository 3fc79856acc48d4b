-- ===== src/Gen32Heap/Tests.antt =====
-- Runs on three blocks, the last one behind two free ones, and on a fresh heap.
use gensis32os.Prelude.{◌==◌, if◌then◌else◌, ◌≡◌, refl, true, some, [], ◌∷◌, arith}
use gensis32os.Prelude.Outcomes.{Ends}
use gensis32os.Gen32Heap.{Headers, search_loop, heap_init, malloc}
use gensis32os.Gen32Heap.Search.{SearchOutcome, search_loop-Ends}
use gensis32os.Gen32Heap.Fresh.{malloc-fresh}

abbrev three_blocks : Headers
three_blocks a = record {
  size = if a == 16 then 64 else if a == 96 then 128 else 4096;
  addr_n = if a == 16 then 96 else if a == 96 then 240 else 0;
  free = true;
  flags = 0;
}

search_loop-Ends_example :
    Ends (SearchOutcome three_blocks 32 0 (16 ∷ 96 ∷ []) 240) (search_loop 3 three_blocks 16 0 32)
search_loop-Ends_example =
    search_loop-Ends (16 ∷ 96 ∷ []) 3 three_blocks 16 0 240 32 (omega arith)
      (refl, omega arith, omega arith, (refl, omega arith, omega arith, (refl, refl))) (omega arith)
      (λ e. absurd (omega arith))

malloc-fresh_example : malloc 1 0 (heap_init three_blocks) 100 ≡ some (0, heap_init three_blocks)
malloc-fresh_example = malloc-fresh 0 0 three_blocks 100 (omega arith) (omega arith)
