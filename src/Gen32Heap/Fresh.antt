-- ===== src/Gen32Heap/Fresh.antt =====
-- The first allocation after heap_init.
use gensis32os.Prelude.{
  ltb, ◌==◌, eq→==, u32, ℕ, suc, ◌+◌, ◌-◌, ◌*◌, ◌/◌, ◌^◌, ◌≤◌, ◌<◌, ◌≡◌, refl, true, Option, some,
  arith,
}
use gensis32os.Prelude.Branches.{by_true, by_false, by_some}
use gensis32os.Prelude.Bits.{bit_and_16}
use gensis32os.Memory.{put_block}
use gensis32os.Gen32Heap.{
  Headers, LoopEnd, no_fit, search_loop, heap_start, heap_init, default_case, round_up, malloc,
}

start_header :
    (h : Headers)
    → ((heap_init h heap_start).addr_n ≡ 0) × ((heap_init h heap_start).size ≡ 0x1fffff0)
unfolding heap_init put_block
start_header h = (refl, refl)

round_up-eq : (size : ℕ) → size + 0xf < 2 ^ 32 → round_up size ≡ (size + 0xf) / 16 * 16
round_up-eq size h = omega (arith, bit_and_16 (u32 (size + 0xf)) (omega arith), h)

-- After `heap_init`, `malloc` returns NULL and changes nothing for every size other than 0 and below about 4 GB: the one
-- block is the last, and the test of `default_case` finds no room for a second header in a block that is the whole heap
-- less its own header.
pub malloc-fresh :
    (fuel next : ℕ) (h : Headers) (size : ℕ)
    → 0 < size
    → size ≤ 2 ^ 32 - 2 ^ 25 - 16
    → malloc (suc fuel) next (heap_init h) size ≡ some (0, heap_init h)
unfolding malloc search_loop default_case
malloc-fresh fuel next h size any small =
    let h0 = heap_init h in
    let (stop, whole) = start_header h in
    let P = λ (r : Option (ℕ × Headers)). r ≡ some (0, h0) in
    let searched : search_loop (suc fuel) h0 heap_start 0 (round_up size)
        ≡ some (no_fit 0 heap_start) =
      by_true (λ (r : Option LoopEnd). r ≡ some (no_fit 0 heap_start)) ((h0 heap_start).addr_n == 0)
        _ _ (eq→== _ _ stop) refl in
    let refused : ltb 0x2000000 (u32 ((h0 heap_start).size + round_up size + 16)) ≡ true =
      ground (arith, whole, round_up-eq size (omega (arith, small)), any, small) in
    by_false P (size == 0) _ _ (ground (arith, any)) (
      by_some P (search_loop (suc fuel) h0 heap_start 0 (round_up size)) _ _ (no_fit 0 heap_start)
        searched
        (by_true (λ (r : ℕ × Headers). some r ≡ some (0, h0))
          (ltb 0x2000000 (u32 ((h0 heap_start).size + round_up size + 16))) _ _ refused refl))
