-- ===== src/Time/Sleep.antt =====
-- How long a sleep lasts.
use gensis32os.Prelude.Bits.{bit_and_mask}
use gensis32os.Prelude.{
  lt_or_le, u16, u32, ◌>>>◌, ℕ, zero, suc, ◌+◌, ◌-◌, ◌*◌, ◌/◌, ◌%◌, ◌^◌, ◌≤◌, ◌<◌, max, bit_and,
  ◌≡◌, refl, sym, ◌∙◌, subst, inl, inr, some, [], ◌∷◌, arith,
}
use native.Mathlib.Nat.{le_trans, mul-le-mul_right, mul-le-mul_left}
use gensis32os.Prelude.Division.{div_between}
use gensis32os.Time.{int20_handler, wait_loop, sleep_ticks, sleep, sleep_ms, pit_init, pit_freq}

wait_loop-eq :
    (f tick end : ℕ) → end < 2 ^ 64 → end - tick < f → wait_loop f tick end ≡ some (end - tick)
unfolding wait_loop int20_handler
wait_loop-eq zero tick end h k = absurd (omega arith)
wait_loop-eq (suc f) tick end h k = elim (lt_or_le tick end) [
  | inr done ↦ ground arith
  | inl more ↦ ground (arith, wait_loop-eq f ((tick + 1) % 2 ^ 64) end h (omega arith))
]

-- `sleep_ticks` returns after exactly `tick_count` timer interrupts, unless the 64-bit counter wraps.
pub sleep_ticks-eq :
    (f tick count : ℕ) → tick + count < 2 ^ 64 → count < f → sleep_ticks f tick count ≡ some count
unfolding sleep_ticks
sleep_ticks-eq f tick count h k = ground (arith, wait_loop-eq f tick (tick + count))

-- `sleep` lasts 100 ticks a second for up to 42949672 seconds. A longer one is cut by the 32-bit product
-- to a shorter wait than was asked for.
pub sleep-eq :
    (f tick sec : ℕ)
    → sec < 2 ^ 32
    → tick + 2 ^ 32 < 2 ^ 64
    → sec * 100 < f
    → (sec ≤ 42949672 → sleep f tick sec ≡ some (sec * 100))
      × (42949672 < sec → (n : ℕ) × (sleep f tick sec ≡ some n) × (n < sec * 100))
unfolding sleep
sleep-eq f tick sec h w k = (
  (λ p. ground (arith, sleep_ticks-eq f tick (u32 (sec * 100)) (omega arith) (omega arith))),
  (λ p. (
    u32 (sec * 100),
    sleep_ticks-eq f tick (u32 (sec * 100)) (omega arith) (omega arith),
    omega arith,
  )),
)

-- `sleep_ms` waits for one tick in every whole 10 ms, and for at least one.
pub sleep_ms-eq :
    (f tick ms : ℕ)
    → ms < 2 ^ 32
    → tick + 2 ^ 32 < 2 ^ 64
    → ms + 1 < f
    → sleep_ms f tick ms ≡ some (max 1 (ms / 10))
unfolding sleep_ms
sleep_ms-eq f tick ms h w k = elim (lt_or_le ms 10) [
  | inl small ↦ ground (arith, sleep_ticks-eq f tick 1)
  | inr big ↦ ground (arith, sleep_ticks-eq f tick (ms / 10))
]

many_times : (q freq : ℕ) → 2 ^ 16 ≤ q → 19 ≤ freq → q * freq ≤ pit_freq → ⊥
many_times q freq a b c = omega (arith, le_trans (mul-le-mul_right 19 a) (mul-le-mul_left q b), c)

two_bytes : (n : ℕ) → n < 2 ^ 16 → bit_and (n >>> 8) 0xff * 256 + bit_and n 0xff ≡ n
two_bytes n h = omega (arith, bit_and_mask 8 n, bit_and_mask 8 (n >>> 8))

-- For a frequency from 19 Hz up the two data bytes that `pit_init` sends are the divisor, low byte first,
-- and the divisor is the greatest whose rate is not below the frequency.
pub pit_init-divisor :
    (freq : ℕ)
    → 19 ≤ freq
    → freq ≤ pit_freq
    → (lo hi : ℕ) × (pit_init freq ≡ (0x43, 0x36) ∷ (0x40, lo) ∷ (0x40, hi) ∷ [])
      × (lo < 256)
      × (hi < 256)
      × ((hi * 256 + lo) * freq ≤ pit_freq)
      × (pit_freq < (hi * 256 + lo + 1) * freq)
unfolding pit_init
pit_init-divisor freq h k =
    let val = u16 (pit_freq / freq) in
    let q = pit_freq / freq in
    let (low, high) = div_between pit_freq freq (omega arith) in
    let small : q < 2 ^ 16 = elim (lt_or_le q (2 ^ 16)) [
      | inl lt ↦ lt
      | inr ge ↦ absurd (many_times q freq ge h low)
    ] in
    let same : bit_and (val >>> 8) 0xff * 256 + bit_and val 0xff ≡ q =
      two_bytes val (omega arith) ∙ omega (arith, small) in
    (
      bit_and val 0xff,
      bit_and (val >>> 8) 0xff,
      refl,
      omega (arith, bit_and_mask 8 val),
      omega (arith, bit_and_mask 8 (val >>> 8)),
      subst (λ n. n * freq ≤ pit_freq) (sym same) low,
      subst (λ n. pit_freq < (n + 1) * freq) (sym same) high,
    )
