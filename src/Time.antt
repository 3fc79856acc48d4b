-- ===== src/Time.antt =====
-- src/kernel/time/time.c, the tick counter of src/kernel/isr/isr.c and src/kernel/pit/pit.c. The timer runs at
-- 100 Hz; `tick` is a 64-bit counter that the interrupt handler advances.
mod Tests
pub mod Sleep
use gensis32os.Prelude.{
  ltb, if◌then◌else◌, u16, u32, ◌>>>◌, ℕ, zero, suc, ◌+◌, ◌*◌, ◌/◌, ◌%◌, ◌^◌, bit_and, Option, none,
  some, List, [], ◌∷◌,
}

pub int20_handler : (tick : ℕ) → ℕ
int20_handler tick = (tick + 1) % 2 ^ 64

-- `while(tick < end);` between interrupts: the number of ticks that pass before it ends, if the counter
-- is `tick`; `none` when the fuel runs out.
pub wait_loop : (fuel tick end : ℕ) → Option ℕ
wait_loop zero tick end = none
wait_loop (suc f) tick end =
    let rest = wait_loop f (int20_handler tick) end in
    if ltb tick end then elim rest [ none ↦ none | some n ↦ some (n + 1) ] else some 0

pub sleep_ticks : (fuel tick tick_count : ℕ) → Option ℕ
sleep_ticks f tick count = wait_loop f tick ((tick + count) % 2 ^ 64)

-- The product is formed in 32 bits before it is widened.
pub sleep : (fuel tick time_sec : ℕ) → Option ℕ
sleep f tick time_sec = sleep_ticks f tick (u32 (time_sec * 100))

pub sleep_ms : (fuel tick milli_sec : ℕ) → Option ℕ
sleep_ms f tick ms = sleep_ticks f tick ((if ltb ms 10 then 10 else ms) / 10)

-- PIT_FREQ
abbrev pub pit_freq : ℕ
pit_freq = 1193182

-- The bytes that `pit_init` sends, each with its port. The divisor is cut to 16 bits.
pub pit_init : (freq : ℕ) → List (ℕ × ℕ)
pit_init freq =
    let val = u16 (pit_freq / freq) in
    (0x43, 0x36) ∷ (0x40, bit_and val 0xff) ∷ (0x40, bit_and (val >>> 8) 0xff) ∷ []
