-- ===== src/Prelude/Words.antt =====
-- C integers as native numbers: an unsigned value is its number, a signed one its bit pattern.
use gensis32os.Prelude.Tests.{ltb, if◌then◌else◌}
use Prim.Native.Nat.{ℕ, ◌+◌, ◌-◌, ◌*◌, ◌/◌, ◌%◌, ◌^◌}

abbrev pub u8 : ℕ → ℕ
u8 n = n % 2 ^ 8

abbrev pub u16 : ℕ → ℕ
u16 n = n % 2 ^ 16

abbrev pub u32 : ℕ → ℕ
u32 n = n % 2 ^ 32

-- `a - b` in 32 bits: `-` on ℕ stops at 0, so the modulus is added first.
abbrev pub sub32 : ℕ → ℕ → ℕ
sub32 a b = (a + 2 ^ 32 - b) % 2 ^ 32

-- Signed division of a 32-bit pattern by a positive number, rounded towards 0.
abbrev pub sdiv32 : ℕ → ℕ → ℕ
sdiv32 a d = if ltb a (2 ^ 31) then a / d else (2 ^ 32 - (2 ^ 32 - a) / d) % 2 ^ 32

infixl 75 ◌<<<◌ ◌>>>◌
abbrev pub ◌<<<◌ : ℕ → ℕ → ℕ
x <<< k = x * 2 ^ k

abbrev pub ◌>>>◌ : ℕ → ℕ → ℕ
x >>> k = x / 2 ^ k

-- The bit pattern of the `int` -n.
abbrev pub neg : ℕ → ℕ
neg n = (2 ^ 32 - n) % 2 ^ 32
