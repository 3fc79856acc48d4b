-- ===== src/Prelude/Bits.antt =====
-- `|` of disjoint fields and `&` with a mask of low bits, as arithmetic, at every width. Both operations act
-- on the lowest bit and on the halves, and from that on any number of low bits and on the rest.
use Prim.Native.Nat.{
  ℕ, zero, suc, ◌+◌, ◌-◌, ◌*◌, ◌/◌, ◌%◌, ◌^◌, ◌≤◌, ◌<◌, min, max, bit_and, bit_or, digits, bitwise,
  bit_and-bitwise, bit_or-bitwise,
}
use mathlib.Core.Path.{◌≡◌, refl, ap, ap₂, ◌∙◌, sym}
use mathlib.Core.Logic.{inl, inr}
use gensis32os.Prelude.Tests.{if◌then◌else◌, eq_or_ne}
use mathlib.Core.Bool.{Bool, true, false}
use native.Mathlib.Omega.{arith, div_any}
use native.Mathlib.Nat.{pow-suc, one-le-pow, mod-lt, mul_comm}

-- An operation `op` on bits that works by `f` on each pair, and by `z` once the first number is used up.
module _ (z : ℕ → ℕ) (f : ℕ → ℕ → ℕ) (op : ℕ → ℕ → ℕ) (means : (a b : ℕ) → op a b ≡ bitwise z f a b)
    (used_up : (b : ℕ) → z b ≡ z (b / 2) * 2 + f 0 (b % 2)) where
  one_more : (n a b : ℕ) → a ≤ n → digits z f (suc n) a b ≡ digits z f n a b
  one_more zero a b h = let none_left : a ≡ 0 = omega arith in rw (none_left) refl
  one_more (suc n) zero b h = refl
  one_more (suc n) (suc a) b h =
      ap (λ t. t * 2 + f (suc a % 2) (b % 2)) (one_more n (suc a / 2) (b / 2) (omega arith))

  spare_fuel : (k m n a b : ℕ) → m ≡ k + n → a ≤ n → digits z f m a b ≡ digits z f n a b
  spare_fuel zero m n a b e h = ap (λ t. digits z f t a b) (omega (arith, e))
  spare_fuel (suc k) m n a b e h =
      let next : m ≡ suc (k + n) = omega (arith, e) in
      ap (λ t. digits z f t a b) next
      ∙ one_more (k + n) a b (omega arith)
      ∙ spare_fuel k (k + n) n a b refl h

  halves : (a b : ℕ) → op a b ≡ op (a / 2) (b / 2) * 2 + f (a % 2) (b % 2)
  halves zero b = means 0 b ∙ used_up b ∙ ap (λ t. t * 2 + f 0 (b % 2)) (sym (means 0 (b / 2)))
  halves (suc a) b =
      let half = suc a / 2 in
      means (suc a) b
      ∙ ap (λ t. t * 2 + f (suc a % 2) (b % 2))
          (spare_fuel (a - half) a half half (b / 2) (omega arith) (omega arith)
            ∙ sym (means half (b / 2)))

bit_and_halves : (a b : ℕ) → bit_and a b ≡ bit_and (a / 2) (b / 2) * 2 + min (a % 2) (b % 2)
bit_and_halves = halves (λ y. 0) min bit_and bit_and-bitwise (λ b. omega arith)

bit_or_halves : (a b : ℕ) → bit_or a b ≡ bit_or (a / 2) (b / 2) * 2 + max (a % 2) (b % 2)
bit_or_halves = halves (λ y. y) max bit_or bit_or-bitwise (λ b. omega arith)

right_zero : (n a : ℕ) → a ≤ n → (bit_and a 0 ≡ 0) × (bit_or a 0 ≡ a)
right_zero zero a h = let e : a ≡ 0 = omega arith in rw (e) (refl, refl)
right_zero (suc n) a h =
    let (no_bits, all_bits) = right_zero n (a / 2) (omega arith) in
    (omega (arith, bit_and_halves a 0, no_bits), omega (arith, bit_or_halves a 0, all_bits))

pub bit_and-zero : (a : ℕ) → bit_and a 0 ≡ 0
bit_and-zero a = (right_zero a a (omega arith)).0

pub bit_or-zero : (a : ℕ) → bit_or a 0 ≡ a
bit_or-zero a = (right_zero a a (omega arith)).1

bit_or_swap : (n a b : ℕ) → a + b ≤ n → bit_or a b ≡ bit_or b a
bit_or_swap zero a b h = let same : a ≡ b = omega arith in rw (same) refl
bit_or_swap (suc n) a b h =
    omega (arith, bit_or_halves a b, bit_or_halves b a, bit_or_swap n (a / 2) (b / 2) (omega arith))

pub bit_or_comm : (a b : ℕ) → bit_or a b ≡ bit_or b a
bit_or_comm a b = bit_or_swap (a + b) a b (omega arith)

-- Whether a test holds at `left` numbers from `i` on, which its evaluation settles.
unfoldable pub holds_from : (left i : ℕ) → (ℕ → Bool) → Bool
holds_from zero i p = true
holds_from (suc left) i p = if p i then holds_from left (i + 1) p else false

pub holds_from-at :
    (left i : ℕ) (p : ℕ → Bool) (x : ℕ)
    → holds_from left i p ≡ true
    → i ≤ x
    → x < i + left
    → p x ≡ true
unfolding holds_from
holds_from-at zero i p x all low high = absurd (omega arith)
holds_from-at (suc left) i p x all low high = elim (eq_or_ne x i) [
  | inl here ↦ ground (arith, here)
  | inr ne ↦ holds_from-at left (i + 1) p x (ground (arith, all)) (omega (arith, ne)) (omega arith)
]

shift_once : (x k : ℕ) → x * 2 ^ suc k ≡ 2 * (x * 2 ^ k)
shift_once x k = let power = pow-suc 2 k in grind (arith, power)

-- `|` and `&` act on the low `k` bits and on the rest separately.
pub bit_or_split :
    (k q r q' r' : ℕ)
    → r < 2 ^ k
    → r' < 2 ^ k
    → bit_or (q * 2 ^ k + r) (q' * 2 ^ k + r') ≡ bit_or q q' * 2 ^ k + bit_or r r'
bit_or_split zero q r q' r' h h' =
    let z : r ≡ 0 = omega arith in
    let z' : r' ≡ 0 = omega arith in
    let a : q * 1 + 0 ≡ q = omega arith in
    let b : q' * 1 + 0 ≡ q' = omega arith in
    let c : bit_or q q' * 1 + 0 ≡ bit_or q q' = omega arith in rw (z, z', a, b, c)
bit_or_split (suc k) q r q' r' h h' = ground (
  arith,
  bit_or_halves (q * 2 ^ suc k + r) (q' * 2 ^ suc k + r'),
  bit_or_halves r r',
  shift_once q k,
  shift_once q' k,
  shift_once (bit_or q q') k,
  pow-suc 2 k,
  bit_or_split k q (r / 2) q' (r' / 2),
)

pub bit_and_split :
    (k q r q' r' : ℕ)
    → r < 2 ^ k
    → r' < 2 ^ k
    → bit_and (q * 2 ^ k + r) (q' * 2 ^ k + r') ≡ bit_and q q' * 2 ^ k + bit_and r r'
bit_and_split zero q r q' r' h h' =
    let z : r ≡ 0 = omega arith in
    let z' : r' ≡ 0 = omega arith in
    let a : q * 1 + 0 ≡ q = omega arith in
    let b : q' * 1 + 0 ≡ q' = omega arith in
    let c : bit_and q q' * 1 + 0 ≡ bit_and q q' = omega arith in rw (z, z', a, b, c)
bit_and_split (suc k) q r q' r' h h' = ground (
  arith,
  bit_and_halves (q * 2 ^ suc k + r) (q' * 2 ^ suc k + r'),
  bit_and_halves r r',
  shift_once q k,
  shift_once q' k,
  shift_once (bit_and q q') k,
  pow-suc 2 k,
  bit_and_split k q (r / 2) q' (r' / 2),
)

-- A field shifted left by `k` bits and one that fits these bits are added up by `|`.
pub bit_or_fields : (k q r : ℕ) → r < 2 ^ k → bit_or (q * 2 ^ k) r ≡ q * 2 ^ k + r
bit_or_fields k q r fits =
    let left : q * 2 ^ k + 0 ≡ q * 2 ^ k = omega arith in
    let right : 0 * 2 ^ k + r ≡ r = omega arith in
    ap₂ bit_or (sym left) (sym right)
    ∙ bit_or_split k q 0 0 r (omega arith) fits
    ∙ ap₂ (λ x y. x * 2 ^ k + y) (bit_or-zero q) (bit_or_comm 0 r ∙ bit_or-zero r)

all_ones : (k r : ℕ) → r < 2 ^ k → bit_and r (2 ^ k - 1) ≡ r
all_ones zero r h = bit_and-zero r ∙ omega arith
all_ones (suc k) r h =
    let power = pow-suc 2 k in
    let some_left = one-le-pow k 2 (omega arith) in
    let half_mask : (2 ^ suc k - 1) / 2 ≡ 2 ^ k - 1 = omega (arith, power, some_left) in
    let odd : (2 ^ suc k - 1) % 2 ≡ 1 = omega (arith, power, some_left) in
    let halved = ap (bit_and (r / 2)) half_mask ∙ all_ones k (r / 2) (omega (arith, power)) in
    omega (arith, bit_and_halves r (2 ^ suc k - 1), halved, odd)

-- What `&` with `k` ones leaves is the remainder by `2 ^ k`.
pub bit_and_mask : (k a : ℕ) → bit_and a (2 ^ k - 1) ≡ a % 2 ^ k
bit_and_mask k a =
    let some_left = one-le-pow k 2 (omega arith) in
    let high = a / 2 ^ k in
    let low = a % 2 ^ k in
    let below : low < 2 ^ k = mod-lt a some_left in
    let whole : high * 2 ^ k + low ≡ a =
      ap (λ x. x + low) (mul_comm high (2 ^ k)) ∙ div_any a (2 ^ k) in
    let ones : 0 * 2 ^ k + (2 ^ k - 1) ≡ 2 ^ k - 1 = omega arith in
    ap₂ bit_and (sym whole) (sym ones)
    ∙ bit_and_split k high low 0 (2 ^ k - 1) below (omega (arith, some_left))
    ∙ ap₂ (λ x y. x * 2 ^ k + y) (bit_and-zero high) (all_ones k low below)
    ∙ omega arith

-- `|` of two numbers below `2 ^ k` stays below it.
pub bit_or-lt : (k a b : ℕ) → a < 2 ^ k → b < 2 ^ k → bit_or a b < 2 ^ k
bit_or-lt zero a b h h' =
    let z : a ≡ 0 = omega arith in let z' : b ≡ 0 = omega arith in rw (z, z') (omega arith)
bit_or-lt (suc k) a b h h' = omega (
  arith,
  bit_or_halves a b,
  pow-suc 2 k,
  bit_or-lt k (a / 2) (b / 2) (omega (arith, pow-suc 2 k)) (omega (arith, pow-suc 2 k)),
)

-- `&` with the mask 0xfffff000 clears the low 12 bits of a 32-bit number.
pub bit_and_page : (x : ℕ) → x < 2 ^ 32 → bit_and x 0xfffff000 ≡ x / 4096 * 4096
bit_and_page x h = omega (
  arith,
  bit_and_split 12 (x / 4096) (x % 4096) 0xfffff 0 (omega arith) (omega arith),
  ap (λ y. bit_and y 0xfffff000) (div_add x),
  bit_and_mask 20 (x / 4096),
  bit_and-zero (x % 4096),
)
  where
    div_add : (y : ℕ) → y ≡ y / 4096 * 4096 + y % 4096
    div_add y = omega arith

-- The mask 0xfffffff0, for the low 4 bits.
pub bit_and_16 : (x : ℕ) → x < 2 ^ 32 → bit_and x 0xfffffff0 ≡ x / 16 * 16
bit_and_16 x h = omega (
  arith,
  bit_and_split 4 (x / 16) (x % 16) 0xfffffff 0 (omega arith) (omega arith),
  ap (λ y. bit_and y 0xfffffff0) (div_add x),
  bit_and_mask 28 (x / 16),
  bit_and-zero (x % 16),
)
  where
    div_add : (y : ℕ) → y ≡ y / 16 * 16 + y % 16
    div_add y = omega arith
