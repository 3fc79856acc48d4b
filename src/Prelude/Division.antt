-- ===== src/Prelude/Division.antt =====
-- Division as the multiple that is just below.
use native.Mathlib.Omega.{arith, div_any}
use native.Mathlib.Nat.{
  mod-lt, mul_comm, mul-add-div_right, div-eq_of_lt, mul-add-mod_self_right, mod-eq_of_lt,
}
use Prim.Native.Nat.{ℕ, ◌+◌, ◌*◌, ◌/◌, ◌%◌, ◌≤◌, ◌<◌}
use mathlib.Core.Path.{◌≡◌, ap, ◌∙◌}

pub div_between : (a b : ℕ) → 1 ≤ b → (a / b * b ≤ a) × (a < (a / b + 1) * b)
div_between a b h =
    let whole : a / b * b + a % b ≡ a = ap (λ n. n + a % b) (mul_comm (a / b) b) ∙ div_any a b in
    let next : (a / b + 1) * b ≡ a / b * b + b = grind arith in
    (omega (arith, whole), omega (arith, whole, next, mod-lt a h))

-- A number is `q * b + r` for one quotient and one remainder.
pub div_parts : (q r b : ℕ) → r < b → ((q * b + r) / b ≡ q) × ((q * b + r) % b ≡ r)
div_parts q r b h = (
  mul-add-div_right (omega arith) q r ∙ omega (arith, div-eq_of_lt h),
  mul-add-mod_self_right q b r ∙ mod-eq_of_lt h,
)
