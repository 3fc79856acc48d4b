-- ===== src/Strings/Length.antt =====
-- `strlen` and `strnlen` measure a string.
use native.Mathlib.Nat.{zero-add}
use native.Mathlib.Nat.{add-zero}
use gensis32os.Prelude.{
  u32, ℕ, zero, suc, ◌+◌, ◌-◌, ◌^◌, ◌≤◌, ◌<◌, min, ◌≡◌, ap, ◌∙◌, ◌≢◌, ◌⊎◌, inl, inr, some, arith,
}
use gensis32os.Memory.{Mem, store}
use gensis32os.Strings.{IsString, strlen, strnlen, strlen_loop, strnlen_loop}

pub IsString-tail : {m : Mem} {p n : ℕ} → IsString m p (suc n) → IsString m (p + 1) n
IsString-tail {m} {p} {n} s = record {
  chars = λ i h. ground (arith, s.chars (suc i) (omega arith));
  terminator = ground (arith, s.terminator);
}

pub IsString-store :
    {m : Mem} {p n : ℕ} (a v : ℕ)
    → IsString m p n
    → (a < p) ⊎ (p + n < a)
    → IsString (store m a v) p n
unfolding store
IsString-store {m} {p} {n} a v s apart = record {
  chars = λ i h. ground (arith, s.chars i h);
  terminator = ground (arith, s.terminator);
}

strlen_loop-eq :
    (f : ℕ) (m : Mem) (p k n : ℕ)
    → IsString m p n
    → n < f
    → k + n < 2 ^ 32
    → strlen_loop f m p k ≡ some (k + n)
unfolding strlen_loop
strlen_loop-eq zero m p k n s h w = absurd (omega arith)
strlen_loop-eq (suc f) m p k zero s h w = ground (arith, s.terminator, add-zero p, add-zero k)
strlen_loop-eq (suc f) m p k (suc n) s h w = ground (
  arith,
  s.chars 0 (omega arith),
  add-zero p,
  strlen_loop-eq f m (p + 1) (u32 (k + 1)) n (IsString-tail s) (omega arith) (omega arith),
)

-- `strlen` of a text of fewer than 2 ^ 32 characters is their number, and any fuel beyond it is enough.
pub strlen-eq :
    (f : ℕ) (m : Mem) (p n : ℕ) → IsString m p n → n < f → n < 2 ^ 32 → strlen f m p ≡ some n
unfolding strlen
strlen-eq f m p n s h w = strlen_loop-eq f m p 0 n s h (omega arith) ∙ ap (λ k. some k) (zero-add n)

strnlen_loop-eq :
    (i : ℕ) (m : Mem) (p n l : ℕ)
    → i ≤ n
    → n < 2 ^ 31
    → ((k : ℕ) → k < l → m (p + k) ≢ 0)
    → (m (p + l) ≡ 0) ⊎ (i ≤ l)
    → strnlen_loop i m p n ≡ n - i + min l i
unfolding strnlen_loop
strnlen_loop-eq zero m p n l h w full stop = omega arith
strnlen_loop-eq (suc i) m p n zero h w full stop = ground (arith, add-zero p)
strnlen_loop-eq (suc i) m p n (suc l) h w full stop = ground (
  arith,
  full 0 (omega arith),
  add-zero p,
  strnlen_loop-eq i m (p + 1) n l (omega arith) w
      (λ k q. ground (arith, full (suc k) (omega arith)))
      (elim stop [ inl z ↦ inl (ground arith) | inr q ↦ inr (omega arith) ]),
)

-- `strnlen` is the number of characters before the terminator, or `n` if that is less.
pub strnlen-eq :
    (m : Mem) (p n l : ℕ)
    → n < 2 ^ 31
    → ((k : ℕ) → k < l → m (p + k) ≢ 0)
    → (m (p + l) ≡ 0) ⊎ (n ≤ l)
    → strnlen m p n ≡ min l n
unfolding strnlen
strnlen-eq m p n l w full stop = omega (arith, strnlen_loop-eq n m p n l (omega arith) w full stop)
