-- ===== src/Strings/Copy.antt =====
-- What `strcpy` and `strncpy` write.
use gensis32os.Strings.Length.{IsString-store, IsString-tail}
use native.Mathlib.Nat.{add-zero}
use gensis32os.Prelude.{
  ltb, leb, if◌then◌else◌, ℕ, zero, suc, ◌+◌, ◌-◌, ◌^◌, ◌≤◌, ◌<◌, min, ◌≡◌, ◌≢◌, ◌⊎◌, ◌&&◌, some,
  arith,
}
use gensis32os.Memory.{Mem, store}
use gensis32os.Strings.{IsString, strcpy, strncpy_loop, zero_fill, strncpy}

-- A destination that does not start inside the source text receives the text and its terminator, and no
-- other byte changes; fuel beyond the length is enough.
pub strcpy-at :
    (f : ℕ) (m : Mem) (dest src n : ℕ)
    → IsString m src n
    → n < f
    → (dest ≤ src) ⊎ (src + n < dest)
    → (m' : Mem) × (strcpy f m dest src ≡ some m')
      × ((a : ℕ) → m' a ≡ (if leb dest a && leb a (dest + n) then m (src + (a - dest)) else m a))
unfolding strcpy store
strcpy-at zero m dest src n s h apart = absurd (omega arith)
strcpy-at (suc f) m dest src zero s h apart =
    let end : m src ≡ 0 = ground (arith, s.terminator, add-zero src) in
    (store m dest 0, ground arith, λ a. ground (arith, add-zero src))
strcpy-at (suc f) m dest src (suc n) s h apart =
    let first : m src ≢ 0 = ground (arith, s.chars 0 (omega arith), add-zero src) in
    let (m', returns, at) =
      strcpy-at f (store m dest (m src)) (dest + 1) (src + 1) n
        (IsString-store dest (m src) (IsString-tail s) (omega arith)) (omega arith) (omega arith) in
    (m', ground (arith, returns), λ a. ground (arith, at a))

zero_fill-at :
    (n : ℕ) (m : Mem) (dest a : ℕ)
    → zero_fill n m dest a ≡ (if leb dest a && ltb a (dest + n) then 0 else m a)
unfolding zero_fill store
zero_fill-at zero m dest a = ground arith
zero_fill-at (suc n) m dest a = ground (arith, zero_fill-at n (store m dest 0) (dest + 1) a)

strncpy_loop-at :
    (n : ℕ) (m : Mem) (dest src l : ℕ)
    → IsString m src l
    → (dest ≤ src) ⊎ (src + l < dest)
    → let c = strncpy_loop n m dest src in
      (c.dest ≡ dest + min l n)
      × (c.n ≡ (if leb l n then n - l else 2 ^ 32 - 1))
      × ((a : ℕ)
          → c.mem a ≡ (if leb dest a && ltb a (dest + min l n) then m (src + (a - dest)) else m a))
unfolding strncpy_loop store
strncpy_loop-at zero m dest src zero s apart =
    let end : m src ≡ 0 = ground (arith, s.terminator, add-zero src) in
    (ground arith, ground arith, λ a. ground arith)
strncpy_loop-at zero m dest src (suc l) s apart =
    let first : m src ≢ 0 = ground (arith, s.chars 0 (omega arith), add-zero src) in
    (ground arith, ground arith, λ a. ground arith)
strncpy_loop-at (suc n) m dest src zero s apart =
    let end : m src ≡ 0 = ground (arith, s.terminator, add-zero src) in
    (ground arith, ground arith, λ a. ground arith)
strncpy_loop-at (suc n) m dest src (suc l) s apart =
    let first : m src ≢ 0 = ground (arith, s.chars 0 (omega arith), add-zero src) in
    let rest =
      strncpy_loop-at n (store m dest (m src)) (dest + 1) (src + 1) l
        (IsString-store dest (m src) (IsString-tail s) (omega arith)) (omega arith) in
    (ground (arith, rest.0), ground (arith, rest.1), λ a. ground (arith, rest.2 a))

-- `strncpy` of a text that fits the count: the text is copied, the rest of the `n` bytes is zeroed, and no
-- other byte changes.
pub strncpy-at :
    (m : Mem) (dest src n l a : ℕ)
    → IsString m src l
    → l ≤ n
    → (dest ≤ src) ⊎ (src + l < dest)
    → strncpy m dest src n a ≡ (
        if leb dest a && ltb a (dest + l)
        then m (src + (a - dest))
        else if leb dest a && ltb a (dest + n)
        then 0
        else m a)
unfolding strncpy
strncpy-at m dest src n l a s fits apart =
    let c = strncpy_loop n m dest src in
    let r = strncpy_loop-at n m dest src l s apart in
    ground (arith, r.0, r.1, r.2 a, zero_fill-at c.n c.mem c.dest a)

-- `strncpy` of a text longer than the count: after the `n` characters it goes on to zero 2 ^ 32 - 1 bytes
-- behind them, whatever `n` is, because the test of the count wraps it around.
pub strncpy_overrun :
    (m : Mem) (dest src n l a : ℕ)
    → IsString m src l
    → n < l
    → (dest ≤ src) ⊎ (src + l < dest)
    → dest + n ≤ a
    → a < dest + n + (2 ^ 32 - 1)
    → strncpy m dest src n a ≡ 0
unfolding strncpy
strncpy_overrun m dest src n l a s long apart lo hi =
    let c = strncpy_loop n m dest src in
    let r = strncpy_loop-at n m dest src l s apart in
    ground (arith, r.0, r.1, zero_fill-at c.n c.mem c.dest a)
