-- ===== src/Strings/Compare.antt =====
-- When `strncmp` and `strcmp` report equality.
use gensis32os.Strings.Length.{IsString-tail}
use native.Mathlib.Nat.{add-zero}
use gensis32os.Prelude.{
  eq_or_ne, sub32, ℕ, zero, suc, ◌+◌, ◌-◌, ◌<◌, ◌≡◌, refl, ◌≢◌, ◌↔◌, inl, inr, some, arith,
}
use gensis32os.Memory.{Mem, IsBytes}
use gensis32os.Strings.{IsString, strncmp, strcmp, int_of_char}

-- The two texts agree on their first `n` characters, up to a terminator.
abbrev pub SamePrefix : Mem → (s1 s2 n : ℕ) → Type 0
SamePrefix m s1 s2 n =
    (i : ℕ) → i < n → ((k : ℕ) → k < i → m (s1 + k) ≢ 0) → m (s1 + i) ≡ m (s2 + i)

strncmp-same :
    (m : Mem) (bytes : IsBytes m) (n s1 s2 : ℕ) → strncmp m s1 s2 n ≡ 0 → SamePrefix m s1 s2 n
unfolding strncmp
strncmp-same m bytes zero s1 s2 e i h full = absurd (omega arith)
strncmp-same m bytes (suc n) s1 s2 e zero h full =
    ground (arith, bytes s1, bytes s2, add-zero s1, add-zero s2)
strncmp-same m bytes (suc n) s1 s2 e (suc i) h full =
    let first : m s1 ≢ 0 = ground (arith, full 0 (omega arith), add-zero s1) in
    let rest : strncmp m (s1 + 1) (s2 + 1) n ≡ 0 = ground (arith, bytes s1, bytes s2) in
    ground (
      arith,
      strncmp-same m bytes n (s1 + 1) (s2 + 1) rest i (omega arith)
          (λ k q. ground (arith, full (suc k) (omega arith))),
    )

pub strncmp-zero : (m : Mem) (n s1 s2 : ℕ) → SamePrefix m s1 s2 n → strncmp m s1 s2 n ≡ 0
unfolding strncmp
strncmp-zero m zero s1 s2 same = refl
strncmp-zero m (suc n) s1 s2 same =
    let first : m s1 ≡ m s2 =
      ground
        (arith, same 0 (omega arith) (λ k q. absurd (omega arith)), add-zero s1, add-zero s2) in
    elim (eq_or_ne (m s1) 0) [
      | inl end ↦ ground arith
      | inr more ↦ ground (
        arith,
        strncmp-zero m n (s1 + 1) (s2 + 1) (λ i q full. ground (
          arith,
          same (suc i) (omega arith) (λ k r. elim (eq_or_ne k 0) [
            | inl z ↦ ground (arith, z, more, add-zero s1)
            | inr ne ↦ ground (arith, full (k - 1) (omega arith))
          ]),
        )),
      )
    ]

-- `strncmp` returns 0 exactly when the texts agree on their first `n` characters, up to a terminator.
pub strncmp-eq-zero_iff :
    (m : Mem) (s1 s2 n : ℕ) → IsBytes m → (strncmp m s1 s2 n ≡ 0) ↔ SamePrefix m s1 s2 n
strncmp-eq-zero_iff m s1 s2 n bytes = (strncmp-same m bytes n s1 s2, strncmp-zero m n s1 s2)

-- The two texts have the same length and the same characters.
abbrev pub SameText : Mem → (s1 n1 s2 n2 : ℕ) → Type 0
SameText m s1 n1 s2 n2 = (n1 ≡ n2) × ((i : ℕ) → i < n1 → m (s1 + i) ≡ m (s2 + i))

char_diff-ne-zero :
    (a b : ℕ) → a < 256 → b < 256 → a ≢ b → sub32 (int_of_char a) (int_of_char b) ≢ 0
char_diff-ne-zero a b p q ne = ground arith

SameText-tail :
    (m : Mem) (s1 n1 s2 n2 : ℕ)
    → m s1 ≡ m s2
    → SameText m (s1 + 1) n1 (s2 + 1) n2 ↔ SameText m s1 (suc n1) s2 (suc n2)
SameText-tail m s1 n1 s2 n2 first = (
  (λ t. (
    omega (arith, t.0),
    λ i h. elim (eq_or_ne i 0) [
      | inl z ↦ ground (arith, z, add-zero s1, add-zero s2)
      | inr ne ↦ ground (arith, t.1 (i - 1) (omega arith))
    ],
  )),
  (λ t. (omega (arith, t.0), λ i h. ground (arith, t.1 (suc i) (omega arith)))),
)

-- `strcmp` of two texts always ends, and returns 0 exactly when they have the same length and the same
-- characters.
pub strcmp-eq-zero_iff :
    (f : ℕ) (m : Mem) (s1 s2 n1 n2 : ℕ)
    → IsBytes m
    → IsString m s1 n1
    → IsString m s2 n2
    → n1 < f
    → (r : ℕ) × (strcmp f m s1 s2 ≡ some r) × ((r ≡ 0) ↔ SameText m s1 n1 s2 n2)
unfolding strcmp
strcmp-eq-zero_iff zero m s1 s2 n1 n2 bytes t1 t2 h = absurd (omega arith)
strcmp-eq-zero_iff (suc f) m s1 s2 zero zero bytes t1 t2 h =
    let e1 : m s1 ≡ 0 = ground (arith, t1.terminator, add-zero s1) in
    let e2 : m s2 ≡ 0 = ground (arith, t2.terminator, add-zero s2) in
    (0, ground arith, ((λ z. (refl, λ i q. absurd (omega arith))), λ t. refl))
strcmp-eq-zero_iff (suc f) m s1 s2 zero (suc n2) bytes t1 t2 h =
    let e1 : m s1 ≡ 0 = ground (arith, t1.terminator, add-zero s1) in
    let e2 : m s2 ≢ 0 = ground (arith, t2.chars 0 (omega arith), add-zero s2) in
    let ne = char_diff-ne-zero (m s1) (m s2) (bytes s1) (bytes s2) (ground arith) in
    (
      sub32 (int_of_char (m s1)) (int_of_char (m s2)),
      ground arith,
      ((λ z. absurd (ne z)), λ t. absurd (omega (arith, t.0))),
    )
strcmp-eq-zero_iff (suc f) m s1 s2 (suc n1) zero bytes t1 t2 h =
    let e1 : m s1 ≢ 0 = ground (arith, t1.chars 0 (omega arith), add-zero s1) in
    let e2 : m s2 ≡ 0 = ground (arith, t2.terminator, add-zero s2) in
    let ne = char_diff-ne-zero (m s1) (m s2) (bytes s1) (bytes s2) (ground arith) in
    (
      sub32 (int_of_char (m s1)) (int_of_char (m s2)),
      ground arith,
      ((λ z. absurd (ne z)), λ t. absurd (omega (arith, t.0))),
    )
strcmp-eq-zero_iff (suc f) m s1 s2 (suc n1) (suc n2) bytes t1 t2 h =
    let e1 : m s1 ≢ 0 = ground (arith, t1.chars 0 (omega arith), add-zero s1) in
    elim (eq_or_ne (m s1) (m s2)) [
      | inl same ↦
          let (r, returns, iff) =
            strcmp-eq-zero_iff f m (s1 + 1) (s2 + 1) n1 n2 bytes (IsString-tail t1)
              (IsString-tail t2) (omega arith) in
          let tails = SameText-tail m s1 n1 s2 n2 same in
          (r, ground (arith, returns), ((λ z. tails.0 (iff.0 z)), λ t. iff.1 (tails.1 t)))
      | inr differ ↦
          let ne = char_diff-ne-zero (m s1) (m s2) (bytes s1) (bytes s2) differ in
          (
            sub32 (int_of_char (m s1)) (int_of_char (m s2)),
            ground arith,
            (
              (λ z. absurd (ne z)),
              λ t. absurd (differ (ground (arith, t.1 0 (omega arith), add-zero s1, add-zero s2))),
            ),
          )
    ]
