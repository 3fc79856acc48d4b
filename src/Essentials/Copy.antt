-- ===== src/Essentials/Copy.antt =====
-- What `memcpy` copies, and what `memcmp` and `get_str_len` report.
use gensis32os.Prelude.{
  ltb, leb, if◌then◌else◌, eq_or_ne, ℕ, zero, suc, ◌+◌, ◌-◌, ◌≤◌, ◌<◌, min, ◌≡◌, refl, ◌∙◌, ◌≢◌,
  ◌↔◌, ◌⊎◌, inl, inr, ◌&&◌, arith,
}
use native.Mathlib.Nat.{add-zero}
use gensis32os.Memory.{Mem, IsBytes, store}
use gensis32os.Essentials.{memcpy, memcmp, get_str_len, str_len_loop}

-- If the destination does not start inside the source, `memcpy` moves the `n` bytes that the source
-- held before the call, in order, and changes no byte outside the destination.
pub memcpy-at :
    (m : Mem) (dest src n a : ℕ)
    → (dest ≤ src) ⊎ (src + n ≤ dest)
    → memcpy m dest src n a ≡ (if leb dest a && ltb a (dest + n) then m (src + (a - dest)) else m a)
unfolding memcpy store
memcpy-at m dest src zero a h = ground arith
memcpy-at m dest src (suc n) a h =
    ground (arith, memcpy-at (store m dest (m src)) (dest + 1) (src + 1) n a (omega arith))

pub memcpy-inside :
    (m : Mem) (dest src n i : ℕ)
    → (dest ≤ src) ⊎ (src + n ≤ dest)
    → i < n
    → memcpy m dest src n (dest + i) ≡ m (src + i)
memcpy-inside m dest src n i h p =
    let back : dest + i - dest ≡ i = omega arith in
    ground (arith, memcpy-at m dest src n (dest + i) h, back)

pub memcpy-outside :
    (m : Mem) (dest src n a : ℕ)
    → (dest ≤ src) ⊎ (src + n ≤ dest)
    → (a < dest) ⊎ (dest + n ≤ a)
    → memcpy m dest src n a ≡ m a
memcpy-outside m dest src n a h p = ground (arith, memcpy-at m dest src n a h)

memcmp-agree :
    (m : Mem) (bytes : IsBytes m) (n s1 s2 : ℕ)
    → memcmp m s1 s2 n ≡ 0
    → (i : ℕ) → i < n
    → m (s1 + i) ≡ m (s2 + i)
unfolding memcmp
memcmp-agree m bytes zero s1 s2 e i h = absurd (omega arith)
memcmp-agree m bytes (suc n) s1 s2 e zero h =
    ground (arith, bytes s1, bytes s2, add-zero s1, add-zero s2)
memcmp-agree m bytes (suc n) s1 s2 e (suc i) h = ground (
  arith,
  bytes s1,
  bytes s2,
  memcmp-agree m bytes n (s1 + 1) (s2 + 1),
  memcmp-agree m bytes n (s1 + 1) (s2 + 1) (ground (arith, bytes s1, bytes s2)) i,
)

memcmp-same :
    (m : Mem) (n s1 s2 : ℕ) → ((i : ℕ) → i < n → m (s1 + i) ≡ m (s2 + i)) → memcmp m s1 s2 n ≡ 0
unfolding memcmp
memcmp-same m zero s1 s2 h = refl
memcmp-same m (suc n) s1 s2 h = ground (
  arith,
  add-zero s1,
  add-zero s2,
  h 0 (omega arith),
  memcmp-same m n (s1 + 1) (s2 + 1) (λ i q. ground (arith, h (suc i) (omega arith))),
)

-- `memcmp` returns 0 exactly when the `n` bytes of the two buffers agree one by one.
pub memcmp-eq-zero_iff :
    (m : Mem) (s1 s2 n : ℕ)
    → IsBytes m
    → (memcmp m s1 s2 n ≡ 0) ↔ ((i : ℕ) → i < n → m (s1 + i) ≡ m (s2 + i))
memcmp-eq-zero_iff m s1 s2 n bytes = (memcmp-agree m bytes n s1 s2, memcmp-same m n s1 s2)

str_len_loop-eq :
    (left : ℕ) (m : Mem) (src i n : ℕ)
    → i ≤ n
    → ((j : ℕ) → i ≤ j → j < n → m (src + j) ≢ 0)
    → (m (src + n) ≡ 0) ⊎ (i + left ≤ n)
    → str_len_loop left m src i ≡ min n (i + left)
unfolding str_len_loop
str_len_loop-eq zero m src i n p full stop = omega arith
str_len_loop-eq (suc left) m src i n p full stop = elim (eq_or_ne i n) [
  | inl e ↦ elim stop [ inl z ↦ ground (arith, z) | inr q ↦ absurd (omega arith) ]
  | inr ne ↦ ground (
    arith,
    full i (omega arith) (omega arith),
    str_len_loop-eq left m src (i + 1) n (omega arith) (λ j a b. full j (omega arith) b)
        (elim stop [ inl z ↦ inl z | inr q ↦ inr (omega arith) ]),
  )
]

-- On a text of fewer than 99999 characters `get_str_len` returns its length; on a longer one, 99999.
pub get_str_len-eq :
    (m : Mem) (src n : ℕ)
    → ((i : ℕ) → i < n → m (src + i) ≢ 0)
    → (m (src + n) ≡ 0) ⊎ (99999 ≤ n)
    → get_str_len m src ≡ min n 99999
unfolding get_str_len
get_str_len-eq m src n full stop =
    str_len_loop-eq 99999 m src 0 n (omega arith) (λ j a b. full j b)
      (elim stop [ inl z ↦ inl z | inr q ↦ inr (omega arith) ])
    ∙ omega arith
