-- ===== src/Essentials/Fill.antt =====
-- What `memset` and its fast versions write.
use gensis32os.Prelude.{
  ltb, leb, if◌then◌else◌, u8, ℕ, zero, suc, ◌+◌, ◌*◌, ◌/◌, ◌%◌, ◌^◌, ◌<◌, ◌≡◌, fun_ext, ◌&&◌,
  arith,
}
use gensis32os.Memory.{Mem, store, load32, store32}
use gensis32os.Essentials.{memset_loop, memset, memset_words, fast_val, memset_fast, gen_memset}

memset_loop-at :
    (left : ℕ) (m : Mem) (s c i a : ℕ)
    → memset_loop left m s c i a ≡ (if leb (s + i) a && ltb a (s + i + left) then u8 c else m a)
unfolding memset_loop store
memset_loop-at zero m s c i a = ground arith
memset_loop-at (suc left) m s c i a =
    ground (arith, memset_loop-at left (store m (s + i) (u8 c)) s c (i + 1) a)

-- `memset` writes the low byte of `c` to the `n` bytes from `s` on, and to no other address.
pub memset-at :
    (m : Mem) (s c n a : ℕ) → memset m s c n a ≡ (if leb s a && ltb a (s + n) then u8 c else m a)
unfolding memset
memset-at m s c n a = ground (arith, memset_loop-at n m s c 0 a)

fast_val-eq : (c : ℕ) → fast_val c ≡ u8 c + u8 c * 2 ^ 8 + u8 c * 2 ^ 16 + u8 c * 2 ^ 24
unfolding fast_val load32
fast_val-eq c = ground (
  arith,
  memset-at (λ _. 0) 0 c 4 0,
  memset-at (λ _. 0) 0 c 4 1,
  memset-at (λ _. 0) 0 c 4 2,
  memset-at (λ _. 0) 0 c 4 3,
)

store32-at :
    (m : Mem) (p b a : ℕ)
    → b < 256
    → store32 m p (b + b * 2 ^ 8 + b * 2 ^ 16 + b * 2 ^ 24) a
      ≡ (if leb p a && ltb a (p + 4) then b else m a)
unfolding store32 store
store32-at m p b a h = ground arith

memset_words-at :
    (left : ℕ) (m : Mem) (s b i a : ℕ)
    → b < 256
    → memset_words left m s (b + b * 2 ^ 8 + b * 2 ^ 16 + b * 2 ^ 24) i a
      ≡ (if leb (s + 4 * i) a && ltb a (s + 4 * (i + left)) then b else m a)
unfolding memset_words
memset_words-at zero m s b i a h = ground arith
memset_words-at (suc left) m s b i a h =
    let v = b + b * 2 ^ 8 + b * 2 ^ 16 + b * 2 ^ 24 in
    ground (
      arith,
      memset_words-at left (store32 m (s + 4 * i) v) s b (i + 1) a h,
      store32-at m (s + 4 * i) b a h,
    )

pub memset_fast-at :
    (m : Mem) (s c n a : ℕ)
    → memset_fast m s c n a ≡ (if leb s a && ltb a (s + n) then u8 c else m a)
unfolding memset_fast
memset_fast-at m s c n a = ground (
  arith,
  fast_val-eq c,
  memset_words-at (n / 4) m s (u8 c) 0 a (omega arith),
  memset-at (memset_words (n / 4) m s (fast_val c) 0) (s + 4 * (n / 4)) c (n % 4) a,
)

-- The word-wise `gen_memset` leaves exactly the memory that `memset` leaves, aligned or not.
pub gen_memset-eq-memset : (m : Mem) (s c n : ℕ) → gen_memset m s c n ≡ memset m s c n
unfolding gen_memset
gen_memset-eq-memset m s c n =
    fun_ext λ a. ground (arith, memset_fast-at m s c n a, memset-at m s c n a)
