-- ===== src/Memory.antt =====
-- Physical memory as the kernel sees it: a byte at every address. Every pointer of the C code is
-- a plain address, so aliasing is that of the machine; the address of an array element is the plain
-- sum of its base and offset. Multi-byte values are little-endian, as on x86.
use gensis32os.Prelude.{◌==◌, if◌then◌else◌, u8, ℕ, ◌+◌, ◌*◌, ◌/◌, ◌^◌, ◌≤◌, ◌<◌, ◌≡◌, ◌≢◌, arith}

abbrev pub Mem : Type 0
Mem = ℕ → ℕ

-- `*(uint8_t*)a = v`
unfoldable pub store : Mem → ℕ → ℕ → Mem
store m a v b = if b == a then v else m b

-- `*(uint16_t*)a` and `*(uint32_t*)a`, and the stores of two and four bytes.
unfoldable pub load16 : Mem → ℕ → ℕ
load16 m a = m a + m (a + 1) * 2 ^ 8

unfoldable pub load32 : Mem → ℕ → ℕ
load32 m a = m a + m (a + 1) * 2 ^ 8 + m (a + 2) * 2 ^ 16 + m (a + 3) * 2 ^ 24

unfoldable pub store16 : Mem → ℕ → ℕ → Mem
store16 m a v = store (store m a (u8 v)) (a + 1) (u8 (v / 2 ^ 8))

unfoldable pub store32 : Mem → ℕ → ℕ → Mem
store32 m a v =
    store (store (store (store m a (u8 v)) (a + 1) (u8 (v / 2 ^ 8))) (a + 2) (u8 (v / 2 ^ 16)))
      (a + 3) (u8 (v / 2 ^ 24))

pub store_self : (m : Mem) (a v : ℕ) → store m a v a ≡ v
unfolding store
store_self m a v = ground arith

pub store_ne : (m : Mem) (a v b : ℕ) → b ≢ a → store m a v b ≡ m b
unfolding store
store_ne m a v b h = ground arith

-- Every cell holds a byte.
abbrev pub IsBytes : Mem → Type 0
IsBytes m = (a : ℕ) → m a < 256

pub store-IsBytes : (m : Mem) (a v : ℕ) → IsBytes m → v < 256 → IsBytes (store m a v)
unfolding store
store-IsBytes m a v h hv b = ground (arith, h b)

pub load32-store32 : (m : Mem) (a v : ℕ) → v < 2 ^ 32 → load32 (store32 m a v) a ≡ v
unfolding load32 store32 store
load32-store32 m a v h = ground arith

pub store32_ne :
    (m : Mem) (a v b : ℕ) → b ≢ a → b ≢ a + 1 → b ≢ a + 2 → b ≢ a + 3 → store32 m a v b ≡ m b
unfolding store32 store
store32_ne m a v b h0 h1 h2 h3 = ground arith

pub load32-lt : (m : Mem) (a : ℕ) → IsBytes m → load32 m a < 2 ^ 32
unfolding load32
load32-lt m a h = omega (arith, h a, h (a + 1), h (a + 2), h (a + 3))

pub load32-frame :
    (m m' : Mem) (p : ℕ) → ((a : ℕ) → p ≤ a → a < p + 4 → m' a ≡ m a) → load32 m' p ≡ load32 m p
unfolding load32
load32-frame m m' p same = ground (
  arith,
  same p (omega arith) (omega arith),
  same (p + 1) (omega arith) (omega arith),
  same (p + 2) (omega arith) (omega arith),
  same (p + 3) (omega arith) (omega arith),
)

pub load16-store16 : (m : Mem) (a v : ℕ) → v < 2 ^ 16 → load16 (store16 m a v) a ≡ v
unfolding load16 store16 store
load16-store16 m a v h = ground arith

pub store16_ne : (m : Mem) (a v b : ℕ) → b ≢ a → b ≢ a + 1 → store16 m a v b ≡ m b
unfolding store16 store
store16_ne m a v b h0 h1 = ground arith

pub load16-frame :
    (m m' : Mem) (p : ℕ) → m' p ≡ m p → m' (p + 1) ≡ m (p + 1) → load16 m' p ≡ load16 m p
unfolding load16
load16-frame m m' p h0 h1 = ground (arith, h0, h1)

-- A write to the block of values at an address.
unfoldable pub put_block {ℓ} : {A : Type ℓ} → (ℕ → A) → (at : ℕ) → A → ℕ → A
put_block f at a x = if x == at then a else f x
