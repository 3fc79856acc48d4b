-- ===== src/Essentials.antt =====
-- src/kernel/essentials/essentials.c: the byte-wise memory routines. `size_t` counts are numbers below
-- 2 ^ 32; a loop recurs on the rounds that its counter leaves.
pub mod Fill
pub mod Copy
mod Tests
use gensis32os.Prelude.{◌==◌, if◌then◌else◌, u8, sub32, ℕ, zero, suc, ◌+◌, ◌*◌, ◌/◌, ◌%◌}
use gensis32os.Memory.{Mem, store, load32, store32}

-- `for(i = 0; src[i] && i < 99999; i++)`, `left` being 99999 - i. The byte is read before the bound
-- is tested.
str_len_loop : ℕ → Mem → ℕ → ℕ → ℕ
str_len_loop zero m src i = i
str_len_loop (suc left) m src i = if m (src + i) == 0 then i else str_len_loop left m src (i + 1)

pub get_str_len : Mem → ℕ → ℕ
unfolding str_len_loop
get_str_len m src = str_len_loop 99999 m src 0

-- The loop of `memset` at index `i`, with `n - i` rounds left.
unfoldable pub memset_loop : ℕ → Mem → (s c i : ℕ) → Mem
memset_loop zero m s c i = m
memset_loop (suc left) m s c i = memset_loop left (store m (s + i) (u8 c)) s c (i + 1)

pub memset : Mem → (s c n : ℕ) → Mem
unfolding memset_loop
memset m s c n = memset_loop n m s c 0

-- `s1[i] = val` over the words of the buffer.
memset_words : ℕ → Mem → (s val i : ℕ) → Mem
memset_words zero m s val i = m
memset_words (suc left) m s val i = memset_words left (store32 m (s + 4 * i) val) s val (i + 1)

-- `val` is a local, filled through a pointer to it: here address 0 of a memory of its own.
fast_val : ℕ → ℕ
unfolding memset
fast_val c = load32 (memset (λ _. 0) 0 c 4) 0

pub memset_fast : Mem → (s c n : ℕ) → Mem
unfolding memset_words fast_val memset
memset_fast m s c n = memset (memset_words (n / 4) m s (fast_val c) 0) (s + 4 * (n / 4)) c (n % 4)

pub gen_memset : Mem → (s c n : ℕ) → Mem
unfolding memset_fast memset
gen_memset m s c n = if s % 4 == 0 then memset_fast m s c n else memset m s c n

-- The `int` result is a 32-bit pattern: 0 when all `n` bytes agree.
pub memcmp : Mem → (s1 s2 n : ℕ) → ℕ
memcmp m s1 s2 zero = 0
memcmp m s1 s2 (suc n) =
    let rest = memcmp m (s1 + 1) (s2 + 1) n in if m s1 == m s2 then rest else sub32 (m s1) (m s2)

-- Bytes are read after the stores before them, so an overlap is the machine's.
pub memcpy : Mem → (dest src n : ℕ) → Mem
memcpy m dest src zero = m
memcpy m dest src (suc n) = memcpy (store m dest (m src)) (dest + 1) (src + 1) n
