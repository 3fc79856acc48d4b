-- ===== src/Strings.antt =====
-- src/kernel/string/string.c: C strings in memory. A `char` is signed on this target; its byte is the
-- pattern. A loop that runs to a terminator has fuel, and `none` means that it ran out.
mod Tests
pub mod Length
pub mod Copy
pub mod Compare
use gensis32os.Prelude.{
  ltb, ◌==◌, if◌then◌else◌, u32, sub32, ℕ, zero, suc, ◌+◌, ◌-◌, ◌^◌, ◌<◌, ◌≡◌, ◌≢◌, ◌&&◌, not,
  Option, none, some,
}
use gensis32os.Memory.{Mem, store}

-- The text at `p` has `n` characters before its terminator.
pub record IsString (m : Mem) (p n : ℕ) : Type 0 where
  pub chars : (i : ℕ) → i < n → m (p + i) ≢ 0
  pub terminator : m (p + n) ≡ 0

-- `for(; *str; str++, n++);`
strlen_loop : (fuel : ℕ) → Mem → (str n : ℕ) → Option ℕ
strlen_loop zero m str n = none
strlen_loop (suc f) m str n =
    let rest = strlen_loop f m (str + 1) (u32 (n + 1)) in if m str == 0 then some n else rest

pub strlen : (fuel : ℕ) → Mem → (str : ℕ) → Option ℕ
unfolding strlen_loop
strlen f m str = strlen_loop f m str 0

-- The memory after the copy; the result in C is `dest`.
pub strcpy : (fuel : ℕ) → Mem → (dest src : ℕ) → Option Mem
strcpy zero m dest src = none
strcpy (suc f) m dest src =
    let rest = strcpy f (store m dest (m src)) (dest + 1) (src + 1) in
    if m src == 0 then some (store m dest 0) else rest

-- Where the first loop of `strncpy` stops: the memory, `dest` and `n`.
pub record Copied : Type 0 where
  pub mem : Mem
  pub dest : ℕ
  pub n : ℕ

-- `for(; *src && n--; src++, dest++) *dest = *src;` The test of `n` counts it down also when it is 0, and
-- `n` is unsigned.
pub strncpy_loop : (n : ℕ) → Mem → (dest src : ℕ) → Copied
strncpy_loop zero m dest src = record {
  mem = m;
  dest = dest;
  n = if m src == 0 then 0 else 2 ^ 32 - 1;
}
strncpy_loop (suc n) m dest src =
    let rest = strncpy_loop n (store m dest (m src)) (dest + 1) (src + 1) in
    if m src == 0 then record { mem = m; dest = dest; n = suc n } else rest

-- `while(n) { *dest = '\0'; dest++; n--; }`
pub zero_fill : (n : ℕ) → Mem → (dest : ℕ) → Mem
zero_fill zero m dest = m
zero_fill (suc n) m dest = zero_fill n (store m dest 0) (dest + 1)

pub strncpy : Mem → (dest src n : ℕ) → Mem
strncpy m dest src n = let c = strncpy_loop n m dest src in zero_fill c.n c.mem c.dest

-- `for(; i; i--, str++) if(!*str) return n - i;`
strnlen_loop : (i : ℕ) → Mem → (str n : ℕ) → ℕ
strnlen_loop zero m str n = n
strnlen_loop (suc i) m str n =
    let rest = strnlen_loop i m (str + 1) n in if m str == 0 then sub32 n (suc i) else rest

pub strnlen : Mem → (str n : ℕ) → ℕ
unfolding strnlen_loop
strnlen m str n = strnlen_loop n m str n

-- Here the characters are compared as `unsigned char`.
unfoldable pub strncmp : Mem → (s1 s2 n : ℕ) → ℕ
strncmp m s1 s2 zero = 0
strncmp m s1 s2 (suc n) =
    let rest = strncmp m (s1 + 1) (s2 + 1) n in
    if not (m s1 == m s2) then sub32 (m s1) (m s2) else if m s1 == 0 then 0 else rest

-- A `char` converted to `int`, as a 32-bit pattern.
abbrev pub int_of_char : ℕ → ℕ
int_of_char b = if ltb b 128 then b else 2 ^ 32 - 256 + b

-- Here the characters are compared as `char`.
pub strcmp : (fuel : ℕ) → Mem → (s1 s2 : ℕ) → Option ℕ
strcmp zero m s1 s2 = none
strcmp (suc f) m s1 s2 =
    let rest = strcmp f m (s1 + 1) (s2 + 1) in
    if m s1 == 0 && (m s2 == 0)
    then some 0
    else if not (m s1 == m s2)
    then some (sub32 (int_of_char (m s1)) (int_of_char (m s2)))
    else rest
