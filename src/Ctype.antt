-- ===== src/Ctype.antt =====
-- src/kernel/ctype/ctype.c. A `char` is its byte; a byte of 128 or more is a negative `char` and lies in
-- none of the ranges. Results 1 and 0 are Booleans.
pub mod Laws
use gensis32os.Prelude.{leb, ◌==◌, if◌then◌else◌, sub32, ℕ, bit_and, bit_or, Bool, ◌&&◌, ◌||◌}
use gensis32os.Strings.{int_of_char}

pub isalpha : ℕ → Bool
isalpha c = leb 65 c && leb c 90 || leb 97 c && leb c 122

pub isdigit : ℕ → Bool
isdigit c = leb 48 c && leb c 57

pub isalnum : ℕ → Bool
unfolding isalpha isdigit
isalnum c = isalpha c || isdigit c

pub isspace : ℕ → Bool
isspace c = c == 32 || leb 9 c && leb c 13

-- `c & ~0x20` in the byte: bit 5 is cleared.
pub toupper : ℕ → ℕ
toupper c = if leb 97 c && leb c 122 then bit_and c 0xdf else c

pub tolower : ℕ → ℕ
tolower c = if leb 65 c && leb c 90 then bit_or c 0x20 else c

pub isupper : ℕ → Bool
isupper c = leb 65 c && leb c 90

pub islower : ℕ → Bool
islower c = leb 97 c && leb c 122

-- The `int` as a 32-bit pattern.
pub char_to_int : ℕ → ℕ
char_to_int c = sub32 (int_of_char c) 48
