-- ===== src/Ctype/Laws.antt =====
-- The case maps and the classes fit together, for every byte.
use gensis32os.Prelude.{
  ◌==◌, if◌then◌else◌, ℕ, ◌+◌, ◌-◌, ◌<◌, ◌≡◌, refl, ◌↔◌, ◌⊎◌, Bool, true, false, ◌&&◌, arith,
}
use gensis32os.Prelude.Bits.{holds_from, holds_from-at}
use gensis32os.Ctype.{
  isalpha, isdigit, isalnum, isspace, toupper, tolower, isupper, islower, char_to_int,
}

-- The laws of the case maps at one byte, as a test.
abbrev case_laws : ℕ → Bool
case_laws c =
    if isupper c
    then (tolower c == c + 32) && (toupper (tolower c) == c) && (toupper c == c)
    else if islower c
    then (toupper c == c - 32) && (tolower (toupper c) == c) && (tolower c == c)
    else (toupper c == c) && (tolower c == c)

case_table : holds_from 256 0 case_laws ≡ true
unfolding holds_from isupper islower toupper tolower
case_table = refl

-- The case maps shift a letter of the other case by 32 and fix every other byte; on letters each undoes
-- the other.
pub toupper-tolower :
    (c : ℕ)
    → c < 256
    → (isupper c ≡ true → (tolower c ≡ c + 32) × (toupper (tolower c) ≡ c))
      × (islower c ≡ true → (toupper c ≡ c - 32) × (tolower (toupper c) ≡ c))
      × (isalpha c ≡ false → (toupper c ≡ c) × (tolower c ≡ c))
unfolding isalpha isupper islower
toupper-tolower c h = ground (arith, holds_from-at 256 0 case_laws c case_table (omega arith) h)

-- A byte is alphanumeric exactly when it is an upper-case letter, a lower-case letter or a digit, and no
-- byte is two of these; white space is none of them.
pub isalnum-classes :
    (c : ℕ)
    → ((isalnum c ≡ true) ↔ ((isupper c ≡ true) ⊎ (islower c ≡ true) ⊎ (isdigit c ≡ true)))
      × (isspace c ≡ true → isalnum c ≡ false)
      × (isupper c ≡ true → (islower c ≡ false) × (isdigit c ≡ false))
      × (islower c ≡ true → isdigit c ≡ false)
unfolding isalnum isspace isupper islower isalpha isdigit
isalnum-classes c = ground arith

-- `char_to_int` of a digit is its value.
pub char_to_int-digit : (c : ℕ) → isdigit c ≡ true → (char_to_int c ≡ c - 48) × (char_to_int c < 10)
unfolding char_to_int isdigit
char_to_int-digit c h = ground arith
