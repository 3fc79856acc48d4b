-- ===== src/Console/Numbers.antt =====
-- How numbers are printed in hexadecimal.
use gensis32os.Prelude.Bits.{bit_and_mask}
use gensis32os.Prelude.{
  u8, u16, u32, ◌>>>◌, ℕ, zero, suc, ◌+◌, ◌/◌, ◌%◌, ◌^◌, bit_and, ◌≡◌, refl, sym, ap, ap₂, ◌∙◌,
  List, [], ◌∷◌, ◌++◌, arith,
}
use gensis32os.Console.{Screen, print_char, print, hex, print_hex, print_16, print_32, print_64}

print-append : (a b : List ℕ) (s : Screen) → print s (a ++ b) ≡ print (print s a) b
unfolding print
print-append [] b s = refl
print-append (letter ∷ a) b s = print-append a b (print_char s letter)

-- The last `n` hexadecimal digits, the most significant first.
pub digits : (n v : ℕ) → List ℕ
digits zero v = []
digits (suc n) v = hex (v / 16 ^ n % 16) ∷ digits n v

print_hex-digits : (s : Screen) (b : ℕ) → print_hex s b ≡ print s (digits 2 b)
unfolding print_hex digits
print_hex-digits s b =
    ap₂ (λ x y. print s (hex x ∷ hex y ∷ [])) (omega (arith, bit_and_mask 4 (b >>> 4)))
      (omega (arith, bit_and_mask 4 b))

digit : {a b : ℕ} {l m : List ℕ} → a ≡ b → l ≡ m → hex a ∷ l ≡ hex b ∷ m
digit p q = ap₂ (λ x y. hex x ∷ y) p q

join_2 :
    (v : ℕ) → digits 2 (u8 (bit_and (v >>> 8) 0xff)) ++ digits 2 (u8 (bit_and v 0xff)) ≡ digits 4 v
unfolding digits
join_2 v =
    let lo = bit_and_mask 8 v in
    let hi = bit_and_mask 8 (v >>> 8) in
    digit (omega (arith, hi))
      (digit (omega (arith, hi)) (digit (omega (arith, lo)) (digit (omega (arith, lo)) refl)))

join_4 :
    (v : ℕ)
    → digits 4 (u16 (bit_and (v >>> 16) 0xffff)) ++ digits 4 (u16 (bit_and v 0xffff)) ≡ digits 8 v
unfolding digits
join_4 v =
    let lo = bit_and_mask 16 v in
    let hi = bit_and_mask 16 (v >>> 16) in
    digit (omega (arith, hi)) (
      digit (omega (arith, hi)) (
        digit (omega (arith, hi)) (
          digit (omega (arith, hi)) (
            digit (omega (arith, lo)) (
              digit (omega (arith, lo))
                (digit (omega (arith, lo)) (digit (omega (arith, lo)) refl)))))))

join_8 :
    (v : ℕ)
    → digits 8 (u32 (bit_and (v >>> 32) 0xffffffff)) ++ digits 8 (u32 (bit_and v 0xffffffff))
      ≡ digits 16 v
unfolding digits
join_8 v =
    let lo = bit_and_mask 32 v in
    let hi = bit_and_mask 32 (v >>> 32) in
    digit (omega (arith, hi)) (
      digit (omega (arith, hi)) (
        digit (omega (arith, hi)) (
          digit (omega (arith, hi)) (
            digit (omega (arith, hi)) (
              digit (omega (arith, hi)) (
                digit (omega (arith, hi)) (
                  digit (omega (arith, hi)) (
                    digit (omega (arith, lo)) (
                      digit (omega (arith, lo)) (
                        digit (omega (arith, lo)) (
                          digit (omega (arith, lo)) (
                            digit (omega (arith, lo)) (
                              digit (omega (arith, lo)) (
                                digit (omega (arith, lo))
                                  (digit (omega (arith, lo)) refl)))))))))))))))

-- Two halves one after the other.
print_halves :
    (n : ℕ) (half : Screen → ℕ → Screen) (s : Screen) (hi lo v : ℕ)
    → ((t : Screen) (b : ℕ) → half t b ≡ print t (digits n b))
    → digits n hi ++ digits n lo ≡ digits (n + n) v
    → half (half s hi) lo ≡ print s (digits (n + n) v)
print_halves n half s hi lo v each joined =
    each (half s hi) lo
    ∙ ap (λ t. print t (digits n lo)) (each s hi)
    ∙ sym (print-append (digits n hi) (digits n lo) s)
    ∙ ap (print s) joined

print_16-digits : (s : Screen) (v : ℕ) → print_16 s v ≡ print s (digits 4 v)
unfolding print_16
print_16-digits s v =
    print_halves 2 print_hex s (u8 (bit_and (v >>> 8) 0xff)) (u8 (bit_and v 0xff)) v
      print_hex-digits (join_2 v)

print_32-digits : (s : Screen) (v : ℕ) → print_32 s v ≡ print s (digits 8 v)
unfolding print_32
print_32-digits s v =
    print_halves 4 print_16 s (u16 (bit_and (v >>> 16) 0xffff)) (u16 (bit_and v 0xffff)) v
      print_16-digits (join_4 v)

-- `print_64` prints the 16 hexadecimal digits of its argument, the most significant first, with leading zeros.
pub print_64-digits : (s : Screen) (v : ℕ) → print_64 s v ≡ print s (digits 16 v)
unfolding print_64
print_64-digits s v =
    print_halves 8 print_32 s (u32 (bit_and (v >>> 32) 0xffffffff)) (u32 (bit_and v 0xffffffff)) v
      print_32-digits (join_8 v)
