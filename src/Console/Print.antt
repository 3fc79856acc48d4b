-- ===== src/Console/Print.antt =====
-- Where a text goes and what a cell holds.
use gensis32os.Strings.{int_of_char}
use gensis32os.Prelude.Bits.{bit_and_mask, bit_or_fields}
use gensis32os.Prelude.{
  if◌then◌else◌, lt_or_le, eq_or_ne, length, get_or, u16, ◌<<<◌, ℕ, suc, ◌+◌, ◌*◌, ◌%◌, ◌^◌, ◌≤◌,
  ◌<◌, bit_and, bit_or, ◌≡◌, refl, ap, ap₂, ◌∙◌, ◌≢◌, inl, inr, Bool, true, false, List, [], ◌∷◌,
  arith,
}
use gensis32os.Console.{
  Screen, text_mode_hex_gen, new_line, put, simp_text_hex_gen, print_char, print,
}
use gensis32os.Console.Scroll.{scroll1-at}

bit : (b : Bool) → (if b then 1 else 0) < 2
bit true = omega arith
bit false = omega arith

-- The bits of a cell: the letter, four bits of foreground, three of background and the blink bit.
pub text_mode_hex_gen-fields :
    (letter fg bg : ℕ) (blink : Bool)
    → letter < 128
    → text_mode_hex_gen letter fg bg blink
      ≡ letter + 2 ^ 8 * (fg % 16) + 2 ^ 12 * (bg % 8) + 2 ^ 15 * (if blink then 1 else 0)
unfolding text_mode_hex_gen
text_mode_hex_gen-fields letter fg bg blink h =
    let b : ℕ = if blink then 1 else 0 in
    let one : b < 2 = bit blink in
    let f1 = b * 8 + bg % 8 in
    let f2 = f1 * 16 + fg % 16 in
    let e1 : bit_or (u16 (b <<< 3)) (bit_and bg 7) ≡ f1 =
      ap₂ bit_or (omega (arith, one)) (bit_and_mask 3 bg)
      ∙ bit_or_fields 3 b (bg % 8) (omega arith) in
    let e2 : bit_or (u16 (f1 <<< 4)) (bit_and fg 15) ≡ f2 =
      ap₂ bit_or (omega (arith, one)) (bit_and_mask 4 fg)
      ∙ bit_or_fields 4 f1 (fg % 16) (omega arith) in
    let e3 : bit_or (u16 (f2 <<< 8)) (int_of_char letter) ≡ f2 * 256 + letter =
      ap₂ bit_or (omega (arith, one)) (ground arith) ∙ bit_or_fields 8 f2 letter (omega arith) in
    ap (λ x. u16 (bit_or (u16 (bit_or (u16 (x <<< 4)) (bit_and fg 15) <<< 8)) (int_of_char letter)))
      e1
    ∙ ap (λ x. u16 (bit_or (u16 (x <<< 8)) (int_of_char letter))) e2
    ∙ ap u16 e3
    ∙ omega (arith, one)

-- The cursor is on the screen.
abbrev pub OnScreen : Screen → Type 0
OnScreen s = (s.cursor_x < 80) × (s.cursor_y < 25)

-- The memory after the screen is left alone.
abbrev pub Bounded : (c c' : ℕ → ℕ) → Type 0
Bounded c c' = (k : ℕ) → 2000 ≤ k → c' k ≡ c k

new_line-OnScreen :
    (c : ℕ → ℕ) (y : ℕ) → y < 25 → OnScreen (new_line c y) × Bounded c (new_line c y).cells
unfolding new_line
new_line-OnScreen c y h = elim (lt_or_le y 24) [
  | inl lt ↦ ground arith
  | inr ge ↦ ground (arith, scroll1-at c)
]

print_char-OnScreen :
    (s : Screen) (letter : ℕ)
    → OnScreen s
    → letter ≢ 9
    → OnScreen (print_char s letter) × Bounded s.cells (print_char s letter).cells
unfolding print_char put
print_char-OnScreen s letter (x, y) ne =
    let c = put s.cells (s.cursor_y * 80 + s.cursor_x) (simp_text_hex_gen letter 15) in
    let (a, b) = new_line-OnScreen s.cells s.cursor_y y in
    let (a', b') = new_line-OnScreen c s.cursor_y y in
    elim (eq_or_ne letter 10) [
      | inl e ↦ rw (e) (a, b)
      | inr nl ↦ elim (lt_or_le s.cursor_x 79) [
        | inl lt ↦ ground (arith, ne, nl, lt, y)
        | inr ge ↦ ground (arith, a', b')
      ]
    ]

-- A text without tabs leaves the cursor on the screen, wherever on it it starts, and writes no cell after the
-- last of the screen.
pub print-OnScreen :
    (str : List ℕ) (s : Screen)
    → OnScreen s
    → ((i : ℕ) → i < length str → get_or str i 0 ≢ 9)
    → OnScreen (print s str) × Bounded s.cells (print s str).cells
unfolding print
print-OnScreen [] s on tabless = (on, λ k h. refl)
print-OnScreen (letter ∷ rest) s on tabless =
    let (on', b) = print_char-OnScreen s letter on (tabless 0 (omega arith)) in
    let (on'', b') =
      print-OnScreen rest (print_char s letter) on' (λ i h. tabless (suc i) (ground arith)) in
    (on'', λ k h. b' k h ∙ b k h)

print_char-tab :
    (s : Screen)
    → s.cursor_y ≡ 24
    → s.cursor_x + 5 < 2 ^ 16
    → print_char s 9 ≡ record { cells = s.cells; cursor_x = s.cursor_x + 5; cursor_y = 24 }
unfolding print_char
print_char-tab s y h = ground (arith, y)

print_char-beyond :
    (s : Screen) (letter : ℕ)
    → 2000 ≤ s.cursor_y * 80 + s.cursor_x
    → letter ≢ 9
    → letter ≢ 10
    → (print_char s letter).cells (s.cursor_y * 80 + s.cursor_x) ≡ simp_text_hex_gen letter 15
unfolding print_char new_line put
print_char-beyond s letter h t n =
    let c = put s.cells (s.cursor_y * 80 + s.cursor_x) (simp_text_hex_gen letter 15) in
    ground (arith, scroll1-at c (s.cursor_y * 80 + s.cursor_x))

-- A tab has no bound: from column 75 on of the last row it takes the cursor past the end of the screen, and the
-- next letter is written there.
pub print_tab-overrun :
    (s : Screen) (letter : ℕ)
    → s.cursor_y ≡ 24
    → 75 ≤ s.cursor_x
    → s.cursor_x < 80
    → letter ≢ 9
    → letter ≢ 10
    → let i = 24 * 80 + s.cursor_x + 5 in
      (2000 ≤ i) × ((print s (9 ∷ letter ∷ [])).cells i ≡ simp_text_hex_gen letter 15)
unfolding print
print_tab-overrun s letter y x x' t n =
    let tabbed : Screen = record { cells = s.cells; cursor_x = s.cursor_x + 5; cursor_y = 24 } in
    (
      omega arith,
      ap (λ r. (print_char r letter).cells (24 * 80 + s.cursor_x + 5))
            (print_char-tab s y (omega arith))
          ∙ ap (print_char tabbed letter).cells (omega arith)
          ∙ print_char-beyond tabbed letter (ground arith) t n,
    )
