-- ===== src/Console.antt =====
-- The screen of src/kernel/kernel.c: 80 by 25 cells of 16 bits at 0xb8000 and a cursor. `cells` is the memory from
-- there on, by words, so an index from 2000 up is outside the screen; a text is the list of its characters.
mod Tests
pub mod Scroll
pub mod Print
pub mod Numbers
use gensis32os.Prelude.{
  ltb, ◌==◌, if◌then◌else◌, u8, u16, u32, ◌<<<◌, ◌>>>◌, ℕ, zero, suc, ◌+◌, ◌*◌, bit_and, bit_or,
  Bool, false, List, [], ◌∷◌,
}
use gensis32os.Strings.{int_of_char}

-- `vedio`, `cursor_x` and `cursor_y`
pub record Screen : Type 0 where
  pub cells : ℕ → ℕ
  pub cursor_x : ℕ
  pub cursor_y : ℕ

abbrev pub vga_height : ℕ
vga_height = 25

abbrev pub vga_width : ℕ
vga_width = 80

-- `vedio[i] = v`
unfoldable pub put : (ℕ → ℕ) → (i v : ℕ) → ℕ → ℕ
put c i v k = if k == i then v else c k

pub text_mode_hex_gen : (letter fg bg : ℕ) → (blink : Bool) → ℕ
text_mode_hex_gen letter fg bg blink =
    let r1 = u16 ((if blink then 1 else 0) <<< 3) in
    let r2 = u16 (bit_or r1 (bit_and bg 0x0007) <<< 4) in
    let r3 = u16 (bit_or r2 (bit_and fg 0x000f) <<< 8) in u16 (bit_or r3 (int_of_char letter))

-- Both are `char`, so a letter from 0x80 up sets the whole colour byte.
pub simp_text_hex_gen : (letter color : ℕ) → ℕ
simp_text_hex_gen letter color = u16 (bit_or (u32 (int_of_char color <<< 8)) (int_of_char letter))

-- `for(int j=0;j<79;j++) vedio[(i*80)+j]=vedio[((i+1)*80) +j]`
pub scroll_row : (left : ℕ) → (i j : ℕ) → (ℕ → ℕ) → ℕ → ℕ
scroll_row zero i j c = c
scroll_row (suc left) i j c = scroll_row left i (j + 1) (put c (i * 80 + j) (c ((i + 1) * 80 + j)))

pub scroll_rows : (left : ℕ) → (columns i : ℕ) → (ℕ → ℕ) → ℕ → ℕ
scroll_rows zero columns i c = c
scroll_rows (suc left) columns i c = scroll_rows left columns (i + 1) (scroll_row columns i 0 c)

-- `for(...) vedio[i]=v` for `left` indices from `i`.
pub fill : (left : ℕ) → (i v : ℕ) → (ℕ → ℕ) → ℕ → ℕ
fill zero i v c = c
fill (suc left) i v c = fill left (i + 1) v (put c i v)

pub scroll1 : (ℕ → ℕ) → ℕ → ℕ
scroll1 c = fill 79 (24 * 79) 0 (scroll_rows 24 79 0 c)

pub clear_screen : Screen → Screen
clear_screen s = record {
  cells = fill (vga_height * vga_width) 0 0x0020 s.cells;
  cursor_x = 0;
  cursor_y = 0;
}

-- The loop of `print_string`, from index `i`.
pub print_string : List ℕ → (i : ℕ) → (ℕ → ℕ) → ℕ → ℕ
print_string [] i c = c
print_string (letter ∷ rest) i c =
    print_string rest (i + 1) (put c i (text_mode_hex_gen letter 3 0 false))

pub print_x_y : (letter x y color : ℕ) → (ℕ → ℕ) → ℕ → ℕ
print_x_y letter x y color c = put c (y * vga_width + x) (simp_text_hex_gen letter color)

-- `index` is a `uint16_t`.
pub print_string_at : List ℕ → (index color : ℕ) → (ℕ → ℕ) → ℕ → ℕ
print_string_at [] index color c = c
print_string_at (letter ∷ rest) index color c =
    print_string_at rest (u16 (index + 1)) color (put c index (simp_text_hex_gen letter color))

pub print_string_x_y : List ℕ → (x y color : ℕ) → (ℕ → ℕ) → ℕ → ℕ
print_string_x_y str x y color c = print_string_at str (u16 (vga_width * y + x)) color c

-- The start of the next row; on the last one the screen scrolls.
pub new_line : (ℕ → ℕ) → (y : ℕ) → Screen
new_line c y =
    if ltb y 24
    then record { cells = c; cursor_x = 0; cursor_y = y + 1 }
    else record { cells = scroll1 c; cursor_x = 0; cursor_y = y }

-- The switch of `print`; the counters are `uint16_t`.
pub print_char : Screen → (letter : ℕ) → Screen
print_char s letter =
    if letter == 10
    then new_line s.cells s.cursor_y
    else if letter == 9
    then record { cells = s.cells; cursor_x = u16 (s.cursor_x + 5); cursor_y = s.cursor_y }
    else let c = put s.cells (s.cursor_y * vga_width + s.cursor_x) (simp_text_hex_gen letter 15) in
      let x = u16 (s.cursor_x + 1) in
      if ltb 79 x
      then new_line c s.cursor_y
      else record { cells = c; cursor_x = x; cursor_y = s.cursor_y }

pub print : Screen → List ℕ → Screen
print s [] = s
print s (letter ∷ rest) = print (print_char s letter) rest

-- `hex[d]`
pub hex : (d : ℕ) → ℕ
hex d = if ltb d 10 then 48 + d else 87 + d

pub print_hex : Screen → (b : ℕ) → Screen
print_hex s b = print s (hex (bit_and (b >>> 4) 0xf) ∷ hex (bit_and b 0xf) ∷ [])

pub print_16 : Screen → (val : ℕ) → Screen
print_16 s val = print_hex (print_hex s (u8 (bit_and (val >>> 8) 0xff))) (u8 (bit_and val 0xff))

pub print_32 : Screen → (val : ℕ) → Screen
print_32 s val =
    print_16 (print_16 s (u16 (bit_and (val >>> 16) 0xffff))) (u16 (bit_and val 0xffff))

pub print_64 : Screen → (val : ℕ) → Screen
print_64 s val =
    print_32 (print_32 s (u32 (bit_and (val >>> 32) 0xffffffff))) (u32 (bit_and val 0xffffffff))
