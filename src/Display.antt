-- ===== src/Display.antt =====
-- src/display/display.c: the text screen. The video memory is a function from the index of a cell to
-- its 16 bits, and is kept apart from other memory, also behind the 32 KB that the hardware has of it;
-- row and column are 16-bit words, and sums wrap. The colour is a `char` that is not negative, as in all
-- calls.
use ras_os.CString.{strlen}
use ras_os.Base.{
  ◌-◌, ltb, ◌^◌, ◌*◌, ◌&&◌, ◌%◌, ◌∷◌, leb, bit_or, take, ◌+◌, ◌==◌, ℕ, if◌then◌else◌, List, [], suc,
  zero,
}
pub mod Cursor
pub mod Clear
mod Examples

abbrev pub vga_width : ℕ
vga_width = 80

abbrev pub vga_height : ℕ
vga_height = 20

pub record Terminal : Type 0 where
  pub video_mem : ℕ → ℕ
  pub row : ℕ
  pub col : ℕ

-- `c` is a byte; as a `char` it is negative from 0x80 on, and its sign then fills the upper byte.
unfoldable pub terminal_make_char : ℕ → ℕ → ℕ
terminal_make_char c colour = bit_or (colour * 2 ^ 8) (if ltb c 128 then c else 0xFF00 + c)

unfoldable pub terminal_putchar : Terminal → ℕ → ℕ → ℕ → ℕ → Terminal
terminal_putchar t x y c colour = record t {
  video_mem = λ i. if i == y * vga_width + x then terminal_make_char c colour else t.video_mem i;
}

-- terminal_default_putchar of a character that is neither a newline nor a backspace.
unfoldable pub put_plain : Terminal → ℕ → ℕ → Terminal
put_plain t c colour =
    let t' = terminal_putchar t t.col t.row c colour in
    if leb vga_width ((t.col + 1) % 2 ^ 16)
    then record t' { row = (t.row + 1) % 2 ^ 16; col = 0 }
    else record t' { col = (t.col + 1) % 2 ^ 16 }

-- The characters that it prints are spaces.
unfoldable pub terminal_backspace : Terminal → Terminal
terminal_backspace t =
    if (t.row == 0) && (t.col == 0)
    then t
    else let at =
        if t.col == 0
        then record t {
          row = (t.row + 2 ^ 16 - 1) % 2 ^ 16;
          col = (vga_width + 2 ^ 16 - 1) % 2 ^ 16;
        }
        else record t { col = (t.col + 2 ^ 16 - 1) % 2 ^ 16 } in
      let blanked = put_plain at b' ' 15 in
      record blanked { col = (blanked.col + 2 ^ 16 - 1) % 2 ^ 16 }

unfoldable pub terminal_default_putchar : Terminal → ℕ → ℕ → Terminal
terminal_default_putchar t c colour =
    if c == 0x0A
    then record t { row = (t.row + 1) % 2 ^ 16; col = 0 }
    else if c == 0x08
    then terminal_backspace t
    else put_plain t c colour

-- The loop over the characters before the 0.
pub print_from : List ℕ → Terminal → Terminal
print_from [] t = t
print_from (c ∷ s) t = print_from s (terminal_default_putchar t c 15)

unfoldable pub terminal_print : Terminal → List ℕ → Terminal
unfolding print_from
terminal_print t str = print_from (take (strlen str) str) t

-- The loops over the columns of a row, and over the rows.
clear_row : (rounds x y : ℕ) → Terminal → Terminal
clear_row zero x y t = t
clear_row (suc rounds) x y t = clear_row rounds (x + 1) y (terminal_putchar t x y b' ' 0)

clear_rows : (rounds y : ℕ) → Terminal → Terminal
clear_rows zero y t = t
clear_rows (suc rounds) y t = clear_rows rounds (y + 1) (clear_row vga_width 0 y t)

pub terminal_initialize : Terminal → Terminal
terminal_initialize t = clear_rows vga_height 0 t
