-- ===== src/Display/Cursor.antt =====
-- The cursor and the cells of src/display/display.c.
use ras_os.Base.{
  ◌%◌, ◌++◌, refl, get_or-head, get_or-cons, dec_lt, ◌∙◌, ◌-◌, get_or, ltb, length, ◌∷◌, List, [],
  suc, ◌==◌, ◌^◌, lt→ltb, if◌then◌else◌, ◌≢◌, ◌*◌, ◌+◌, ◌≡◌, ℕ, ◌<◌, arith,
}
use ras_os.Base.Bits.{bit_or_shift}
use ras_os.CString.Text.{take-strlen, text}
use ras_os.Display.{
  print_from, terminal_print, terminal_backspace, Terminal, vga_width, terminal_make_char,
  terminal_putchar, put_plain, terminal_default_putchar,
}

-- The cursor stands on a cell of the row, and the row is no end of the 16-bit words.
pub record IsOnScreen (t : Terminal) : Type 0 where
  pub col_in : t.col < vga_width
  pub row_in : t.row + 1 < 2 ^ 16

-- The index of the cell under the cursor.
abbrev pub cursor : Terminal → ℕ
cursor t = t.row * vga_width + t.col

-- Neither a newline nor a backspace, nor the end of a text, and in ASCII.
abbrev pub IsPlain : ℕ → Type 0
IsPlain c = (c ≢ 0x0A) × (c ≢ 0x08) × (c ≢ 0) × (c < 128)

-- A cell that shows an ASCII character.
pub make_char-ascii : (c colour : ℕ) → c < 128 → terminal_make_char c colour ≡ colour * 256 + c
unfolding terminal_make_char
make_char-ascii c colour h = rw (lt→ltb c 128 h) (bit_or_shift 8 colour c (omega arith))

-- A plain character goes into the cell under the cursor, which moves on by one cell.
pub putchar-plain :
    (t : Terminal) (c colour : ℕ)
    → IsOnScreen t
    → IsPlain c
    → let t' = terminal_default_putchar t c colour in
      (cursor t' ≡ cursor t + 1)
      × (t'.col < vga_width)
      × ((i : ℕ) → t'.video_mem i ≡ (if i == cursor t then colour * 256 + c else t.video_mem i))
unfolding terminal_default_putchar put_plain terminal_putchar
putchar-plain t c colour s p =
    (ground arith, ground arith, λ i. ground (arith, make_char-ascii c colour))

-- All characters of a text are plain.
abbrev pub ArePlain : List ℕ → Type 0
ArePlain [] = Unit {0}
ArePlain (c ∷ s) = IsPlain c × ArePlain s

-- The rows that the text can reach are no end of the 16-bit words.
abbrev pub HasRoom : Terminal → List ℕ → Type 0
HasRoom t s = (t.col < vga_width) × (cursor t + length s < 65534 * 80)

pub print_from_lem :
    (s : List ℕ) (t : Terminal)
    → HasRoom t s
    → ArePlain s
    → (cursor (print_from s t) ≡ cursor t + length s)
      × ((print_from s t).col < vga_width)
      × ((i : ℕ)
          → (print_from s t).video_mem i ≡ (
              if ltb i (cursor t)
              then t.video_mem i
              else if ltb i (cursor t + length s)
              then 15 * 256 + get_or s (i - cursor t) 0
              else t.video_mem i))
unfolding print_from
print_from_lem [] t room p = (omega arith, room.0, λ i. ground arith)
print_from_lem (c ∷ s) t room p =
    let (at, in_row, cells) =
      putchar-plain t c 15 (record { col_in = room.0; row_in = omega arith }) p.0 in
    let (at', in_row', cells') =
      print_from_lem s (terminal_default_putchar t c 15) (in_row, omega arith) p.1 in
    (omega arith, in_row', λ i. cells' i ∙ shifted i at (cells i))
  where
    shifted :
        (i : ℕ)
        → cursor (terminal_default_putchar t c 15) ≡ cursor t + 1
        → (terminal_default_putchar t c 15).video_mem i
          ≡ (if i == cursor t then 15 * 256 + c else t.video_mem i)
        → (if ltb i (cursor (terminal_default_putchar t c 15))
            then (terminal_default_putchar t c 15).video_mem i
            else if ltb i (cursor (terminal_default_putchar t c 15) + length s)
            then 15 * 256 + get_or s (i - cursor (terminal_default_putchar t c 15)) 0
            else (terminal_default_putchar t c 15).video_mem i)
          ≡ (if ltb i (cursor t)
              then t.video_mem i
              else if ltb i (cursor t + suc (length s))
              then 15 * 256 + get_or (c ∷ s) (i - cursor t) 0
              else t.video_mem i)
    shifted i at cell = elim (dec_lt (cursor t) i) [
      | yes h ↦ ground (arith, get_or-cons c s (i - cursor t) 0)
      | no h ↦ ground (arith, get_or-head c s (i - cursor t) 0)
    ]

pub print_from-append :
    (s s' : List ℕ) (t : Terminal) → print_from (s ++ s') t ≡ print_from s' (print_from s t)
unfolding print_from
print_from-append [] s' t = refl
print_from-append (c ∷ s) s' t = print_from-append s s' (terminal_default_putchar t c 15)

-- A newline.
pub print_from-newline :
    (s : List ℕ) (t : Terminal)
    → print_from (10 ∷ s) t ≡ print_from s (record t { row = (t.row + 1) % 2 ^ 16; col = 0 })
unfolding print_from terminal_default_putchar
print_from-newline s t = refl

-- What a line of plain characters that is shorter than a row leaves: the cursor at the start of the next row,
-- and its characters, white, in the cells.
pub record IsLine (s s' : List ℕ) (t : Terminal) : Type 0 where
  pub after : Terminal
  pub goes_on : print_from (s ++ (10 ∷ s')) t ≡ print_from s' after
  pub next_row : after.row ≡ t.row + 1
  pub row_start : after.col ≡ 0
  pub cells :
      (i : ℕ)
      → after.video_mem i ≡ (
          if ltb i (t.row * 80)
          then t.video_mem i
          else if ltb i (t.row * 80 + length s)
          then 15 * 256 + get_or s (i - t.row * 80) 0
          else t.video_mem i)

pub print_from-IsLine :
    (s s' : List ℕ) (t : Terminal)
    → t.col ≡ 0
    → t.row < 1000
    → length s < 80
    → ArePlain s
    → IsLine s s' t
print_from-IsLine s s' t start above short p =
    let (at, in_row, cells) = print_from_lem s t (omega arith, omega arith) p in
    let end = print_from s t in
    let same_row : end.row ≡ t.row = omega arith in
    record {
      after = record end { row = (end.row + 1) % 2 ^ 16; col = 0 };
      goes_on = print_from-append s (10 ∷ s') t ∙ print_from-newline s' end;
      next_row = omega arith;
      row_start = refl;
      cells = λ i. cells i ∙ ground arith;
    }

-- terminal_print of a text of plain characters that fits puts its characters into the cells from the
-- cursor on, white, changes no other cell, and moves the cursor behind them.
pub terminal_print_lem :
    (t : Terminal) (str : List ℕ)
    → HasRoom t (text str)
    → ArePlain (text str)
    → (cursor (terminal_print t str) ≡ cursor t + length (text str))
      × ((terminal_print t str).col < vga_width)
      × ((i : ℕ)
          → (terminal_print t str).video_mem i ≡ (
              if ltb i (cursor t)
              then t.video_mem i
              else if ltb i (cursor t + length (text str))
              then 15 * 256 + get_or (text str) (i - cursor t) 0
              else t.video_mem i))
unfolding terminal_print
terminal_print_lem t str room p = rw (take-strlen str) (print_from_lem (text str) t room p)

-- A backspace behind a plain character that is not the last of its row takes the cursor back to where
-- it was and blanks the character's cell; no other cell differs from before the character.
pub backspace-putchar :
    (t : Terminal) (c colour : ℕ)
    → IsOnScreen t
    → IsPlain c
    → t.col + 1 < vga_width
    → let t' = terminal_default_putchar (terminal_default_putchar t c colour) 0x08 colour in
      (t'.row ≡ t.row)
      × (t'.col ≡ t.col)
      × ((i : ℕ) → t'.video_mem i ≡ (if i == cursor t then 15 * 256 + b' ' else t.video_mem i))
unfolding terminal_default_putchar put_plain terminal_backspace terminal_putchar
backspace-putchar t c colour s p room =
    (ground arith, ground arith, λ i. ground (arith, make_char-ascii b' ' 15))

-- A backspace at the start of a row that is not the first leaves the cursor on the same row, at
-- column 65535.
pub backspace_at_row_start :
    (t : Terminal) (colour : ℕ)
    → 0 < t.row
    → t.row < 2 ^ 16
    → t.col ≡ 0
    → let t' = terminal_default_putchar t 0x08 colour in (t'.row ≡ t.row) × (t'.col ≡ 65535)
unfolding terminal_default_putchar put_plain terminal_backspace terminal_putchar
backspace_at_row_start t colour lo hi e = (ground arith, ground arith)
