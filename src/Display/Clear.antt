-- ===== src/Display/Clear.antt =====
-- terminal_initialize of src/display/display.c.
use ras_os.Base.{refl, ◌+◌, ◌∙◌, ◌*◌, ltb, if◌then◌else◌, ◌≡◌, ℕ, arith, suc, zero}
use ras_os.Display.{
  Terminal, vga_width, terminal_putchar, clear_row, clear_rows, terminal_initialize,
}
use ras_os.Display.Cursor.{make_char-ascii}

clear_row_lem :
    (n x y i : ℕ) (t : Terminal)
    → (clear_row n x y t).video_mem i ≡ (
        if ltb i (y * 80 + x)
        then t.video_mem i
        else if ltb i (y * 80 + x + n)
        then b' '
        else t.video_mem i)
unfolding clear_row terminal_putchar
clear_row_lem zero x y i t = ground arith
clear_row_lem (suc n) x y i t =
    clear_row_lem n (x + 1) y i (terminal_putchar t x y b' ' 0)
    ∙ ground (arith, make_char-ascii b' ' 0)

clear_rows_lem :
    (n y i : ℕ) (t : Terminal)
    → (clear_rows n y t).video_mem i ≡ (
        if ltb i (y * 80)
        then t.video_mem i
        else if ltb i (y * 80 + n * 80)
        then b' '
        else t.video_mem i)
unfolding clear_rows
clear_rows_lem zero y i t = ground arith
clear_rows_lem (suc n) y i t =
    clear_rows_lem n (y + 1) i (clear_row vga_width 0 y t)
    ∙ ground (arith, clear_row_lem vga_width 0 y i t)

-- terminal_initialize blanks the 20 rows of 80 cells, and nothing else.
pub terminal_initialize_lem :
    (t : Terminal) (i : ℕ)
    → (terminal_initialize t).video_mem i ≡ (if ltb i 1600 then b' ' else t.video_mem i)
unfolding terminal_initialize
terminal_initialize_lem t i = clear_rows_lem 20 0 i t ∙ ground arith

clear_row-cursor :
    (n x y : ℕ) (t : Terminal)
    → ((clear_row n x y t).row ≡ t.row) × ((clear_row n x y t).col ≡ t.col)
unfolding clear_row terminal_putchar
clear_row-cursor zero x y t = (refl, refl)
clear_row-cursor (suc n) x y t = clear_row-cursor n (x + 1) y (terminal_putchar t x y b' ' 0)

clear_rows-cursor :
    (n y : ℕ) (t : Terminal) → ((clear_rows n y t).row ≡ t.row) × ((clear_rows n y t).col ≡ t.col)
unfolding clear_rows
clear_rows-cursor zero y t = (refl, refl)
clear_rows-cursor (suc n) y t =
    let (r, c) = clear_row-cursor vga_width 0 y t in
    let (r', c') = clear_rows-cursor n (y + 1) (clear_row vga_width 0 y t) in (r' ∙ r, c' ∙ c)

-- It leaves the cursor where it is.
pub terminal_initialize-cursor :
    (t : Terminal) → ((terminal_initialize t).row ≡ t.row) × ((terminal_initialize t).col ≡ t.col)
unfolding terminal_initialize
terminal_initialize-cursor t = clear_rows-cursor 20 0 t
