-- ===== src/Boot/Welcome.antt =====
-- The screen when kernel_main of src/kernel.c has said its welcome.
use ras_os.Boot.{welcome}
use ras_os.CString.{strlen}
use ras_os.Display.{Terminal, terminal_print, terminal_initialize}
use ras_os.Display.Clear.{terminal_initialize_lem, terminal_initialize-cursor}
use ras_os.Display.Cursor.{print_from-IsLine}
use ras_os.Base.{
  sym, subst, ◌∙◌, ◌++◌, ltb, get_or, ◌≡◌, ◌∷◌, ◌*◌, ◌+◌, ◌-◌, if◌then◌else◌, List, ℕ, arith, [],
}

abbrev hello : List ℕ
hello =
    b'H' ∷ b'e' ∷ b'l' ∷ b'l' ∷ b'o' ∷ b',' ∷ b' ' ∷ b'W' ∷ b'o' ∷ b'r' ∷ b'l' ∷ b'd' ∷ b'!' ∷ []

abbrev welcome_to : List ℕ
welcome_to =
    b'W' ∷ b'e' ∷ b'l' ∷ b'c' ∷ b'o' ∷ b'm' ∷ b'e' ∷ b' ' ∷ b't' ∷ b'o' ∷ b' ' ∷ b'R' ∷ b'a' ∷ b's'
    ∷ b'O' ∷ b'S' ∷ b'!' ∷ []

-- The cursor is at the start of the third row; the first two rows show "Hello, World!" and
-- "Welcome to RasOS!" in white, the rest of the 20 rows is blank, and what is behind them is as before.
pub record Shows (t t' : Terminal) : Type 0 where
  pub third_row : t'.row ≡ 2
  pub row_start : t'.col ≡ 0
  pub cells :
      (i : ℕ)
      → t'.video_mem i ≡ (
          if ltb i 13
          then 15 * 256 + get_or hello i 0
          else if ltb i 80
          then b' '
          else if ltb i 97
          then 15 * 256 + get_or welcome_to (i - 80) 0
          else if ltb i 1600
          then b' '
          else t.video_mem i)

-- A cell of the screen, when it has been cleared and two lines have been written.
two_lines :
    (h w : List ℕ) (i row0 row1 v v0 v1 v2 : ℕ)
    → row0 ≡ 0
    → row1 ≡ 1
    → v0 ≡ (if ltb i 1600 then b' ' else v)
    → v1 ≡ (
        if ltb i (row0 * 80)
        then v0
        else if ltb i (row0 * 80 + 13)
        then 15 * 256 + get_or h (i - row0 * 80) 0
        else v0)
    → v2 ≡ (
        if ltb i (row1 * 80)
        then v1
        else if ltb i (row1 * 80 + 17)
        then 15 * 256 + get_or w (i - row1 * 80) 0
        else v1)
    → v2 ≡ (
        if ltb i 13
        then 15 * 256 + get_or h i 0
        else if ltb i 80
        then b' '
        else if ltb i 97
        then 15 * 256 + get_or w (i - 80) 0
        else if ltb i 1600
        then b' '
        else v)
two_lines h w i row0 row1 v v0 v1 v2 r0 r1 e0 e1 e2 = e2 ∙ rw (r1, e1, r0, e0) (ground arith)

pub welcome-Shows :
    (t : Terminal)
    → t.row ≡ 0
    → t.col ≡ 0
    → Shows t (terminal_print (terminal_initialize t) welcome)
unfolding terminal_print strlen
welcome-Shows t r c =
    let cleared = terminal_initialize t in
    let (same_row, same_col) = terminal_initialize-cursor t in
    let first =
      print_from-IsLine hello (welcome_to ++ (10 ∷ [])) cleared (same_col ∙ c) (omega arith)
        (omega arith) (ground arith) in
    let second =
      print_from-IsLine welcome_to [] first.after first.row_start (omega arith) (omega arith)
        (ground arith) in
    let all : terminal_print cleared welcome ≡ second.after = first.goes_on ∙ second.goes_on in
    subst (Shows t) (sym all) (record {
      third_row = omega (arith, first.next_row, second.next_row);
      row_start = second.row_start;
      cells = λ i.
          two_lines hello welcome_to i cleared.row first.after.row (t.video_mem i)
            (cleared.video_mem i) (first.after.video_mem i) (second.after.video_mem i)
            (same_row ∙ r) (omega (arith, first.next_row)) (terminal_initialize_lem t i)
            (first.cells i) (second.cells i);
    })
