-- ===== src/Display/Examples.antt =====
-- src/display/display.c on a screen.
use ras_os.CString.{strlen}
use ras_os.CString.Text.{text}
use ras_os.Display.{Terminal, put_plain, terminal_default_putchar, terminal_print, terminal_putchar}
use ras_os.Display.Cursor.{ArePlain, cursor, terminal_print_lem}
use ras_os.Base.{◌≡◌, ◌∷◌, ℕ, List, arith, [], refl}

abbrev screen : Terminal
screen = record { video_mem = λ i. 0; row = 1; col = 78 }

abbrev greeting : List ℕ
greeting = b'h' ∷ b'i' ∷ b'!' ∷ 0 ∷ []

print_wraps : (terminal_print screen greeting).row ≡ 2
unfolding terminal_print terminal_default_putchar put_plain terminal_putchar strlen
print_wraps = refl

greeting-ArePlain : ArePlain (text greeting)
unfolding text
greeting-ArePlain = (
  (λ e. ground arith, λ e. ground arith, λ e. ground arith, omega arith),
  (
    (λ e. ground arith, λ e. ground arith, λ e. ground arith, omega arith),
    ((λ e. ground arith, λ e. ground arith, λ e. ground arith, omega arith), tt),
  ),
)

terminal_print_lem_example : cursor (terminal_print screen greeting) ≡ 161
unfolding text
terminal_print_lem_example =
    (terminal_print_lem screen greeting (omega arith, omega arith) greeting-ArePlain).0
