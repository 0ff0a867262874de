-- ===== src/CString/Examples.antt =====
-- Tests of src/string/string.c, and its theorems at concrete strings.
use ras_os.CString.{pos, istrncmp, strcpy, strlen, strncmp, strnlen_terminator, tolower}
use ras_os.CString.Compare.{strncmp_iff}
use ras_os.CString.Text.{text_to}
use ras_os.Base.{◌↔◌, ◌≡◌, ◌∷◌, ℕ, List, [], refl}

abbrev file_name : List ℕ
file_name = b'o' ∷ b's' ∷ b'.' ∷ b'b' ∷ 0 ∷ b'x' ∷ []

abbrev upper_name : List ℕ
upper_name = b'O' ∷ b'S' ∷ b'.' ∷ b'B' ∷ []

strlen_four : strlen file_name ≡ 4
unfolding strlen
strlen_four = refl

strnlen_at_dot : strnlen_terminator file_name 10 b'.' ≡ 2
unfolding strnlen_terminator
strnlen_at_dot = refl

strcpy_four :
    strcpy (1 ∷ 1 ∷ 1 ∷ 1 ∷ 1 ∷ 1 ∷ []) file_name ≡ (b'o' ∷ b's' ∷ b'.' ∷ b'b' ∷ 0 ∷ 1 ∷ [])
unfolding strcpy
strcpy_four = refl

same_in_lower_case : istrncmp file_name upper_name 11 ≡ pos 0
unfolding istrncmp tolower
same_in_lower_case = refl

strncmp_iff_example :
    (strncmp file_name upper_name 2 ≡ pos 0) ↔ (text_to 2 file_name ≡ text_to 2 upper_name)
strncmp_iff_example = strncmp_iff file_name upper_name 2
