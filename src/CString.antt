-- ===== src/CString.antt =====
-- src/string/string.c. A string is the list of the bytes from the pointer on, and the memory behind
-- the list reads as 0, so that every string ends. A character is a byte; the comparisons of the code
-- with letters and digits do not depend on the sign of `char`.
pub mod Text
pub mod Compare
pub mod Copy
mod Examples
use ras_os.Base.{
  ◌&&◌, ◌||◌, not, leb, ◌==◌, drop, ◌+◌, if◌then◌else◌, set, Bool, ◌-◌, ◌∷◌, get_or, List, ℕ, [],
  suc, zero,
}
use ras_os.Base.Int.{ℤ, pos, sub_ℕ}

abbrev pub char_at : List ℕ → ℕ → ℕ
char_at s i = get_or s i 0

unfoldable pub strlen : List ℕ → ℕ
strlen [] = 0
strlen (c ∷ s) = if c == 0 then 0 else suc (strlen s)

unfoldable pub is_digit : ℕ → Bool
is_digit ch = leb b'0' ch && leb ch b'9'

unfoldable pub tolower : ℕ → ℕ
tolower ch = if leb b'A' ch && leb ch b'Z' then ch + 32 else ch

-- The source from the pointer on; `i` is how far `dest` has been moved.
strcpy_from : List ℕ → ℕ → List ℕ → List ℕ
strcpy_from dest i [] = set dest i 0
strcpy_from dest i (c ∷ src) =
    let rest = strcpy_from (set dest i c) (i + 1) src in if c == 0 then set dest i 0 else rest

unfoldable pub strcpy : List ℕ → List ℕ → List ℕ
unfolding strcpy_from
strcpy dest src = strcpy_from dest 0 src

unfoldable pub strncmp : List ℕ → List ℕ → ℕ → ℤ
strncmp str1 str2 zero = pos 0
strncmp str1 str2 (suc n) =
    let u1 = char_at str1 0 in
    let u2 = char_at str2 0 in
    let rest = strncmp (drop 1 str1) (drop 1 str2) n in
    if u1 == u2 then (if u1 == 0 then pos 0 else rest) else sub_ℕ u1 u2

-- The loop from index `i` on, with `rounds` rounds left.
strnlen_from : List ℕ → (rounds i : ℕ) → ℕ → ℕ
strnlen_from str zero i terminator = i
strnlen_from str (suc rounds) i terminator =
    let rest = strnlen_from str rounds (i + 1) terminator in
    if (char_at str i == 0) || (char_at str i == terminator) then i else rest

unfoldable pub strnlen_terminator : List ℕ → ℕ → ℕ → ℕ
unfolding strnlen_from
strnlen_terminator str max terminator = strnlen_from str max 0 terminator

unfoldable pub istrncmp : List ℕ → List ℕ → ℕ → ℤ
istrncmp s1 s2 zero = pos 0
istrncmp s1 s2 (suc n) =
    let u1 = char_at s1 0 in
    let u2 = char_at s2 0 in
    let rest = istrncmp (drop 1 s1) (drop 1 s2) n in
    if not (u1 == u2) && not (tolower u1 == tolower u2)
    then sub_ℕ u1 u2
    else if u1 == 0
    then pos 0
    else rest

-- The loop from index `i` on; what is left is the write of the final 0.
strncpy_from : (rounds i : ℕ) → List ℕ → List ℕ → List ℕ
strncpy_from zero i dest src = set dest i 0
strncpy_from (suc rounds) i dest src =
    let rest = strncpy_from rounds (i + 1) (set dest i (char_at src i)) src in
    if char_at src i == 0 then set dest i 0 else rest

unfoldable pub strncpy : List ℕ → List ℕ → ℕ → List ℕ
unfolding strncpy_from
strncpy dest src count = strncpy_from (count - 1) 0 dest src
