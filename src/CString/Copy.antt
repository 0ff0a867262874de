-- ===== src/CString/Copy.antt =====
-- strcpy and strncpy of src/string/string.c.
use ras_os.Base.{
  length-set, set, get_or-set_ne, ap, get_or-set_self, ℕ_discrete, ◌∙◌, ◌-◌, ◌==◌, ltb,
  if◌then◌else◌, ◌≤◌, drop, length, ◌<◌, ◌+◌, ◌≡◌, ℕ, List, arith, suc, zero,
}
use ras_os.CString.{char_at, strncpy, strncpy_from}
use ras_os.CString.Text.{text_to, text_to_step, char_at-drop, drop-drop}

-- How many characters a copy from the `i`-th on takes, at most `rounds`.
abbrev rest_length : ℕ → ℕ → List ℕ → ℕ
rest_length rounds i src = length (text_to rounds (drop i src))

rest_length_step :
    (rounds i : ℕ) (src : List ℕ)
    → rest_length (suc rounds) i src
      ≡ (if char_at src i == 0 then 0 else suc (rest_length rounds (i + 1) src))
rest_length_step rounds i src =
    let head : char_at (drop i src) 0 ≡ char_at src i =
      char_at-drop i 0 src ∙ ap (char_at src) (omega arith) in
    rw (text_to_step rounds (drop i src), drop-drop i src, head) (ground arith)

-- What the copy of the text of `src` behind the first `i` characters is, with `rounds` at most.
strncpy_from_lem :
    (rounds i k : ℕ) (dest src : List ℕ)
    → i + rounds < length dest
    → char_at (strncpy_from rounds i dest src) k ≡ (
        if ltb k i
        then char_at dest k
        else if ltb k (i + rest_length rounds i src)
        then char_at src k
        else if k == i + rest_length rounds i src
        then 0
        else char_at dest k)
unfolding strncpy_from
strncpy_from_lem zero i k dest src h = elim (ℕ_discrete i k) [
  | yes e ↦ ground (arith, get_or-set_self dest i 0 0)
  | no ne ↦ ground (arith, get_or-set_ne dest i k 0 0 ne)
]
strncpy_from_lem (suc rounds) i k dest src h =
    let len = rest_length_step rounds i src in
    let ih =
      strncpy_from_lem rounds (i + 1) k (set dest i (char_at src i)) src
        (omega (arith, length-set dest i (char_at src i))) in
    rw len (elim (ℕ_discrete i k) [
      | yes e ↦
          ground (arith, ih, get_or-set_self dest i 0 0, get_or-set_self dest i (char_at src i) 0)
      | no ne ↦
          ground
            (arith, ih, get_or-set_ne dest i k 0 0 ne, get_or-set_ne dest i k (char_at src i) 0 ne)
    ])

-- With room for `count` bytes, at least one, strncpy copies the text of `src`, at most `count - 1`
-- characters of it, puts a 0 behind them, and changes nothing else.
pub strncpy_lem :
    (dest src : List ℕ) (count k : ℕ)
    → 0 < count
    → count ≤ length dest
    → let n = length (text_to (count - 1) src) in
      char_at (strncpy dest src count) k
      ≡ (if ltb k n then char_at src k else if k == n then 0 else char_at dest k)
unfolding strncpy
strncpy_lem dest src count k lo hi =
    strncpy_from_lem (count - 1) 0 k dest src (omega arith) ∙ ground arith
