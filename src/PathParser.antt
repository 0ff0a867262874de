-- ===== src/PathParser.antt =====
-- src/fs/pparser.c: paths such as 0:/dir_name/file_name. A path is the list of its bytes from the
-- pointer on (see CString). The allocations are taken to succeed, as the code takes them; what is
-- freed or leaked is not modelled. A linked list of parts is the list of their names.
pub mod Print
pub mod Nodes
pub mod Behind
pub mod Freed
pub mod Bounds
mod Examples
use ras_os.Base.{
  ebadpath, ◌&&◌, length, ltb, ◌-◌, drop, ◌||◌, not, ◌∷◌, Result, ◌==◌, if◌then◌else◌, Option, Bool,
  List, ℕ, suc, zero, [], err, ok, some, none, false,
}
use ras_os.Base.Int.{is_zero, ℤ, pos}
use ras_os.Memory.{memcmp}
use ras_os.CString.{char_at, strlen, is_digit}

abbrev pub path_max_len : ℕ
path_max_len = 128

pub record PathRoot : Type 0 where
  pub drive_number : ℕ
  pub first : List (List ℕ)

unfoldable pub is_valid_path : List ℕ → Bool
is_valid_path path =
    not (ltb path_max_len (strlen path) || ltb (strlen path) 3)
    && is_digit (char_at path 0)
    && is_zero (memcmp (drop 1 path) (b':' ∷ b'/' ∷ []) 2)

-- The drive number, and the path behind the drive.
pub get_drive_from_path : List ℕ → Result (ℕ × List ℕ)
unfolding is_valid_path
get_drive_from_path path =
    if is_valid_path path then ok (char_at path 0 - b'0', drop 3 path) else err ebadpath

-- The loop of get_next_path_part: the characters before the next slash or 0, and the path from there.
take_part : List ℕ → List ℕ × List ℕ
take_part [] = ([], [])
take_part (c ∷ path) =
    if (c == b'/') || (c == 0) then ([], c ∷ path) else (c ∷ (take_part path).0, (take_part path).1)

abbrev skip_slash : List ℕ → List ℕ
skip_slash path = if char_at path 0 == b'/' then drop 1 path else path

abbrev part_or_null : List ℕ → Option (List ℕ)
part_or_null [] = none
part_or_null (c ∷ cs) = some (c ∷ cs)

-- The part, or `none` where the code frees its buffer and returns null, and the path behind it.
unfoldable pub get_next_path_part : List ℕ → Option (List ℕ) × List ℕ
unfolding take_part
get_next_path_part path = (part_or_null (take_part path).0, skip_slash (take_part path).1)

-- The parts that parse_path_part links up to the first null, and `none` if the fuel runs out.
pub parse_parts : (fuel : ℕ) → List ℕ → Option (List (List ℕ))
parse_parts zero path = none
parse_parts (suc fuel) path =
    let (part, rest) = get_next_path_part path in
    elim part [
      | none ↦ some []
      | some p ↦ elim (parse_parts fuel rest) [ none ↦ none | some ps ↦ some (p ∷ ps) ]
    ]

abbrev root_of : ℕ → Option (List (List ℕ)) → Option PathRoot
root_of drive none = none
root_of drive (some []) = none
root_of drive (some (p ∷ ps)) = some (record { drive_number = drive; first = p ∷ ps })

-- Each part takes a character at least, so the fuel is enough (`Print.parse_parts_total`).
unfoldable pub pathparser_parse : List ℕ → Option PathRoot
unfolding get_drive_from_path parse_parts
pathparser_parse path =
    if ltb path_max_len (strlen path) then none else elim (get_drive_from_path path) [
      | err e ↦ none
      | ok (drive, rest) ↦ root_of drive (parse_parts (suc (length rest)) rest)
    ]
