-- ===== src/PathParser/Bounds.antt =====
-- The buffers of src/fs/pparser.c are long enough.
use ras_os.PathParser.{part_or_null}
use ras_os.PathParser.{
  PathRoot, root_of, is_valid_path, get_drive_from_path, path_max_len, take_part, skip_slash,
  get_next_path_part, parse_parts, pathparser_parse,
}
use ras_os.CString.{strlen, char_at, is_digit}
use ras_os.Memory.{memcmp}
use ras_os.Base.{
  Result, ltb, subst, ebadpath, ◌-◌, if◌then◌else◌, Option, Bool, err, none, false, suc, zero, ◌+◌,
  drop, ◌≡◌, ◌∷◌, ◌≤◌, length, ℕ, List, arith, [], refl, some, true, ok,
}

-- The parts have at most `n` characters.
abbrev pub AreAtMost : ℕ → List (List ℕ) → Type 0
AreAtMost n [] = Unit {0}
AreAtMost n (p ∷ ps) = (length p ≤ n) × AreAtMost n ps

strlen-take_part :
    (path : List ℕ) → length (take_part path).0 + strlen (take_part path).1 ≡ strlen path
unfolding take_part strlen
strlen-take_part [] = refl
strlen-take_part (c ∷ path) = ground (arith, strlen-take_part path)

strlen-skip_slash : (path : List ℕ) → strlen (skip_slash path) ≤ strlen path
unfolding strlen
strlen-skip_slash [] = omega arith
strlen-skip_slash (c ∷ path) = ground arith

-- The same of results.
abbrev IsShort : ℕ → Option (List ℕ) → Type 0
IsShort n none = Unit {0}
IsShort n (some p) = length p ≤ n

abbrev AreShort : ℕ → Option (List (List ℕ)) → Type 0
AreShort n none = Unit {0}
AreShort n (some ps) = AreAtMost n ps

part_or_null-IsShort : (n : ℕ) (p : List ℕ) → length p ≤ n → IsShort n (part_or_null p)
part_or_null-IsShort n [] h = tt
part_or_null-IsShort n (c ∷ cs) h = h

cons-AreShort :
    (n : ℕ) (part : Option (List ℕ)) (ps : Option (List (List ℕ)))
    → IsShort n part
    → AreShort n ps
    → AreShort n
        (elim part [ none ↦ some [] | some p ↦ elim ps [ none ↦ none | some ps ↦ some (p ∷ ps) ] ])
cons-AreShort n none ps h hs = tt
cons-AreShort n (some p) none h hs = tt
cons-AreShort n (some p) (some ps) h hs = (h, hs)

parse_parts-AreShort :
    (fuel n : ℕ) (path : List ℕ) → strlen path ≤ n → AreShort n (parse_parts fuel path)
unfolding parse_parts get_next_path_part
parse_parts-AreShort zero n path h = tt
parse_parts-AreShort (suc fuel) n path h =
    let whole = strlen-take_part path in
    let behind = strlen-skip_slash (take_part path).1 in
    cons-AreShort n (part_or_null (take_part path).0)
      (parse_parts fuel (skip_slash (take_part path).1))
      (part_or_null-IsShort n (take_part path).0 (omega arith))
      (parse_parts-AreShort fuel n (skip_slash (take_part path).1) (omega arith))

-- Behind the drive there are three characters less.
strlen-drop :
    (path : List ℕ)
    → is_valid_path path ≡ true
    → (strlen (drop 3 path) + 3 ≡ strlen path) × (strlen path ≤ 128)
unfolding is_valid_path strlen memcmp is_digit
strlen-drop [] v = ground arith
strlen-drop (a ∷ []) v = ground arith
strlen-drop (a ∷ b ∷ []) v = ground arith
strlen-drop (a ∷ b ∷ c ∷ path) v = ground arith

abbrev HasShortParts : Option PathRoot → Type 0
HasShortParts none = Unit {0}
HasShortParts (some r) = AreAtMost 125 r.first

root_of-HasShortParts :
    (drive : ℕ) (ps : Option (List (List ℕ))) → AreShort 125 ps → HasShortParts (root_of drive ps)
root_of-HasShortParts drive none h = tt
root_of-HasShortParts drive (some []) h = tt
root_of-HasShortParts drive (some (p ∷ ps)) h = h

abbrev drive_or_error : Bool → List ℕ → Result (ℕ × List ℕ)
drive_or_error valid path = if valid then ok (char_at path 0 - b'0', drop 3 path) else err ebadpath

by_guards-HasShortParts :
    (too_long valid : Bool) (path : List ℕ)
    → is_valid_path path ≡ valid
    → HasShortParts (
        if too_long then none else elim (drive_or_error valid path) [
          | err e ↦ none
          | ok (drive, rest) ↦ root_of drive (parse_parts (suc (length rest)) rest)
        ])
by_guards-HasShortParts true valid path v = tt
by_guards-HasShortParts false false path v = tt
by_guards-HasShortParts false true path v =
    let (behind, fits) = strlen-drop path v in
    root_of-HasShortParts (char_at path 0 - b'0')
      (parse_parts (suc (length (drop 3 path))) (drop 3 path))
      (parse_parts-AreShort (suc (length (drop 3 path))) 125 (drop 3 path) (omega arith))

-- In a path that is parsed each part has at most 125 characters, so that it fits with a 0 behind it into the
-- 128 bytes of its buffer.
pub pathparser_parse-AreAtMost :
    (path : List ℕ) (r : PathRoot) → pathparser_parse path ≡ some r → AreAtMost 125 r.first
unfolding pathparser_parse get_drive_from_path
pathparser_parse-AreAtMost path r e =
    subst HasShortParts e
      (by_guards-HasShortParts (ltb path_max_len (strlen path)) (is_valid_path path) path refl)
