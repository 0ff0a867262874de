-- ===== src/PathParser/Print.antt =====
-- The paths that src/fs/pparser.c reads, and how it reads them back.
use ras_os.Base.{
  length-append, ◌≤◌, ap, inr, inl, none, false, true, ◌++◌, ◌≢◌, ◌<◌, ◌⊎◌, ◌+◌, ◌≡◌, ◌∷◌, length,
  List, ℕ, arith, [], refl, some, suc, zero,
}
use ras_os.Memory.{memcmp}
use ras_os.CString.{char_at, strlen, is_digit}
use ras_os.PathParser.{
  path_max_len, is_valid_path, get_drive_from_path, take_part, skip_slash, part_or_null,
  get_next_path_part, parse_parts, pathparser_parse,
}

-- A character of a name: neither a slash nor 0.
abbrev pub IsName : List ℕ → Type 0
IsName [] = Unit {0}
IsName (c ∷ cs) = (c ≢ b'/') × (c ≢ 0) × IsName cs

-- Names that are not empty.
abbrev pub AreParts : List (List ℕ) → Type 0
AreParts [] = Unit {0}
AreParts (p ∷ ps) = (p ≢ []) × IsName p × AreParts ps

-- The names with slashes between them, and what stands behind the last.
abbrev pub print_parts : List (List ℕ) → List ℕ → List ℕ
print_parts [] end = end
print_parts (p ∷ []) end = p ++ end
print_parts (p ∷ q ∷ ps) end = p ++ (b'/' ∷ print_parts (q ∷ ps) end)

abbrev pub print_path : ℕ → List (List ℕ) → List ℕ → List ℕ
print_path drive ps end = (b'0' + drive) ∷ b':' ∷ b'/' ∷ print_parts ps end

-- What ends the last part.
pub data IsEnd : List ℕ → Type 0 where
  stop : IsEnd []
  slash : IsEnd (b'/' ∷ [])
  empty_part : (rest : List ℕ) → IsEnd (b'/' ∷ b'/' ∷ rest)

-- A name and what ends it, or the slash before the next.
take_part-append :
    (p end : List ℕ)
    → IsName p
    → (char_at end 0 ≡ b'/') ⊎ (char_at end 0 ≡ 0)
    → take_part (p ++ end) ≡ (p, end)
unfolding take_part
take_part-append [] [] n e = refl
take_part-append [] (c ∷ end) n e = ground arith
take_part-append (c ∷ p) end n e = ground (arith, take_part-append p end n.2 e)

length-take_part :
    (path : List ℕ) → length (take_part path).0 + length (take_part path).1 ≡ length path
unfolding take_part
length-take_part [] = refl
length-take_part (c ∷ path) = ground (arith, length-take_part path)

length-skip_slash : (path : List ℕ) → length (skip_slash path) ≤ length path
length-skip_slash [] = omega arith
length-skip_slash (c ∷ path) = ground arith

-- Either there is no part, or the path gets shorter.
pub next_part_cases :
    (path : List ℕ)
    → ((get_next_path_part path).0 ≡ none)
      ⊎ ((p : List ℕ) × ((get_next_path_part path).0 ≡ some p)
          × (length (get_next_path_part path).1 < length path))
unfolding get_next_path_part
next_part_cases path = go (take_part path).0 refl
  where
    go :
        (q : List ℕ)
        → (take_part path).0 ≡ q
        → (part_or_null (take_part path).0 ≡ none)
          ⊎ ((p : List ℕ) × (part_or_null (take_part path).0 ≡ some p)
              × (length (skip_slash (take_part path).1) < length path))
    go [] e = inl (ap part_or_null e)
    go (c ∷ cs) e = inr (
      c ∷ cs,
      ap part_or_null e,
      omega (arith, ap length e, length-take_part path, length-skip_slash (take_part path).1),
    )

pub parse_parts-none :
    (fuel : ℕ) (path : List ℕ)
    → (get_next_path_part path).0 ≡ none
    → parse_parts (suc fuel) path ≡ some []
unfolding parse_parts
parse_parts-none fuel path e = rw (e, parse_parts)

pub parse_parts-some :
    (fuel : ℕ) (path p : List ℕ) (ps : List (List ℕ))
    → (get_next_path_part path).0 ≡ some p
    → parse_parts fuel (get_next_path_part path).1 ≡ some ps
    → parse_parts (suc fuel) path ≡ some (p ∷ ps)
unfolding parse_parts
parse_parts-some fuel path p ps e r = rw (e, r, parse_parts)

nonempty : (p : List ℕ) → p ≢ [] → 0 < length p
nonempty [] ne = absurd (ne refl)
nonempty (c ∷ cs) ne = omega arith

-- With fuel for each character and one more, the parts are found.
pub parse_parts_total :
    (fuel : ℕ) (path : List ℕ)
    → length path < fuel
    → (ps : List (List ℕ)) × (parse_parts fuel path ≡ some ps)
parse_parts_total zero path h = absurd (omega arith)
parse_parts_total (suc fuel) path h =
    parts_of fuel path (parse_parts_total fuel (get_next_path_part path).1) (next_part_cases path) h
  where
    parts_of :
        (fuel : ℕ) (path : List ℕ)
        → (length (get_next_path_part path).1 < fuel
            → (ps : List (List ℕ)) × (parse_parts fuel (get_next_path_part path).1 ≡ some ps))
        → ((get_next_path_part path).0 ≡ none)
          ⊎ ((p : List ℕ) × ((get_next_path_part path).0 ≡ some p)
              × (length (get_next_path_part path).1 < length path))
        → length path < suc fuel
        → (ps : List (List ℕ)) × (parse_parts (suc fuel) path ≡ some ps)
    parts_of fuel path rec (inl e) h = ([], parse_parts-none fuel path e)
    parts_of fuel path rec (inr (p, e, lt)) h =
        let (ps, r) = rec (omega arith) in (p ∷ ps, parse_parts-some fuel path p ps e r)

next_part-append :
    (p end : List ℕ)
    → p ≢ []
    → IsName p
    → (char_at end 0 ≡ b'/') ⊎ (char_at end 0 ≡ 0)
    → get_next_path_part (p ++ end) ≡ (some p, skip_slash end)
unfolding get_next_path_part
next_part-append [] end ne n e = absurd (ne refl)
next_part-append (c ∷ cs) end ne n e =
    let t = take_part-append (c ∷ cs) end n e in
    ap (λ (r : List ℕ × List ℕ). (part_or_null r.0, skip_slash r.1)) t

IsEnd-head : {end : List ℕ} → IsEnd end → (char_at end 0 ≡ b'/') ⊎ (char_at end 0 ≡ 0)
IsEnd-head stop = inr refl
IsEnd-head slash = inl refl
IsEnd-head (empty_part rest) = inl refl

IsEnd-none : {end : List ℕ} → IsEnd end → (get_next_path_part (skip_slash end)).0 ≡ none
unfolding get_next_path_part take_part
IsEnd-none stop = refl
IsEnd-none slash = refl
IsEnd-none (empty_part rest) = refl

-- Fuel for the parts.
parse_parts-print :
    (fuel : ℕ) (ps : List (List ℕ)) (end : List ℕ)
    → ps ≢ []
    → AreParts ps
    → IsEnd end
    → length (print_parts ps end) < fuel
    → parse_parts fuel (print_parts ps end) ≡ some ps
parse_parts-print fuel [] end ne a e h = absurd (ne refl)
parse_parts-print zero (p ∷ ps) end ne a e h = absurd (omega arith)
parse_parts-print (suc zero) (p ∷ []) end ne a e h =
    absurd (omega (arith, nonempty p a.0, length-append p end))
parse_parts-print (suc (suc fuel)) (p ∷ []) end ne a e h =
    let n = next_part-append p end a.0 a.1 (IsEnd-head e) in
    parse_parts-some (suc fuel) (p ++ end) p [] (ap (λ r. r.0) n)
      (rw n (parse_parts-none fuel (skip_slash end) (IsEnd-none e)))
parse_parts-print (suc fuel) (p ∷ q ∷ ps) end ne a e h =
    let n = next_part-append p (b'/' ∷ print_parts (q ∷ ps) end) a.0 a.1 (inl refl) in
    parse_parts-some fuel (p ++ (b'/' ∷ print_parts (q ∷ ps) end)) p (q ∷ ps) (ap (λ r. r.0) n) (
      rw n (
        parse_parts-print fuel (q ∷ ps) end (λ w. ground arith) a.2 e
          (omega (arith, length-append p (b'/' ∷ print_parts (q ∷ ps) end)))))

is_valid-print :
    (drive : ℕ) (rest : List ℕ)
    → drive < 10
    → strlen ((b'0' + drive) ∷ b':' ∷ b'/' ∷ rest) ≤ path_max_len
    → is_valid_path ((b'0' + drive) ∷ b':' ∷ b'/' ∷ rest) ≡ true
unfolding is_valid_path strlen is_digit memcmp
is_valid-print drive rest small fits = ground arith

-- A path of at most 128 characters, of a drive digit and at least one part, is parsed into that drive
-- and those parts; a slash at the end is dropped, and so is everything from an empty part on.
pub pathparser_parse-print_path :
    (drive : ℕ) (ps : List (List ℕ)) (end : List ℕ)
    → drive < 10
    → ps ≢ []
    → AreParts ps
    → IsEnd end
    → strlen (print_path drive ps end) ≤ path_max_len
    → pathparser_parse (print_path drive ps end)
      ≡ some (record { drive_number = drive; first = ps })
unfolding pathparser_parse get_drive_from_path
pathparser_parse-print_path drive [] end small ne a e fits = absurd (ne refl)
pathparser_parse-print_path drive (p ∷ ps) end small ne a e fits =
    let valid = is_valid-print drive (print_parts (p ∷ ps) end) small fits in
    let parts =
      parse_parts-print (suc (length (print_parts (p ∷ ps) end))) (p ∷ ps) end ne a e
        (omega arith) in
    ground (arith, valid, parts)

-- A path with no drive digit, or without :/ behind it, or longer than 128 characters, is refused.
pub pathparser_parse_refused :
    (path : List ℕ) → is_valid_path path ≡ false → pathparser_parse path ≡ none
unfolding pathparser_parse get_drive_from_path
pathparser_parse_refused path h = ground arith
