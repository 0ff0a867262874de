-- ===== src/Fat16/Directory/Names.antt =====
-- The names of directory items (combine_filename_and_ext of src/fs/fat/fat16.c).
use ras_os.Base.{
  get_or, length, drop, replicate, subst, sym, ne→==, ◌&&◌, ◌==◌, not, if◌then◌else◌, ap₂,
  length-replicate, ◌∙◌, ◌⊎◌, ap, ◌-◌, drop, length-append, ◌≢◌, replicate, ◌≤◌, ◌≡◌, ◌<◌, ◌∷◌,
  length, ◌++◌, List, ℕ, arith, [], refl, inr, inl, suc, zero,
}
use mathlib.Core.List.{append_assoc, append-nil}
use ras_os.CString.Text.{char_at-drop}
use ras_os.Fat16.Directory.{remove_padded_spaces, combine_filename_and_ext}

-- Characters that are copied: neither a space nor 0.
abbrev pub IsLabel : List ℕ → Type 0
IsLabel [] = Unit {0}
IsLabel (c ∷ cs) = (c ≢ 0x00) × (c ≢ 0x20) × IsLabel cs

-- A label in a field of `k` bytes, with spaces behind it.
abbrev pub padded_to : ℕ → List ℕ → List ℕ
padded_to k label = label ++ replicate (k - length label) 0x20

-- An item with a name, an extension, and what stands behind them.
abbrev pub item_of : (name ext behind : List ℕ) → List ℕ
item_of name ext behind = padded_to 8 name ++ (padded_to 3 ext ++ behind)

-- The name as a path has it.
abbrev with_dot : (ext name end : List ℕ) → List ℕ
with_dot [] name end = name
with_dot (c ∷ cs) name end = name ++ (b'.' ∷ end)

abbrev pub dotted : (name ext : List ℕ) → List ℕ
dotted name ext = with_dot ext name ext

-- The copy goes through a label, and on to what is behind it.
remove_padded-append :
    (label behind : List ℕ)
    → IsLabel label
    → remove_padded_spaces (label ++ behind) ≡ label ++ remove_padded_spaces behind
unfolding remove_padded_spaces
remove_padded-append [] behind l = refl
remove_padded-append (c ∷ cs) behind (n, s, l) = ground (arith, remove_padded-append cs behind l)

remove_padded-stop :
    (s : List ℕ) → (get_or s 0 0 ≡ 0x00) ⊎ (get_or s 0 0 ≡ 0x20) → remove_padded_spaces s ≡ []
unfolding remove_padded_spaces
remove_padded-stop [] h = refl
remove_padded-stop (c ∷ s) h = ground arith

-- In a field with room for a space, or before a space or a 0, the copy is the label.
remove_padded-field :
    (k : ℕ) (label behind : List ℕ)
    → IsLabel label
    → (length label < k)
      ⊎ ((k ≡ length label) × ((get_or behind 0 0 ≡ 0x00) ⊎ (get_or behind 0 0 ≡ 0x20)))
    → remove_padded_spaces (padded_to k label ++ behind) ≡ label
remove_padded-field k label behind l h =
    ap remove_padded_spaces (append_assoc label (replicate (k - length label) 0x20) behind)
    ∙ remove_padded-append label (replicate (k - length label) 0x20 ++ behind) l
    ∙ ap (λ r. label ++ r)
        (remove_padded-stop _ (
          head_of (k - length label)
            (elim h [ inl lt ↦ inl (omega arith) | inr (e, s) ↦ inr (omega arith, s) ])))
    ∙ append-nil label
  where
    head_of :
        (n : ℕ)
        → (0 < n) ⊎ ((n ≡ 0) × ((get_or behind 0 0 ≡ 0x00) ⊎ (get_or behind 0 0 ≡ 0x20)))
        → (get_or (replicate n 0x20 ++ behind) 0 0 ≡ 0x00)
          ⊎ (get_or (replicate n 0x20 ++ behind) 0 0 ≡ 0x20)
    head_of zero (inl lt) = absurd (omega arith)
    head_of zero (inr (e, s)) = s
    head_of (suc n) s = inr refl

drop-append : (n : ℕ) (xs ys : List ℕ) → length xs ≡ n → drop n (xs ++ ys) ≡ ys
drop-append zero [] ys e = refl
drop-append zero (x ∷ xs) ys e = absurd (omega arith)
drop-append (suc n) [] ys e = absurd (omega arith)
drop-append (suc n) (x ∷ xs) ys e = drop-append n xs ys (omega arith)

length-padded_to : (k : ℕ) (label : List ℕ) → length label ≤ k → length (padded_to k label) ≡ k
length-padded_to k label h =
    length-append label (replicate (k - length label) 0x20)
    ∙ omega (arith, length-replicate {A = ℕ} (k - length label) 0x20)

-- The code reads the extension at byte 8.
combine-ext :
    (item field : List ℕ)
    → drop 8 item ≡ field
    → combine_filename_and_ext item ≡ (
        if not (get_or field 0 0 == 0x00) && not (get_or field 0 0 == 0x20)
        then remove_padded_spaces item ++ (b'.' ∷ remove_padded_spaces field)
        else remove_padded_spaces item)
unfolding combine_filename_and_ext
combine-ext item field e =
    let head : get_or item 8 0 ≡ get_or field 0 0 =
      subst (λ f. get_or item 8 0 ≡ get_or f 0 0) e (sym (char_at-drop 8 0 item)) in
    rw (head, e) refl

dotted_from :
    (name ext behind : List ℕ)
    → length name ≤ 8
    → IsLabel ext
    → combine_filename_and_ext (item_of name ext behind)
      ≡ with_dot ext
          (remove_padded_spaces (item_of name ext behind))
          (remove_padded_spaces (padded_to 3 ext ++ behind))
dotted_from name [] behind h l =
    combine-ext (item_of name [] behind) (padded_to 3 [] ++ behind)
      (drop-append 8 (padded_to 8 name) (padded_to 3 [] ++ behind) (length-padded_to 8 name h))
dotted_from name (c ∷ cs) behind h (z, s, l) =
    combine-ext (item_of name (c ∷ cs) behind) (padded_to 3 (c ∷ cs) ++ behind) (
      drop-append 8 (padded_to 8 name) (padded_to 3 (c ∷ cs) ++ behind) (length-padded_to 8 name h))
    ∙ rw (ne→== c 0x00 z, ne→== c 0x20 s) refl

-- An extension of three characters ends where the next byte, that of the attributes, is 0 or that of a
-- space.
abbrev pub EndsBefore : (ext behind : List ℕ) → Type 0
EndsBefore ext behind =
    (length ext < 3)
    ⊎ ((3 ≡ length ext) × ((get_or behind 0 0 ≡ 0x00) ⊎ (get_or behind 0 0 ≡ 0x20)))

-- For a name of at most seven characters, and an extension that ends before the attributes, the code
-- finds the name with a dot and the extension, and no dot if there is no extension.
pub combine_filename_and_ext_lem :
    (name ext behind : List ℕ)
    → IsLabel name
    → length name < 8
    → IsLabel ext
    → EndsBefore ext behind
    → combine_filename_and_ext (item_of name ext behind) ≡ dotted name ext
combine_filename_and_ext_lem name [] behind n h l e =
    dotted_from name [] behind (omega arith) l
    ∙ remove_padded-field 8 name (padded_to 3 [] ++ behind) n (inl h)
combine_filename_and_ext_lem name (c ∷ cs) behind n h l e =
    dotted_from name (c ∷ cs) behind (omega arith) l
    ∙ ap₂ (λ a b. a ++ (b'.' ∷ b))
        (remove_padded-field 8 name (padded_to 3 (c ∷ cs) ++ behind) n (inl h))
        (remove_padded-field 3 (c ∷ cs) behind l e)

-- A name that fills its eight characters runs into the extension, which then stands there twice.
pub combine_filename_and_ext_full :
    (name ext behind : List ℕ)
    → IsLabel name
    → length name ≡ 8
    → ext ≢ []
    → IsLabel ext
    → EndsBefore ext behind
    → combine_filename_and_ext (item_of name ext behind) ≡ (name ++ ext) ++ (b'.' ∷ ext)
combine_filename_and_ext_full name [] behind n h ne l e = absurd (ne refl)
combine_filename_and_ext_full name (c ∷ cs) behind n h ne l e =
    let field = remove_padded-field 3 (c ∷ cs) behind l e in
    let whole : item_of name (c ∷ cs) behind ≡ name ++ (padded_to 3 (c ∷ cs) ++ behind) =
      ap (λ k. (name ++ replicate k 0x20) ++ (padded_to 3 (c ∷ cs) ++ behind)) {y = 0} (omega arith)
      ∙ ap (λ r. r ++ (padded_to 3 (c ∷ cs) ++ behind)) (append-nil name) in
    dotted_from name (c ∷ cs) behind (omega arith) l
    ∙ ap₂ (λ a b. a ++ (b'.' ∷ b))
        (ap remove_padded_spaces whole
          ∙ remove_padded-append name (padded_to 3 (c ∷ cs) ++ behind) n
          ∙ ap (λ r. name ++ r) field)
        field
