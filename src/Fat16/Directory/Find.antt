-- ===== src/Fat16/Directory/Find.antt =====
-- What the search of a directory of src/fs/fat/fat16.c finds.
use ras_os.Base.{
  Option-cases, ==→eq, Bool-cases, ap, ℕ_discrete, map, ◌+◌, ◌≤◌, ◌∷◌, ◌↔◌, ◌≢◌, ◌<◌, ◌≡◌, Option,
  List, ℕ, arith, refl, inr, inl, some, none, false, true, suc, zero,
}
use ras_os.Base.Int.{ℤ, pos, negsuc, is_zero}
use ras_os.CString.{tolower}
use ras_os.CString.Text.{text_to}
use ras_os.CString.Compare.{istrncmp_iff}
use ras_os.PathParser.{path_max_len}
use ras_os.Fat16.{FatPrivate}
use ras_os.Fat16.Directory.{
  combine_filename_and_ext, FatDirectory, FatItem, directory_item, item_at, has_name, find_from,
  fat16_find_item_in_directory, fat16_new_fat_item_for_directory_item, fault, walk,
}

-- An item has a name exactly if the two are the same but for the case of letters, up to 128 characters.
pub has_name_iff :
    (item name : List ℕ)
    → (has_name item name ≡ true) ↔ (
        map tolower (text_to path_max_len (combine_filename_and_ext item))
        ≡ map tolower (text_to path_max_len name))
unfolding has_name
has_name_iff item name =
    let (to, from) = istrncmp_iff (combine_filename_and_ext item) name path_max_len in
    (λ e. to (zero_of _ e), λ e. ap is_zero (from e))
  where
    zero_of : (z : ℤ) → is_zero z ≡ true → z ≡ pos 0
    zero_of (pos n) e = ap pos (==→eq n 0 e)
    zero_of (negsuc n) e = ground arith

module _ (fuel : ℕ) (sectors : ℕ → List ℕ) (private : FatPrivate) (directory : FatDirectory)
    (name : List ℕ) where
  abbrev find : (rounds i : ℕ) → Option FatItem → Option (Option FatItem)
  find rounds i = find_from fuel sectors private rounds i directory name

  abbrev new_item : ℕ → Option FatItem
  new_item i = fat16_new_fat_item_for_directory_item fuel sectors private (item_at directory i)

  -- Items without the name change nothing.
  find-none :
      (rounds i : ℕ) (f : Option FatItem)
      → ((j : ℕ) → i ≤ j → j < i + rounds → has_name (item_at directory j) name ≡ false)
      → find rounds i f ≡ some f
  unfolding find_from
  find-none zero i f h = refl
  find-none (suc rounds) i f h =
      rw (h i (omega arith) (omega arith), find_from)
        (find-none rounds (i + 1) f (λ j lo hi. h j (omega arith) (omega arith)))

  -- The last with the name is found, if what is read for those before it ends.
  find-last :
      (rounds i k : ℕ) (f : Option FatItem) (x : FatItem)
      → i ≤ k
      → k < i + rounds
      → has_name (item_at directory k) name ≡ true
      → new_item k ≡ some x
      → ((j : ℕ) → j < k → new_item j ≢ none)
      → ((j : ℕ) → k < j → j < i + rounds → has_name (item_at directory j) name ≡ false)
      → find rounds i f ≡ some (some x)
  unfolding find_from
  find-last zero i k f x lo hi named new ends after = absurd (omega arith)
  find-last (suc rounds) i k f x lo hi named new ends after = elim (ℕ_discrete i k) [
    | yes e ↦
        rw (e, named, new, find_from)
          (find-none rounds (i + 1) (some x) (λ j l h. after j (omega arith) (omega arith)))
    | no ne ↦
        let ih = λ (g : Option FatItem).
          find-last rounds (i + 1) k g x (omega arith) (omega arith) named new ends
            (λ j l h. after j l (omega arith)) in
        elim (Bool-cases (has_name (item_at directory i) name)) [
          | inl t ↦ elim (Option-cases (new_item i)) [
            | inl z ↦ absurd (ends i (omega arith) z)
            | inr (y, q) ↦ rw (t, q, find_from) (ih (some y))
          ]
          | inr u ↦ rw (u, find_from) (ih f)
        ]
  ]

  -- In a directory in which the item at index `k` has the name, and none behind it, the search gives that
  -- item, if what is read for the items before it ends.
  pub fat16_find_item_lem :
      (k : ℕ) (x : FatItem)
      → k < directory.total
      → has_name (item_at directory k) name ≡ true
      → new_item k ≡ some x
      → ((j : ℕ) → j < k → new_item j ≢ none)
      → ((j : ℕ) → k < j → j < directory.total → has_name (item_at directory j) name ≡ false)
      → fat16_find_item_in_directory fuel sectors private directory name ≡ some (some x)
  unfolding fat16_find_item_in_directory
  fat16_find_item_lem k x h named new ends after =
      find-last directory.total 0 k none x (omega arith) (omega arith) named new ends
        (λ j l h. after j l (omega arith))

  pub fat16_find_item_none :
      ((j : ℕ) → j < directory.total → has_name (item_at directory j) name ≡ false)
      → fat16_find_item_in_directory fuel sectors private directory name ≡ some none
  unfolding fat16_find_item_in_directory
  fat16_find_item_none h = find-none directory.total 0 none (λ j lo hi. h j (omega arith))

  -- A path through a directory that is not there uses a null pointer: the loop reads the type of an item
  -- that was not found, if parts of the path are left.
  pub walk-fault :
      (q : List ℕ) (parts : List (List ℕ))
      → ((j : ℕ) → j < directory.total → has_name (item_at directory j) name ≡ false)
      → walk fuel sectors private (directory_item (some directory)) (name ∷ q ∷ parts) ≡ fault
  unfolding walk
  walk-fault q parts h = rw (fat16_find_item_none h, walk)
