-- ===== src/Fat16/Directory.antt =====
-- The directories of src/fs/fat/fat16.c. An item is the list of the bytes from its address on, so that
-- what stands behind it in memory can be read: the names are copied up to a space or a 0, and not up to
-- the end of their fields. The allocations are taken to succeed.
pub mod Names
pub mod Count
pub mod Find
use ras_os.Base.{
  ◌%◌, enomem, ◌++◌, ◌&&◌, bit_and, ◌||◌, ◌^◌, eio, not, take, ◌==◌, Result, ◌*◌, get_or, ◌∷◌,
  bit_or, drop, Option, if◌then◌else◌, ◌+◌, Bool, ℕ, List, [], err, ok, some, none, false, suc,
  zero,
}
use ras_os.Base.Int.{is_zero}
use ras_os.Disk.{sector_size}
use ras_os.CString.{istrncmp}
use ras_os.PathParser.{path_max_len}
use ras_os.Fat16.{FatPrivate, read_at, fat16_read_internal, fat16_cluster_to_sector}

abbrev pub size_of_item : ℕ
size_of_item = 32

abbrev fat_file_subdirectory : ℕ
fat_file_subdirectory = 0x10

-- The fields of struct fat_directory_item; words have their lowest byte first.
abbrev pub attribute : List ℕ → ℕ
attribute item = get_or item 11 0

abbrev half_at : List ℕ → ℕ → ℕ
half_at item i = get_or item i 0 + 256 * get_or item (i + 1) 0

abbrev pub item_filesize : List ℕ → ℕ
item_filesize item = half_at item 28 + 65536 * half_at item 30

unfoldable pub fat16_get_first_cluster : List ℕ → ℕ
fat16_get_first_cluster item = bit_or (half_at item 20 * 2 ^ 16) (half_at item 26)

unfoldable pub is_subdirectory : List ℕ → Bool
is_subdirectory item = not (bit_and (attribute item) fat_file_subdirectory == 0)

pub record FatDirectory : Type 0 where
  pub item : List ℕ
  pub total : ℕ

-- struct fat_item. The directory is `none` where its memory has been freed, or is null.
pub data FatItem : Type 0 where
  file_item : List ℕ → FatItem
  directory_item : Option FatDirectory → FatItem

-- The characters that are copied: those before the first space or 0.
unfoldable pub remove_padded_spaces : List ℕ → List ℕ
remove_padded_spaces [] = []
remove_padded_spaces (c ∷ padded) =
    if (c == 0x00) || (c == 0x20) then [] else c ∷ remove_padded_spaces padded

-- The text in the buffer, which is zeroed first. A text that is longer than the buffer is not cut.
unfoldable pub combine_filename_and_ext : List ℕ → List ℕ
combine_filename_and_ext item =
    if not (get_or item 8 0 == 0x00) && not (get_or item 8 0 == 0x20)
    then remove_padded_spaces item ++ (b'.' ∷ remove_padded_spaces (drop 8 item))
    else remove_padded_spaces item

-- The loop of fat16_get_total_items_for_directory, from the item at a position on; `none` if the fuel
-- runs out, or a position is no `int`.
unfoldable pub count_items : (fuel : ℕ) → (ℕ → List ℕ) → (position i : ℕ) → Option (Result ℕ)
count_items zero sectors position i = none
count_items (suc fuel) sectors position i =
    let r = read_at sectors position size_of_item in
    let first = get_or r.out 0 0 in
    let rest =
      count_items fuel sectors (position + size_of_item) (if first == 0xE5 then i else i + 1) in
    elim r.status [
      | none ↦ none
      | some (err e) ↦ some (err eio)
      | some (ok u) ↦ if first == 0x00 then some (ok i) else rest
    ]

unfoldable pub fat16_get_total_items_for_directory :
    (fuel : ℕ) → (ℕ → List ℕ) → (directory_start_sector : ℕ) → Option (Result ℕ)
fat16_get_total_items_for_directory fuel sectors directory_start_sector =
    count_items fuel sectors (directory_start_sector * sector_size % 2 ^ 32) 0

-- The item of a directory at an index, and whether it has a name.
abbrev pub item_at : FatDirectory → ℕ → List ℕ
item_at directory i = drop (i * size_of_item) directory.item

unfoldable pub has_name : List ℕ → List ℕ → Bool
has_name item name = is_zero (istrncmp (combine_filename_and_ext item) name path_max_len)

-- What a path leads to. A fault is a use of memory that is freed or null; `unending` is a scan of a
-- directory that does not end in the fuel.
pub data Lookup : Type 0 where
  found : FatItem → Lookup
  missing fault unending : Lookup

module _ (fuel : ℕ) (sectors : ℕ → List ℕ) (private : FatPrivate) where
  -- The outer `none` is a scan that does not end in the fuel. kzalloc returns null for no items. After an error the code frees the directory
  -- and returns its address still; a failed scan, which the kernel's disk does not give, counts as one.
  unfoldable pub fat16_load_fat_directory : List ℕ → Option (Option FatDirectory)
  fat16_load_fat_directory item =
      let cluster = fat16_get_first_cluster item in
      if not (is_subdirectory item)
      then some none
      else elim (fat16_get_total_items_for_directory fuel sectors
          (fat16_cluster_to_sector private cluster)) [
            | none ↦ none
            | some (err e) ↦ some none
            | some (ok total) ↦
                elim (if total == 0
                  then some (err enomem, [])
                  else fat16_read_internal sectors private cluster 0 (total * size_of_item)) [
                    | none ↦ none
                    | some (err e, out) ↦ some none
                    | some (ok u, out) ↦ some (some (record { item = out; total = total }))
                  ]
          ]

  unfoldable pub fat16_new_fat_item_for_directory_item : List ℕ → Option FatItem
  fat16_new_fat_item_for_directory_item item =
      if is_subdirectory item
      then elim (fat16_load_fat_directory item) [ none ↦ none | some d ↦ some (directory_item d) ]
      else some (file_item (take size_of_item item))

  -- The loop over the items from index `i` on, with `f_item` as the one found last.
  unfoldable pub find_from :
      (rounds i : ℕ) → FatDirectory → List ℕ → Option FatItem → Option (Option FatItem)
  find_from zero i directory name f_item = some f_item
  find_from (suc rounds) i directory name f_item =
      let new = fat16_new_fat_item_for_directory_item (item_at directory i) in
      elim (if has_name (item_at directory i) name
        then elim new [ none ↦ none | some f ↦ some (some f) ]
        else some f_item) [
          | none ↦ none
          | some f_item' ↦ find_from rounds (i + 1) directory name f_item'
        ]

  unfoldable pub fat16_find_item_in_directory : FatDirectory → List ℕ → Option (Option FatItem)
  fat16_find_item_in_directory directory name = find_from directory.total 0 directory name none

  -- The loop over the parts of a path behind the first. The code reads the type of the item before it
  -- knows that there is one.
  unfoldable pub walk : FatItem → List (List ℕ) → Lookup
  walk current_item [] = found current_item
  walk (file_item item) (part ∷ parts) = missing
  walk (directory_item none) (part ∷ parts) = fault
  walk (directory_item (some directory)) (part ∷ parts) =
      elim (fat16_find_item_in_directory directory part) [
        | none ↦ unending
        | some none ↦ elim parts [ [] ↦ missing | q ∷ qs ↦ fault ]
        | some (some tmp_item) ↦ walk tmp_item parts
      ]

  -- A path has a part at least.
  unfoldable pub fat16_get_directory_entry : FatDirectory → List (List ℕ) → Lookup
  fat16_get_directory_entry root_directory [] = fault
  fat16_get_directory_entry root_directory (part ∷ parts) =
      elim (fat16_find_item_in_directory root_directory part) [
        | none ↦ unending
        | some none ↦ missing
        | some (some root_item) ↦ walk root_item parts
      ]
