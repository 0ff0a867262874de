-- ===== src/Fat16/Owned.antt =====
-- What the items and the open files of src/fs/fat/fat16.c own in memory. Blocks are those of
-- KernelHeap.Blocks, which are freed whole. kfree frees the first 4096 bytes of a request and leaves the rest
-- taken (Heap.Release), so that only requests of up to as much are modelled. What is read from the disk is
-- in Fat16.Directory.
use ras_os.KernelHeap.Blocks.{Blocks, allocate, free}
use ras_os.Fat16.{FatPrivate}
use ras_os.FileTable.{FileMode, mode_read}
use ras_os.Fat16.Directory.{
  FatDirectory, item_at, has_name, is_subdirectory, size_of_item, fat16_load_fat_directory,
}
use ras_os.Base.{
  ltb, ◌/◌, erdonly, ◌+◌, eio, ◌∷◌, if◌then◌else◌, take, Result, Option, List, ℕ, [], err, some,
  none, suc, zero, ok,
}
pub mod Items
pub mod Found
pub mod Closed

-- struct fat_directory: its block, and the one of its items.
pub record DirectoryBlocks : Type 0 where
  pub directory : ℕ
  pub items : ℕ

-- The union of struct fat_item, with the blocks that it points to. The directory is `none` where it has been
-- freed.
pub data OwnedUnion : Type 0 where
  owned_item : List ℕ → (block : ℕ) → OwnedUnion
  owned_directory : Option FatDirectory → DirectoryBlocks → OwnedUnion

pub record OwnedItem : Type 0 where
  pub f_item : ℕ
  pub union : OwnedUnion

pub record OwnedDescriptor : Type 0 where
  pub desc : ℕ
  pub item : OwnedItem

unfoldable pub fat16_free_directory : Blocks → DirectoryBlocks → Option Blocks
fat16_free_directory b d = elim (free b d.items) [ none ↦ none | some b1 ↦ free b1 d.directory ]

unfoldable pub fat16_free_union : Blocks → OwnedUnion → Option Blocks
fat16_free_union b (owned_directory d blocks) = fat16_free_directory b blocks
fat16_free_union b (owned_item item block) = free b block

-- `none` is the free of a block that is not live.
unfoldable pub fat16_fat_item_free : Blocks → OwnedItem → Option Blocks
fat16_fat_item_free b o = elim (fat16_free_union b o.union) [
  | none ↦ none
  | some b1 ↦ free b1 o.f_item
]

unfoldable pub fat16_free_file_descriptor : Blocks → OwnedDescriptor → Option Blocks
fat16_free_file_descriptor b d = elim (fat16_fat_item_free b d.item) [
  | none ↦ none
  | some b1 ↦ free b1 d.desc
]

unfoldable pub close_in : Blocks → OwnedDescriptor → Option Blocks
close_in b d = fat16_free_file_descriptor b d

-- The items of a block.
abbrev pub most_items : ℕ
most_items = 4096 / size_of_item

module _ (fuel : ℕ) (sectors : ℕ → List ℕ) (private : FatPrivate) where
  -- After an error, of which one is that the directory has no items and kzalloc gives null for them, what is
  -- allocated is freed, and the directory returned still. The outer `none` is a scan that does not end in the
  -- fuel, or a directory of more items than a block of 4096 bytes has.
  unfoldable pub load_directory_in :
      Blocks → (item : List ℕ) → Option (Option FatDirectory × DirectoryBlocks × Blocks)
  load_directory_in b item =
      let (directory, b1) = allocate b in
      let (items, b2) = allocate b1 in
      let blocks : DirectoryBlocks = record { directory = directory; items = items } in
      elim (fat16_load_fat_directory fuel sectors private item) [
        | none ↦ none
        | some (some d) ↦ if ltb most_items d.total then none else some (some d, blocks, b2)
        | some none ↦ elim (fat16_free_directory b2 blocks) [
          | none ↦ none
          | some b3 ↦ some (none, blocks, b3)
        ]
      ]

  unfoldable pub fat16_clone_directory_item : Blocks → List ℕ → List ℕ × ℕ × Blocks
  fat16_clone_directory_item b item =
      let (block, b1) = allocate b in (take size_of_item item, block, b1)

  unfoldable pub new_fat_item_in : Blocks → (item : List ℕ) → Option (OwnedItem × Blocks)
  new_fat_item_in b item =
      let (f_item, b1) = allocate b in
      if is_subdirectory item
      then elim (load_directory_in b1 item) [
        | none ↦ none
        | some (d, blocks, b2) ↦
            some (record { f_item = f_item; union = owned_directory d blocks }, b2)
      ]
      else let (clone, block, b2) = fat16_clone_directory_item b1 item in
        some (record { f_item = f_item; union = owned_item clone block }, b2)

  -- The loop over the items from index `i` on, with `f_item` as the one found last, whose blocks a later one
  -- leaves behind.
  unfoldable pub find_item_in :
      (rounds i : ℕ)
      → FatDirectory
      → (name : List ℕ) → (f_item : Option OwnedItem) → Blocks
      → Option (Option OwnedItem × Blocks)
  find_item_in zero i directory name f_item b = some (f_item, b)
  find_item_in (suc rounds) i directory name f_item b =
      if has_name (item_at directory i) name
      then elim (new_fat_item_in b (item_at directory i)) [
        | none ↦ none
        | some (o, b1) ↦ find_item_in rounds (i + 1) directory name (some o) b1
      ]
      else find_item_in rounds (i + 1) directory name f_item b

  -- The loop over the parts of a path behind an item. Where an item on the way is a file, it is not freed;
  -- `none` is also the use of a directory that was freed, and of an item that was not found.
  unfoldable pub entry_behind :
      (path : List (List ℕ)) → OwnedItem → Blocks → Option (Option OwnedItem × Blocks)
  entry_behind [] current_item b = some (some current_item, b)
  entry_behind (part ∷ path) current_item b = elim current_item.union [
    | owned_item item block ↦ some (none, b)
    | owned_directory none blocks ↦ none
    | owned_directory (some directory) blocks ↦
        elim (find_item_in directory.total 0 directory part none b) [
          | none ↦ none
          | some (tmp_item, b1) ↦ elim (fat16_fat_item_free b1 current_item) [
            | none ↦ none
            | some b2 ↦ elim tmp_item [
              | some o ↦ entry_behind path o b2
              | none ↦ elim path [ [] ↦ some (none, b2) | q ∷ qs ↦ none ]
            ]
          ]
        ]
  ]

  module _ (root_directory : FatDirectory) where
    unfoldable pub directory_entry_in :
        (path : List (List ℕ)) → Blocks → Option (Option OwnedItem × Blocks)
    directory_entry_in [] b = none
    directory_entry_in (part ∷ path) b =
        elim (find_item_in root_directory.total 0 root_directory part none b) [
          | none ↦ none
          | some (none, b1) ↦ some (none, b1)
          | some (some root_item, b1) ↦ entry_behind path root_item b1
        ]

    -- Where there is no item, the descriptor is not freed.
    unfoldable pub open_in :
        Blocks → (path : List (List ℕ)) → FileMode → Option (Result OwnedDescriptor × Blocks)
    open_in b path mode_read =
        let (descriptor, b1) = allocate b in
        elim (directory_entry_in path b1) [
          | none ↦ none
          | some (none, b2) ↦ some (err eio, b2)
          | some (some o, b2) ↦ some (ok (record { desc = descriptor; item = o }), b2)
        ]
    open_in b path mode = some (err erdonly, b)
