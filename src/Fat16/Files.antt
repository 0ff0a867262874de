-- ===== src/Fat16/Files.antt =====
-- The open files of src/fs/fat/fat16.c: what its struct filesystem offers to the file layer. The outer
-- `none` is a call that does not return a status: a scan of a directory that does not end in the fuel,
-- or a use of memory that is null, freed or of another type.
pub mod Read
pub mod Seek
pub mod Mounted
use ras_os.Base.{
  ◌^◌, ◌%◌, eunimp, erdonly, ◌==◌, leb, bit_and, eio, Option, if◌then◌else◌, ◌+◌, einvarg, List, ℕ,
  Result, [], err, ok, some, none, suc, zero,
}
use ras_os.FileTable.{FileMode, mode_read, FileStat}
use ras_os.Fat16.{FatPrivate, fat16_read_internal, ReadResult, behind}
use ras_os.Fat16.Directory.{
  FatDirectory, FatItem, file_item, directory_item, Lookup, found, missing, fault, unending,
  item_filesize, attribute, fat16_get_first_cluster, fat16_get_directory_entry,
}

pub record FatFileDescriptor : Type 0 where
  pub item : FatItem
  pub pos : ℕ

abbrev pub seek_set : ℕ
seek_set = 0

abbrev pub seek_cur : ℕ
seek_cur = 1

abbrev pub seek_end : ℕ
seek_end = 2

module _ (fuel : ℕ) (sectors : ℕ → List ℕ) (private : FatPrivate)
    (root_directory : FatDirectory) where
  unfoldable pub fat16_open : List (List ℕ) → FileMode → Option (Result FatFileDescriptor)
  fat16_open path mode_read =
      elim (fat16_get_directory_entry fuel sectors private root_directory path) [
        | found item ↦ some (ok (record { item = item; pos = 0 }))
        | missing ↦ some (err eio)
        | fault ↦ none
        | unending ↦ none
      ]
  fat16_open path mode = some (err erdonly)

module _ (sectors : ℕ → List ℕ) (private : FatPrivate) where
  -- The loop over the elements that are left, of `size` bytes each.
  unfoldable pub read_elements : (rounds : ℕ) → (cluster offset size : ℕ) → ReadResult
  read_elements zero cluster offset size = some (ok tt, [])
  read_elements (suc rounds) cluster offset size =
      let rest = read_elements rounds cluster (offset + size) size in
      elim (fat16_read_internal sectors private cluster offset size) [
        | none ↦ none
        | some (err e, out) ↦ some (err e, out)
        | some (ok u, out) ↦ behind out rest
      ]

  -- The position of the descriptor is not moved. For a directory the code takes its struct for an item.
  unfoldable pub fat16_read : FatFileDescriptor → (size nmemb : ℕ) → Option (Result ℕ × List ℕ)
  fat16_read descriptor size nmemb = elim descriptor.item [
    | directory_item d ↦ none
    | file_item item ↦
        elim (read_elements nmemb (fat16_get_first_cluster item) descriptor.pos size) [
          | none ↦ none
          | some (err e, out) ↦ some (err e, out)
          | some (ok u, out) ↦ some (ok nmemb, out)
        ]
  ]

unfoldable pub fat16_seek :
    FatFileDescriptor → (offset seek_mode : ℕ) → Result (Unit {0}) × FatFileDescriptor
fat16_seek desc offset seek_mode = elim desc.item [
  | directory_item d ↦ (err einvarg, desc)
  | file_item ritem ↦
      if leb (item_filesize ritem) offset
      then (err eio, desc)
      else if seek_mode == seek_set
      then (ok tt, record desc { pos = offset })
      else if seek_mode == seek_end
      then (err eunimp, desc)
      else if seek_mode == seek_cur
      then (ok tt, record desc { pos = (desc.pos + offset) % 2 ^ 32 })
      else (err einvarg, desc)
]

abbrev file_stat_read_only : ℕ
file_stat_read_only = 0x01

unfoldable pub fat16_stat : FatFileDescriptor → Result FileStat
fat16_stat descriptor = elim descriptor.item [
  | directory_item d ↦ err einvarg
  | file_item ritem ↦ ok (record {
    flags = if bit_and (attribute ritem) 0x01 == 0 then 0 else file_stat_read_only;
    filesize = item_filesize ritem;
  })
]

-- It frees the descriptor, and always succeeds.
unfoldable pub fat16_close : FatFileDescriptor → Result (Unit {0})
fat16_close private = ok tt
