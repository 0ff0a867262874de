-- ===== src/FileTable.antt =====
-- src/fs/file.c: the table of file descriptors over a file system. The file system is behind the
-- function pointers of struct filesystem: it is a parameter here, its state for an open file is the
-- private data, which the calls update. A null descriptor is `none`; `none` as an outcome is a use of
-- a null pointer. The disk and its file system are those of drive 0, as the kernel has them.
pub mod Slots
pub mod Open
pub mod Registry
mod Examples
use ras_os.Base.{
  leb, get_or, eio, ◌||◌, ◌∷◌, einvarg, ◌+◌, ◌-◌, enomem, ◌==◌, if◌then◌else◌, Result, set, List, ℕ,
  Option, Bool, [], err, ok, some, none, false, suc, zero,
}
use ras_os.Base.Int.{is_zero, ℤ, pos, negsuc}
use ras_os.CString.{strncmp}
use ras_os.PathParser.{PathRoot, pathparser_parse}
use ras_os.Disk.{disk_get}

abbrev pub max_filedescriptors : ℕ
max_filedescriptors = 512

pub data FileMode : Type 0 where
  mode_read mode_write mode_append mode_invalid : FileMode

pub record FileStat : Type 0 where
  pub flags : ℕ
  pub filesize : ℕ

-- struct filesystem, less resolve and the name; `D` is the private data of an open file.
pub record Filesystem (D : Type 0) : Type 0 where
  pub fs_open : List (List ℕ) → FileMode → Result D
  pub fs_read : D → (size nmemb : ℕ) → Result ℕ × List ℕ × D
  pub fs_seek : D → (offset whence : ℕ) → Result (Unit {0}) × D
  pub fs_stat : D → Result FileStat
  pub fs_close : D → Result (Unit {0})

unfoldable pub file_get_mode_by_string : List ℕ → FileMode
file_get_mode_by_string str =
    if is_zero (strncmp str (b'r' ∷ []) 1)
    then mode_read
    else if is_zero (strncmp str (b'w' ∷ []) 1)
    then mode_write
    else if is_zero (strncmp str (b'a' ∷ []) 1)
    then mode_append
    else mode_invalid

module _ {D : Type 0} where
  -- The table: at `i` the private data of the descriptor of index `i + 1`.
  -- The loop over the slots from `i` on, for the first that is free.
  unfoldable pub free_slot : (rounds i : ℕ) → List (Option D) → Result ℕ
  free_slot zero i table = err enomem
  free_slot (suc rounds) i table =
      let rest = free_slot rounds (i + 1) table in
      elim (get_or table i none) [ none ↦ ok i | some d ↦ rest ]

  -- The index of the new descriptor and the table with it; `d` is what fopen stores in it.
  abbrev pub new_at : List (Option D) → D → Result ℕ → Result (ℕ × List (Option D))
  new_at table d (err e) = err e
  new_at table d (ok i) = ok (i + 1, set table i (some d))

  unfoldable pub file_new_descriptor : List (Option D) → D → Result (ℕ × List (Option D))
  file_new_descriptor table d = new_at table d (free_slot max_filedescriptors 0 table)

  unfoldable pub file_free_descriptor : List (Option D) → (index : ℕ) → List (Option D)
  file_free_descriptor table index = set table (index - 1) none

  unfoldable pub file_get_descriptor : List (Option D) → ℤ → Option D
  file_get_descriptor table (negsuc n) = none
  file_get_descriptor table (pos fd) =
      if (fd == 0) || leb max_filedescriptors fd then none else get_or table (fd - 1) none

  -- The file system of the disk is `none` if none was resolved.
  unfoldable pub fopen_status :
      Option (Filesystem D) → List (Option D) → List ℕ → List ℕ → Result (ℕ × List (Option D))
  fopen_status fs table filename mode_str = elim (pathparser_parse filename) [
    | none ↦ err einvarg
    | some root ↦ elim (disk_get root.drive_number) [
      | none ↦ err eio
      | some disk ↦ elim fs [
        | none ↦ err eio
        | some f ↦ elim (file_get_mode_by_string mode_str) [
          | mode_invalid ↦ err einvarg
          | mode ↦ elim (f.fs_open root.first mode) [
            | err e ↦ err e
            | ok d ↦ file_new_descriptor table d
          ]
        ]
      ]
    ]
  ]

  -- A negative status becomes 0.
  unfoldable pub fopen :
      Option (Filesystem D) → List (Option D) → List ℕ → List ℕ → ℕ × List (Option D)
  unfolding fopen_status
  fopen fs table filename mode_str = elim (fopen_status fs table filename mode_str) [
    | err e ↦ (0, table)
    | ok r ↦ r
  ]

  -- The table with the private data of a descriptor as a call of the file system leaves it.
  abbrev replace_data : List (Option D) → ℤ → D → List (Option D)
  replace_data table (pos n) d = set table (n - 1) (some d)
  replace_data table (negsuc n) d = table

  module _ (fs : Filesystem D) where
    unfoldable pub fread :
        List (Option D) → (size nmemb : ℕ) → ℤ → Result ℕ × List ℕ × List (Option D)
    fread table size nmemb fd =
        if (size == 0) || (nmemb == 0)
        then (err einvarg, [], table)
        else elim (file_get_descriptor table fd) [
          | none ↦ (err einvarg, [], table)
          | some d ↦
              let (res, out, d') = fs.fs_read d size nmemb in (res, out, replace_data table fd d')
        ]

    -- The code tests `fd` where it means the descriptor; its status is then positive.
    pub fseek : List (Option D) → ℤ → (offset whence : ℕ) → Option (Result ℕ × List (Option D))
    fseek table (pos fd) offset whence =
        if fd == 0 then some (ok einvarg, table) else elim (file_get_descriptor table (pos fd)) [
          | none ↦ none
          | some d ↦
              let (res, d') = fs.fs_seek d offset whence in
              some (elim res [ ok u ↦ ok 0 | err e ↦ err e ], set table (fd - 1) (some d'))
        ]
    fseek table (negsuc n) offset whence = none

    unfoldable pub fstat : List (Option D) → ℤ → Result FileStat
    fstat table fd = elim (file_get_descriptor table fd) [
      | none ↦ err einvarg
      | some d ↦ fs.fs_stat d
    ]

    unfoldable pub fclose : List (Option D) → ℤ → Result (Unit {0}) × List (Option D)
    fclose table fd = elim (file_get_descriptor table fd) [
      | none ↦ (err einvarg, table)
      | some d ↦ elim (fs.fs_close d) [
        | err e ↦ (err e, table)
        | ok u ↦ (ok tt, elim fd [ pos n ↦ file_free_descriptor table n | negsuc n ↦ table ])
      ]
    ]
