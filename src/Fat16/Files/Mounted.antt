-- ===== src/Fat16/Files/Mounted.antt =====
-- FAT16 behind the file layer: fopen and fread of src/fs/file.c over src/fs/fat/fat16.c.
use ras_os.Base.{
  ne→==, sym, set-set, ◌∙◌, ap, ◌-◌, set, length, ◌≤◌, ◌*◌, get_or, ◌<◌, ◌≡◌, Option, Result, List,
  ℕ, arith, refl, ok, some,
}
use ras_os.Base.Int.{pos}
use ras_os.PathParser.{pathparser_parse, PathRoot}
use ras_os.FileTable.{
  Filesystem, FileMode, mode_read, file_get_mode_by_string, max_filedescriptors,
  file_new_descriptor, fopen, fopen_status, fread,
}
use ras_os.FileTable.Slots.{IsFileTable}
use ras_os.FileTable.Open.{IsNew, file_new_descriptor-IsNew}
use ras_os.Disk.{int_end, disk_get}
use ras_os.Fat16.{size_of_cluster_bytes, FatPrivate}
use ras_os.Fat16.Chain.{IsLinked}
use ras_os.Fat16.Contents.{AreData, file_bytes}
use ras_os.Fat16.Directory.{
  FatDirectory, FatItem, file_item, found, fat16_get_directory_entry, fat16_get_first_cluster,
}
use ras_os.Fat16.Files.{
  FatFileDescriptor, fat16_open, fat16_read, fat16_seek, fat16_stat, fat16_close,
}
use ras_os.Fat16.Files.Read.{AreWithin, fat16_read_lem}

-- A struct filesystem whose operations are those of FAT16, wherever these return.
pub record Implements (fs : Filesystem FatFileDescriptor) (fuel : ℕ) (sectors : ℕ → List ℕ)
    (private : FatPrivate) (root_directory : FatDirectory) : Type 0 where
  pub opens :
      (path : List (List ℕ)) (mode : FileMode) (r : Result FatFileDescriptor)
      → fat16_open fuel sectors private root_directory path mode ≡ some r
      → fs.fs_open path mode ≡ r
  pub reads :
      (d : FatFileDescriptor) (size nmemb : ℕ) (r : Result ℕ) (out : List ℕ)
      → fat16_read sectors private d size nmemb ≡ some (r, out)
      → fs.fs_read d size nmemb ≡ (r, out, d)
  pub seeks :
      (d : FatFileDescriptor) (offset whence : ℕ)
      → fs.fs_seek d offset whence ≡ fat16_seek d offset whence
  pub stats : (d : FatFileDescriptor) → fs.fs_stat d ≡ fat16_stat d
  pub closes : (d : FatFileDescriptor) → fs.fs_close d ≡ fat16_close d

module _ (fs : Filesystem FatFileDescriptor) (fuel : ℕ) (sectors : ℕ → List ℕ)
    (private : FatPrivate) (root_directory : FatDirectory)
    (mounted : Implements fs fuel sectors private root_directory) where
  -- A descriptor that has been given out reads what the file system reads, and stays what it was.
  fread-IsNew :
      (table table' : List (Option FatFileDescriptor)) (d : FatFileDescriptor) (fd size nmemb : ℕ)
      (r : Result ℕ) (out : List ℕ)
      → IsNew table d fd table'
      → 0 < size
      → 0 < nmemb
      → fat16_read sectors private d size nmemb ≡ some (r, out)
      → fread fs table' size nmemb (pos fd) ≡ (r, out, table')
  unfolding fread
  fread-IsNew table table' d fd size nmemb r out new s n read =
      let found = new.finds in
      let same : set table' (fd - 1) (some d) ≡ table' =
        ap (λ t. set t (fd - 1) (some d)) new.stored
        ∙ set-set table (fd - 1) (some d) (some d)
        ∙ sym new.stored in
      rw (
        ne→== size 0 (λ e. absurd (omega arith)),
        ne→== nmemb 0 (λ e. absurd (omega arith)),
        found,
        mounted.reads d size nmemb r out read,
        same,
        fread,
      )

  fopen-found :
      (table table' : List (Option FatFileDescriptor)) (filename mode_str : List ℕ)
      (root : PathRoot) (item : FatItem) (fd : ℕ)
      → pathparser_parse filename ≡ some root
      → root.drive_number ≡ 0
      → file_get_mode_by_string mode_str ≡ mode_read
      → fat16_get_directory_entry fuel sectors private root_directory root.first ≡ found item
      → file_new_descriptor table (record { item = item; pos = 0 }) ≡ ok (fd, table')
      → fopen (some fs) table filename mode_str ≡ (fd, table')
  unfolding fopen fopen_status disk_get fat16_open
  fopen-found table table' filename mode_str root item fd parsed drive mode entry new =
      let opened =
        mounted.opens root.first mode_read (ok (record { item = item; pos = 0 }))
          (rw (entry, fat16_open) refl) in
      rw (parsed, drive, mode, opened, new, fopen, fopen_status, disk_get) refl

  -- A path of drive 0 that leads to a file of FAT16 with linked clusters, in the data area at positions below 2^31, is opened for reading, in a table
  -- of 512 slots of which one but the last is free: fopen gives the number of a new descriptor, and fread
  -- through it the bytes of the file from its start on, if the elements that are asked for, of less than 2^31 bytes, lie in its
  -- clusters and each starts at the start of a cluster or lies within one.
  pub fread-fopen :
      (table table' : List (Option FatFileDescriptor)) (filename mode_str : List ℕ)
      (root : PathRoot) (item clusters : List ℕ) (fd size nmemb : ℕ)
      → IsFileTable table
      → pathparser_parse filename ≡ some root
      → root.drive_number ≡ 0
      → file_get_mode_by_string mode_str ≡ mode_read
      → fat16_get_directory_entry fuel sectors private root_directory root.first
        ≡ found (file_item item)
      → file_new_descriptor table (record { item = file_item item; pos = 0 }) ≡ ok (fd, table')
      → fd < max_filedescriptors
      → IsLinked sectors private clusters
      → AreData private clusters
      → 0 < private.sectors_per_cluster
      → fat16_get_first_cluster item ≡ get_or clusters 0 0
      → 0 < size
      → 0 < nmemb
      → nmemb * size ≤ length clusters * size_of_cluster_bytes private
      → nmemb * size < int_end
      → AreWithin private 0 size nmemb
      → (fopen (some fs) table filename mode_str ≡ (fd, table'))
        × (fread fs table' size nmemb (pos fd)
            ≡ (ok nmemb, file_bytes sectors private clusters (nmemb * size) 0, table'))
  fread-fopen table table' filename mode_str root item clusters fd size nmemb full parsed drive mode
        entry new small linked on_disk positive start some_size some_elements fits below way =
      (
        fopen-found table table' filename mode_str root (file_item item) fd parsed drive mode entry
            new,
        fread-IsNew table table' (record { item = file_item item; pos = 0 }) fd size nmemb
            (ok nmemb) (file_bytes sectors private clusters (nmemb * size) 0)
            (file_new_descriptor-IsNew table table' (record { item = file_item item; pos = 0 }) fd
              full new small)
            some_size some_elements
            (fat16_read_lem sectors private clusters linked on_disk positive item 0 size nmemb start
              some_size (omega arith) (omega arith) way),
      )
