-- ===== src/Fat16/Resolve.antt =====
-- How src/fs/fat/fat16.c takes a disk for one of FAT16: the header in the first sector, and the root
-- directory. The header is the list of the first bytes of the disk; words have their lowest byte first.
use ras_os.Disk.{DiskStream, diskstreamer_new}
pub mod Root
use ras_os.Base.{
  enomem, efsnotus, ◌==◌, ◌/◌, eio, ◌+◌, if◌then◌else◌, ◌*◌, Result, get_or, List, Option, ℕ, err,
  ok, some, none,
}
use ras_os.Disk.{sector_size, ReadOutcome}
use ras_os.Fat16.{FatPrivate, read_at}
use ras_os.Fat16.Directory.{FatDirectory, size_of_item, fat16_get_total_items_for_directory}

abbrev half_at : List ℕ → ℕ → ℕ
half_at header i = get_or header i 0 + 256 * get_or header (i + 1) 0

abbrev pub size_of_header : ℕ
size_of_header = 62

-- The fields of struct fat_header and of the extended header that are read.
abbrev pub header_sectors_per_cluster : List ℕ → ℕ
header_sectors_per_cluster header = get_or header 13 0

abbrev pub header_reserved_sectors : List ℕ → ℕ
header_reserved_sectors header = half_at header 14

abbrev pub fat_copies : List ℕ → ℕ
fat_copies header = get_or header 16 0

abbrev pub root_dir_entries : List ℕ → ℕ
root_dir_entries header = half_at header 17

abbrev pub sectors_per_fat : List ℕ → ℕ
sectors_per_fat header = half_at header 22

abbrev pub header_signature : List ℕ → ℕ
header_signature header = get_or header 38 0

-- What struct fat_private holds of a disk.
pub record FatVolume : Type 0 where
  pub private : FatPrivate
  pub root_directory : FatDirectory

abbrev pub root_dir_sector_pos : List ℕ → ℕ
root_dir_sector_pos header =
    fat_copies header * sectors_per_fat header + header_reserved_sectors header

abbrev pub root_dir_size : List ℕ → ℕ
root_dir_size header = root_dir_entries header * size_of_item

-- The status of a read in an `if`, with what follows a success.
abbrev pub on_success : {A : Type 0} → ReadOutcome → Option (Result A) → Option (Result A)
on_success r next = elim r.status [
  | none ↦ none
  | some (err e) ↦ some (err eio)
  | some (ok u) ↦ next
]

-- The three streams of struct fat_private.
pub record FatStreams : Type 0 where
  pub cluster_read_stream : Option DiskStream
  pub fat_read_stream : Option DiskStream
  pub directory_stream : Option DiskStream

unfoldable pub fat16_init_private : (disk_id : ℕ) → FatStreams
fat16_init_private disk_id = record {
  cluster_read_stream = diskstreamer_new disk_id;
  fat_read_stream = diskstreamer_new disk_id;
  directory_stream = diskstreamer_new disk_id;
}

abbrev pub fat16_sector_to_absolute : (sector : ℕ) → ℕ
fat16_sector_to_absolute sector = sector * sector_size

module _ (fuel : ℕ) (sectors : ℕ → List ℕ) where
  -- A negative number of items, over which no loop runs, is 0. The sectors of the directory are counted
  -- twice in the code; the count that is rounded up is not used. kzalloc returns null for no entries.
  unfoldable pub fat16_get_root_directory : List ℕ → Option (Result FatVolume)
  fat16_get_root_directory header =
      let pos = root_dir_sector_pos header in
      let size = root_dir_size header in
      let r = read_at sectors (fat16_sector_to_absolute pos) size in
      elim (fat16_get_total_items_for_directory fuel sectors pos) [
        | none ↦ none
        | some total ↦
            if size == 0
            then some (err enomem)
            else on_success r (
                some (
                  ok (record {
                    private = record {
                      sectors_per_cluster = header_sectors_per_cluster header;
                      reserved_sectors = header_reserved_sectors header;
                      ending_sector_pos = pos + size / sector_size;
                    };
                    root_directory = record {
                      item = r.out;
                      total = elim total [ ok n ↦ n | err e ↦ 0 ];
                    };
                  })))
      ]

  unfoldable pub fat16_resolve : Option (Result FatVolume)
  fat16_resolve =
      let r = read_at sectors 0 size_of_header in
      on_success r (
        if header_signature r.out == 0x29
        then elim (fat16_get_root_directory r.out) [
          | none ↦ none
          | some (err e) ↦ some (err eio)
          | some (ok v) ↦ some (ok v)
        ]
        else some (err efsnotus))
