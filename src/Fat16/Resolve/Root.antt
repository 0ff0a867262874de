-- ===== src/Fat16/Resolve/Root.antt =====
-- What fat16_resolve of src/fs/fat/fat16.c finds on a disk.
use ras_os.Base.{◌≡◌, ◌/◌, ◌≢◌, ◌*◌, ◌%◌, ◌+◌, ◌<◌, List, ℕ, arith}
use ras_os.Disk.{int_end, sector_size}
use ras_os.Disk.Stream.{byte_at, bytes_from}
use ras_os.Fat16.Directory.{size_of_item}
use ras_os.Fat16.Directory.Count.{items_in_use}
use ras_os.Fat16.Resolve.{
  FatVolume, size_of_header, header_sectors_per_cluster, header_reserved_sectors,
  root_dir_sector_pos, root_dir_size,
}

-- The header of a disk.
abbrev pub header_of : (ℕ → List ℕ) → List ℕ
header_of sectors = bytes_from sectors size_of_header 0

-- The root directory of a disk ends with an item of 0, that at index `n`; this item and the directory end
-- at positions that are an `int`.
pub record HasRoot (sectors : ℕ → List ℕ) (n : ℕ) : Type 0 where
  pub ends :
      byte_at sectors (root_dir_sector_pos (header_of sectors) * sector_size + n * size_of_item)
      ≡ 0x00
  pub scanned :
      root_dir_sector_pos (header_of sectors) * sector_size + n * size_of_item + size_of_item
      < int_end
  pub fits :
      root_dir_sector_pos (header_of sectors) * sector_size + root_dir_size (header_of sectors)
      < int_end
  pub goes_on :
      (k : ℕ)
      → k < n
      → byte_at sectors (root_dir_sector_pos (header_of sectors) * sector_size + k * size_of_item)
        ≢ 0x00

-- The volume that a header describes.
abbrev pub volume_of : (ℕ → List ℕ) → ℕ → FatVolume
volume_of sectors n =
    let header = header_of sectors in
    let pos = root_dir_sector_pos header in
    record {
      private = record {
        sectors_per_cluster = header_sectors_per_cluster header;
        reserved_sectors = header_reserved_sectors header;
        ending_sector_pos = pos + root_dir_size header / sector_size;
      };
      root_directory = record {
        item = bytes_from sectors (root_dir_size header) (pos * sector_size);
        total = items_in_use sectors n (pos * sector_size);
      };
    }

-- Where the root directory does not fill its last sector, the clusters are taken to start inside it.
pub fat16_data_overlaps_root :
    (sectors : ℕ → List ℕ) (n : ℕ)
    → root_dir_size (header_of sectors) % sector_size ≢ 0
    → (volume_of sectors n).private.ending_sector_pos * sector_size
      < root_dir_sector_pos (header_of sectors) * sector_size + root_dir_size (header_of sectors)
fat16_data_overlaps_root sectors n h = omega arith
