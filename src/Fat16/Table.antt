-- ===== src/Fat16/Table.antt =====
-- The entries of the allocation table (src/fs/fat/fat16.c).
use ras_os.Base.{◌<◌, ap, ◌*◌, ◌+◌, ◌≡◌, List, ℕ, arith, refl}
use ras_os.Disk.{int_end, DiskStream}
use ras_os.Disk.Stream.{byte_at, diskstreamer_read_lem}
use ras_os.Fat16.{entry_of, FatPrivate, fat16_get_fat_entry, entry_position}

-- At a position that is an `int`, an entry is the word of the two bytes of the disk at its position, the lower one first.
pub fat16_get_fat_entry_lem :
    (sectors : ℕ → List ℕ) (private : FatPrivate) (cluster : ℕ)
    → entry_position private cluster + 2 < int_end
    → let at = entry_position private cluster in
      fat16_get_fat_entry sectors private cluster
      ≡ byte_at sectors at + 256 * byte_at sectors (at + 1)
unfolding fat16_get_fat_entry
fat16_get_fat_entry_lem sectors private cluster small =
    let stream : DiskStream = record { position = entry_position private cluster; disk = 0 } in
    ap entry_of (diskstreamer_read_lem 2 sectors stream 2 refl (omega arith) small)
