-- ===== src/Fat16.antt =====
-- src/fs/fat/fat16.c: the file allocation table and the chains of clusters in it. The sectors of the
-- disk are a parameter (see Disk), and the sizes of the header are those that fat16_resolve has read.
-- A stream is set to a position before each read, so that where the last read left it does not matter.
pub mod Owned
pub mod Table
pub mod Chain
pub mod Contents
pub mod Directory
pub mod Files
pub mod Resolve
mod Examples
use ras_os.Base.{
  leb, ◌%◌, ltb, Option, ◌++◌, [], eio, ◌||◌, if◌then◌else◌, ◌/◌, ◌^◌, Result, ◌==◌, get_or, ◌-◌,
  Bool, List, ◌+◌, ◌*◌, ℕ, err, ok, some, none, suc, zero,
}
use ras_os.Disk.{int_end, ReadOutcome, sector_size, diskstreamer_read, DiskStream}

-- The fields of struct fat_private that the chains depend on.
pub record FatPrivate : Type 0 where
  pub sectors_per_cluster : ℕ
  pub reserved_sectors : ℕ
  pub ending_sector_pos : ℕ

abbrev fat_entry_size : ℕ
fat_entry_size = 0x02

-- The sum is a word of 32 bits: that of a cluster below 2 wraps around.
unfoldable pub fat16_cluster_to_sector : FatPrivate → (cluster : ℕ) → ℕ
fat16_cluster_to_sector private cluster =
    (private.ending_sector_pos
      + cluster * private.sectors_per_cluster
      + (2 ^ 32 - 2 * private.sectors_per_cluster))
    % 2 ^ 32

unfoldable pub fat16_get_first_fat_sector : FatPrivate → ℕ
fat16_get_first_fat_sector private = private.reserved_sectors

-- The position of the entry of a cluster.
abbrev pub entry_position : FatPrivate → ℕ → ℕ
entry_position private cluster =
    (fat16_get_first_fat_sector private * sector_size + cluster * fat_entry_size) % 2 ^ 32

-- The entry is a word of 16 bits, so that a status `-e` of the read becomes 2^16 - e. Where the position
-- is no `int`, which takes a cluster of more than 16 bits, the entry is not modelled, and is 2^16 - 1.
abbrev pub entry_of : ReadOutcome → ℕ
entry_of r = elim r.status [
  | some (ok u) ↦ get_or r.out 0 0 + 256 * get_or r.out 1 0
  | some (err e) ↦ 2 ^ 16 - e
  | none ↦ 2 ^ 16 - 1
]

-- Two rounds of fuel are enough for the two bytes (`Table.fat16_get_fat_entry_lem`).
unfoldable pub fat16_get_fat_entry : (ℕ → List ℕ) → FatPrivate → (cluster : ℕ) → ℕ
fat16_get_fat_entry sectors private cluster =
    entry_of (
      diskstreamer_read 2 sectors (record { position = entry_position private cluster; disk = 0 })
        2)

-- The entries at which the loop of fat16_get_cluster_for_offset gives up: the ends of a chain, the bad
-- sector, the reserved ones and the unused one.
unfoldable pub is_stop : ℕ → Bool
is_stop entry =
    (entry == 0xFF8)
    || (entry == 0xFFF)
    || (entry == 0xFF7)
    || (entry == 0xFF0)
    || (entry == 0xFF6)
    || (entry == 0x00)

-- That loop, with `rounds` clusters to go.
follow : (rounds : ℕ) → (ℕ → List ℕ) → FatPrivate → (current_cluster : ℕ) → Result ℕ
follow zero sectors private current_cluster = ok current_cluster
follow (suc rounds) sectors private current_cluster =
    let entry = fat16_get_fat_entry sectors private current_cluster in
    let rest = follow rounds sectors private entry in if is_stop entry then err eio else rest

pub fat16_get_cluster_for_offset :
    (ℕ → List ℕ) → FatPrivate → (starting_cluster offset : ℕ) → Result ℕ
unfolding follow
fat16_get_cluster_for_offset sectors private starting_cluster offset =
    follow (offset / (private.sectors_per_cluster * sector_size)) sectors private starting_cluster

-- A read of `total` bytes by a stream that is set to a position, with fuel for its sectors.
unfoldable pub read_at : (ℕ → List ℕ) → (position total : ℕ) → ReadOutcome
read_at sectors position total =
    diskstreamer_read (total / sector_size + 2) sectors (record { position = position; disk = 0 })
      total

abbrev pub size_of_cluster_bytes : FatPrivate → ℕ
size_of_cluster_bytes private = private.sectors_per_cluster * sector_size

-- The status of a read and the bytes that it stored; `none` if the fuel ran out, or where an offset or a
-- position is no `int`.
abbrev pub ReadResult : Type 0
ReadResult = Option (Result (Unit {0}) × List ℕ)

abbrev pub behind : List ℕ → ReadResult → ReadResult
behind out none = none
behind out (some (res, more)) = some (res, out ++ more)

-- What follows a read: the rest, if there is one.
abbrev pub and_rest : ReadOutcome → Bool → ReadResult → ReadResult
and_rest r is_more rest = elim r.status [
  | none ↦ none
  | some (err e) ↦ some (err e, r.out)
  | some (ok u) ↦ if is_more then behind r.out rest else some (ok tt, r.out)
]

unfoldable pub fat16_read_internal_from_stream :
    (fuel : ℕ) → (ℕ → List ℕ) → FatPrivate → (cluster offset total : ℕ) → ReadResult
fat16_read_internal_from_stream zero sectors private cluster offset total = none
fat16_read_internal_from_stream (suc fuel) sectors private cluster offset total =
    let size = size_of_cluster_bytes private in
    let total_to_read = if ltb size total then size else total in
    let rest =
      fat16_read_internal_from_stream fuel sectors private cluster (offset + total_to_read)
        (total - total_to_read) in
    elim (if leb int_end (offset + total)
      then none
      else some (fat16_get_cluster_for_offset sectors private cluster offset)) [
        | none ↦ none
        | some (err e) ↦ some (err e, [])
        | some (ok cluster_to_use) ↦
            and_rest
              (read_at sectors
                (fat16_cluster_to_sector private cluster_to_use * sector_size + offset % size)
                total_to_read)
              (ltb 0 (total - total_to_read)) rest
      ]

-- Each call but the last takes a cluster's bytes, so that the fuel is enough
-- (`Contents.fat16_read_internal_lem`).
unfoldable pub fat16_read_internal :
    (ℕ → List ℕ) → FatPrivate → (starting_cluster offset total : ℕ) → ReadResult
fat16_read_internal sectors private starting_cluster offset total =
    fat16_read_internal_from_stream (suc (total / size_of_cluster_bytes private)) sectors private
      starting_cluster offset total
