-- ===== src/Disk.antt =====
-- src/disk/disk.c and src/disk/streamer.c. The drive is a parameter: `sectors lba` is what the ports
-- give for a sector. The kernel has one disk, of index 0; a stream on another is the case that
-- disk_read_block refuses. Positions are not negative.
use ras_os.Base.{
  ◌^◌, ◌-◌, ◌+◌, leb, eio, ◌∷◌, ◌==◌, ◌%◌, ◌/◌, Result, ◌++◌, get_or, if◌then◌else◌, List, Option,
  ℕ, [], err, ok, some, none, suc, zero,
}
pub mod Ports
pub mod Drive
pub mod Stream
mod Examples

abbrev pub sector_size : ℕ
sector_size = 512

unfoldable pub disk_get : ℕ → Option ℕ
disk_get index = if index == 0 then some 0 else none

-- One sector, as the streamer asks for.
unfoldable pub disk_read_block : (ℕ → List ℕ) → ℕ → ℕ → Result (List ℕ)
disk_read_block sectors disk lba = if disk == 0 then ok (sectors lba) else err eio

pub record DiskStream : Type 0 where
  pub position : ℕ
  pub disk : ℕ

unfoldable pub diskstreamer_new : ℕ → Option DiskStream
diskstreamer_new disk_number = elim (disk_get disk_number) [
  | none ↦ none
  | some d ↦ some (record { position = 0; disk = d })
]

unfoldable pub diskstreamer_seek : DiskStream → ℕ → Result (Unit {0}) × DiskStream
diskstreamer_seek stream position = (ok tt, record stream { position = position })

-- The numbers of an `int` end below it.
abbrev pub int_end : ℕ
int_end = 2 ^ 31

-- What a read leaves: the status, the bytes that went to `out`, and the stream. A status is `none`
-- if the fuel ran out, or where a position is no `int`: one of 2^31 or more overflows, or is negative
-- from the start, for which C promises nothing of the addresses in the buffer.
pub record ReadOutcome : Type 0 where
  pub status : Option (Result (Unit {0}))
  pub out : List ℕ
  pub stream : DiskStream

-- The copy of `count` bytes of the sector from `offset` on.
copy_bytes : (rounds offset : ℕ) → List ℕ → List ℕ
copy_bytes zero offset buf = []
copy_bytes (suc rounds) offset buf = get_or buf offset 0 ∷ copy_bytes rounds (offset + 1) buf

abbrev then_read : List ℕ → ReadOutcome → ReadOutcome
then_read bytes r = record r { out = bytes ++ r.out }

-- The recursion of the code runs on fuel (`Stream.diskstreamer_read_lem`: total / 512 + 2 is enough).
unfoldable pub diskstreamer_read : (fuel : ℕ) → (ℕ → List ℕ) → DiskStream → ℕ → ReadOutcome
unfolding disk_read_block copy_bytes
diskstreamer_read zero sectors stream total = record { status = none; out = []; stream = stream }
diskstreamer_read (suc fuel) sectors stream total =
    let sector = stream.position / sector_size in
    let offset = stream.position % sector_size in
    let is_overflow = leb sector_size (offset + total) in
    let count = if is_overflow then sector_size - offset else total in
    let moved = record stream { position = stream.position + count } in
    let rest = diskstreamer_read fuel sectors moved (total - count) in
    elim (disk_read_block sectors stream.disk sector) [
      | err e ↦ record { status = some (err e); out = []; stream = stream }
      | ok buf ↦
          if leb int_end (stream.position + total)
          then record { status = none; out = []; stream = stream }
          else if is_overflow
          then then_read (copy_bytes count offset buf) rest
          else record { status = some (ok tt); out = copy_bytes count offset buf; stream = moved }
    ]
