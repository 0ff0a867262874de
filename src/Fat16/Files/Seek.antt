-- ===== src/Fat16/Files/Seek.antt =====
-- The position of an open file of FAT16 (fat16_seek of src/fs/fat/fat16.c).
use ras_os.Base.{dec_lt, arith, ◌^◌, ltb, ◌+◌, if◌then◌else◌, ◌↔◌, ◌≤◌, ◌≡◌, ◌<◌, ℕ, List, ok}
use ras_os.Fat16.Directory.{file_item, item_filesize}
use ras_os.Fat16.Files.{FatFileDescriptor, fat16_seek, seek_set, seek_cur}

abbrev pub at_position : List ℕ → ℕ → FatFileDescriptor
at_position item pos = record { item = file_item item; pos = pos }

-- With SEEK_SET, fat16_seek of a file succeeds exactly for the offsets inside of the file, and then sets
-- the position; otherwise it leaves it.
pub fat16_seek_iff :
    (item : List ℕ) (pos offset : ℕ)
    → ((fat16_seek (at_position item pos) offset seek_set).0 ≡ ok tt ↔ offset < item_filesize item)
      × ((fat16_seek (at_position item pos) offset seek_set).1
          ≡ at_position item (if ltb offset (item_filesize item) then offset else pos))
unfolding fat16_seek
fat16_seek_iff item pos offset = elim (dec_lt offset (item_filesize item)) [
  | yes h ↦ ground arith
  | no h ↦ ground arith
]

-- SEEK_CUR can leave the position behind the end of the file: only the offset is compared with its size.
pub fat16_seek_past_end :
    (item : List ℕ) (pos offset : ℕ)
    → offset < item_filesize item
    → item_filesize item ≤ pos + offset
    → pos + offset < 2 ^ 32
    → (fat16_seek (at_position item pos) offset seek_cur).0 ≡ ok tt
      × (item_filesize item ≤ (fat16_seek (at_position item pos) offset seek_cur).1.pos)
unfolding fat16_seek
fat16_seek_past_end item pos offset inside past small = ground arith
