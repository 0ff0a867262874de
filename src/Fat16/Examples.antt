-- ===== src/Fat16/Examples.antt =====
-- A disk for src/fs/fat/fat16.c: a file whose cluster 3 leads to cluster 5.
use ras_os.KernelHeap.Blocks.{Blocks}
use ras_os.Fat16.Owned.{OwnedDescriptor, open_in, close_in}
use ras_os.Fat16.Owned.Closed.{Leads, close_in-open_in}
use ras_os.CString.{istrncmp, strncmp, tolower}
use ras_os.Disk.{disk_read_block, diskstreamer_read, sector_size}
use ras_os.Disk.Stream.{byte_at}
use ras_os.Fat16.{
  FatPrivate, fat16_get_fat_entry, fat16_get_first_fat_sector, fat16_read_internal, is_stop,
}
use ras_os.Fat16.Chain.{IsLinked}
use ras_os.Fat16.Contents.{AreData, fat16_read_internal_lem, file_bytes}
use ras_os.Fat16.Directory.{
  FatDirectory, combine_filename_and_ext, fat16_find_item_in_directory, fat16_get_directory_entry,
  fat16_get_first_cluster, fat16_get_total_items_for_directory,
  fat16_new_fat_item_for_directory_item, file_item, found, has_name, is_subdirectory, item_at,
  remove_padded_spaces, size_of_item, walk,
}
use ras_os.Fat16.Directory.Count.{fat16_get_total_items_lem, items_in_use}
use ras_os.Fat16.Directory.Find.{fat16_find_item_lem}
use ras_os.Fat16.Directory.Names.{combine_filename_and_ext_lem, item_of}
use ras_os.Fat16.Files.{
  FatFileDescriptor, fat16_close, fat16_open, fat16_read, fat16_seek, fat16_stat,
}
use ras_os.Fat16.Files.Mounted.{Implements, fread-fopen}
use ras_os.Fat16.Files.Read.{AreWithin}
use ras_os.FileTable.{
  fread, Filesystem, file_get_mode_by_string, file_new_descriptor, fopen, free_slot, mode_read,
}
use ras_os.PathParser.{pathparser_parse}
use ras_os.PathParser.Print.{pathparser_parse-print_path, stop}
use ras_os.Base.Int.{pos}
use ras_os.CString.{strlen}
use ras_os.Base.{
  eio, length-replicate, ◌≤◌, Option, err, none, ◌≢◌, ◌+◌, replicate, ◌++◌, ◌*◌, set, ◌<◌, ◌∷◌, ◌≡◌,
  ℕ, List, arith, [], refl, inr, inl, ok, some, false, true, suc, zero,
}

-- The header: one sector in a cluster, one reserved sector, one table of one sector, and a root directory
-- of 16 entries in the next.
abbrev header_sector : List ℕ
header_sector = set (set (set (set (set (set (replicate 62 0) 13 1) 14 1) 16 1) 17 16) 22 1) 38 0x29

-- A.TXT of 600 bytes.
abbrev item_a : List ℕ
item_a =
    item_of (b'A' ∷ []) (b'T' ∷ b'X' ∷ b'T' ∷ [])
      (0x20 ∷ replicate 14 0 ++ (3 ∷ 0 ∷ 88 ∷ 2 ∷ 0 ∷ 0 ∷ []))

abbrev table_sector : List ℕ
table_sector = set (set (replicate 16 0) 6 5) 10 9

abbrev table_disk : ℕ → List ℕ
table_disk zero = header_sector
table_disk (suc zero) = table_sector
table_disk (suc (suc zero)) = item_a
table_disk (suc (suc (suc lba))) = []

-- What the header says.
abbrev header : FatPrivate
header = record { sectors_per_cluster = 1; reserved_sectors = 1; ending_sector_pos = 3 }

abbrev root : FatDirectory
root = record { item = item_a; total = 1 }

entry_of_three : fat16_get_fat_entry table_disk header 3 ≡ 5
unfolding fat16_get_fat_entry fat16_get_first_fat_sector diskstreamer_read disk_read_block
entry_of_three = refl

linked : IsLinked table_disk header (3 ∷ 5 ∷ [])
unfolding is_stop
linked zero h = (entry_of_three, refl)
linked (suc i) h = absurd (omega arith)

on_disk : AreData header (3 ∷ 5 ∷ [])
on_disk zero h = (omega arith, omega arith)
on_disk (suc zero) h = (omega arith, omega arith)
on_disk (suc (suc i)) h = absurd (omega arith)

-- The mark of the end of a chain that FAT16 has is taken for a cluster.
end_of_fat16 : is_stop 0xFFFF ≡ false
unfolding is_stop
end_of_fat16 = refl

fat16_read_internal_lem_example :
    fat16_read_internal table_disk header 3 0 1000
    ≡ some (ok tt, file_bytes table_disk header (3 ∷ 5 ∷ []) 1000 0)
fat16_read_internal_lem_example =
    fat16_read_internal_lem table_disk header (3 ∷ 5 ∷ []) linked on_disk (omega arith) 0 1000
      (omega arith) (omega arith) (inl refl) (omega arith)

first_cluster_of_a : fat16_get_first_cluster item_a ≡ 3
unfolding fat16_get_first_cluster
first_cluster_of_a = refl

in_sectors : AreWithin header 0 512 2
in_sectors zero h = inl refl
in_sectors (suc zero) h = inl refl
in_sectors (suc (suc i)) h = absurd (omega arith)

combine_filename_and_ext_lem_example :
    combine_filename_and_ext item_a ≡ b'A' ∷ b'.' ∷ b'T' ∷ b'X' ∷ b'T' ∷ []
combine_filename_and_ext_lem_example =
    combine_filename_and_ext_lem (b'A' ∷ []) (b'T' ∷ b'X' ∷ b'T' ∷ [])
      (0x20 ∷ replicate 14 0 ++ (3 ∷ 0 ∷ 88 ∷ 2 ∷ 0 ∷ 0 ∷ [])) (ground arith) (omega arith)
      (ground arith) (inr (refl, inr refl))

abbrev a_txt : List ℕ
a_txt = b'a' ∷ b'.' ∷ b't' ∷ b'x' ∷ b't' ∷ []

named_a : has_name (item_at root 0) a_txt ≡ true
unfolding has_name combine_filename_and_ext remove_padded_spaces istrncmp tolower
named_a = refl

new_item_a :
    fat16_new_fat_item_for_directory_item 9 table_disk header (item_at root 0)
    ≡ some (file_item item_a)
unfolding fat16_new_fat_item_for_directory_item is_subdirectory
new_item_a = refl

fat16_find_item_lem_example :
    fat16_find_item_in_directory 9 table_disk header root a_txt ≡ some (some (file_item item_a))
fat16_find_item_lem_example =
    fat16_find_item_lem 9 table_disk header root a_txt 0 (file_item item_a) (omega arith) named_a
      new_item_a (λ j h. absurd (omega arith)) (λ j h l. absurd (omega arith))

in_use : (k : ℕ) → k < 1 → byte_at table_disk (2 * sector_size + k * size_of_item) ≢ 0x00
unfolding byte_at
in_use zero h e = absurd (omega arith)
in_use (suc k) h e = absurd (omega arith)

fat16_get_total_items_lem_example :
    fat16_get_total_items_for_directory 9 table_disk 2
    ≡ some (ok (items_in_use table_disk 1 (2 * 512)))
unfolding byte_at
fat16_get_total_items_lem_example =
    fat16_get_total_items_lem 1 9 table_disk 2 (omega arith) (omega arith) refl in_use

-- FAT16 as a file system of the file layer, with an error for what does not return.
abbrev fat16_fs : Filesystem FatFileDescriptor
fat16_fs = record {
  fs_open = λ path mode. elim (fat16_open 9 table_disk header root path mode) [
    | none ↦ err eio
    | some r ↦ r
  ];
  fs_read = λ d size nmemb. elim (fat16_read table_disk header d size nmemb) [
    | none ↦ (err eio, [], d)
    | some (r, out) ↦ (r, out, d)
  ];
  fs_seek = fat16_seek;
  fs_stat = fat16_stat;
  fs_close = fat16_close;
}

mounted : Implements fat16_fs 9 table_disk header root
mounted = record {
  opens = λ path mode r e. rw (fat16_fs, e) refl;
  reads = λ d size nmemb r out e. rw (fat16_fs, e) refl;
  seeks = λ d offset whence. refl;
  stats = λ d. refl;
  closes = λ d. refl;
}

abbrev no_files : List (Option FatFileDescriptor)
no_files = replicate 512 none

-- 0:/a.txt
abbrev name_of_a : List ℕ
name_of_a = b'0' ∷ b':' ∷ b'/' ∷ a_txt

name_of_a_short : strlen name_of_a ≤ 128
unfolding strlen
name_of_a_short = omega arith

parsed_a : pathparser_parse name_of_a ≡ some (record { drive_number = 0; first = a_txt ∷ [] })
parsed_a =
    pathparser_parse-print_path 0 (a_txt ∷ []) [] (omega arith) (λ e. ground arith) (ground arith)
      stop name_of_a_short

mode_r : file_get_mode_by_string (b'r' ∷ []) ≡ mode_read
unfolding file_get_mode_by_string strncmp
mode_r = refl

entry_a : fat16_get_directory_entry 9 table_disk header root (a_txt ∷ []) ≡ found (file_item item_a)
unfolding fat16_get_directory_entry walk
entry_a = rw (fat16_find_item_lem_example, fat16_get_directory_entry) refl

abbrev opened_a : List (Option FatFileDescriptor)
opened_a = set no_files 0 (some (record { item = file_item item_a; pos = 0 }))

new_a :
    file_new_descriptor no_files (record { item = file_item item_a; pos = 0 }) ≡ ok (1, opened_a)
unfolding file_new_descriptor free_slot
new_a = refl

fread-fopen_example :
    (fopen (some fat16_fs) no_files name_of_a (b'r' ∷ []) ≡ (1, opened_a))
    × (fread fat16_fs opened_a 512 2 (pos 1)
        ≡ (ok 2, file_bytes table_disk header (3 ∷ 5 ∷ []) (2 * 512) 0, opened_a))
fread-fopen_example =
    fread-fopen fat16_fs 9 table_disk header root mounted no_files opened_a name_of_a (b'r' ∷ [])
      (record { drive_number = 0; first = a_txt ∷ [] }) item_a (3 ∷ 5 ∷ []) 1 512 2
      (length-replicate {A = Option FatFileDescriptor} 512 none) parsed_a refl mode_r entry_a new_a
      (omega arith) linked on_disk (omega arith) first_cluster_of_a (omega arith) (omega arith)
      (omega arith) (omega arith) in_sectors

not_directory : is_subdirectory item_a ≡ false
unfolding is_subdirectory
not_directory = refl

a_txt-Leads : Leads 9 table_disk header root (a_txt ∷ [])
a_txt-Leads = (
  0,
  (
    omega arith,
    named_a,
    (λ j ne h. absurd (ne (omega arith))),
    (λ is. ground (arith, not_directory)),
  ),
)

abbrev no_blocks : Blocks
no_blocks = record { count = 0; live = λ a. false }

close_in-open_in_example :
    (d : OwnedDescriptor) × (b1 b2 : Blocks) × (open_in 9 table_disk header root no_blocks
        (a_txt ∷ [])
        mode_read
      ≡ some (ok d, b1))
    × (close_in b1 d ≡ some b2)
    × ((a : ℕ) → b2.live a ≡ false)
close_in-open_in_example =
    close_in-open_in 9 table_disk header root a_txt [] no_blocks a_txt-Leads (λ a h. refl)
