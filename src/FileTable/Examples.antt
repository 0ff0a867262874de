-- ===== src/FileTable/Examples.antt =====
-- src/fs/file.c over a file system whose private data are numbers.
use ras_os.FileTable.{fclose, Filesystem, file_new_descriptor, free_slot}
use ras_os.FileTable.Open.{fclose-file_new_descriptor}
use ras_os.FileTable.Registry.{free_filesystem, fs_get_free_filesystem, fs_insert_filesystem}
use ras_os.FileTable.Slots.{NewDescriptor, file_new_descriptor-NewDescriptor}
use ras_os.Base.Int.{pos}
use ras_os.Base.{
  ◌==◌, Bool, set, eio, ◌≡◌, length-replicate, replicate, ℕ, Option, List, arith, [], refl, err, ok,
  some, none,
}

abbrev empty_table : List (Option ℕ)
empty_table = replicate 512 none

abbrev numbers : Filesystem ℕ
numbers = record {
  fs_open = λ path mode. ok 7;
  fs_read = λ d size nmemb. (ok nmemb, [], d);
  fs_seek = λ d offset whence. (ok tt, d);
  fs_stat = λ d. err eio;
  fs_close = λ d. ok tt;
}

first_descriptor : file_new_descriptor empty_table 7 ≡ ok (1, set empty_table 0 (some 7))
unfolding file_new_descriptor free_slot
first_descriptor = refl

file_new_descriptor-NewDescriptor_example :
    NewDescriptor empty_table 7 (file_new_descriptor empty_table 7)
file_new_descriptor-NewDescriptor_example =
    file_new_descriptor-NewDescriptor empty_table 7 (length-replicate {A = Option ℕ} 512 none)

fclose-file_new_descriptor_example :
    fclose numbers (set empty_table 0 (some 7)) (pos 1) ≡ (ok tt, empty_table)
fclose-file_new_descriptor_example =
    fclose-file_new_descriptor numbers empty_table (set empty_table 0 (some 7)) 7 1
      (length-replicate {A = Option ℕ} 512 none) first_descriptor (omega arith) refl

-- A file system that is numbered 7, and resolves the disk.
abbrev seven : ℕ → Bool
seven n = n == 7

seven_first :
    fs_insert_filesystem {F = ℕ} (replicate 12 none) 7 ≡ some (set (replicate 12 none) 0 (some 7))
unfolding fs_insert_filesystem fs_get_free_filesystem free_filesystem
seven_first = refl
