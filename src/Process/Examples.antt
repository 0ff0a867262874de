-- ===== src/Process/Examples.antt =====
-- src/task/process.c with a file of five bytes, and with an ELF file of one segment.
use ras_os.CString.{is_digit, strlen, strncmp}
use ras_os.Disk.{disk_get}
use ras_os.Elf.{
  ElfFile, elf_load, elf_process_loaded, elf_program_header, elf_valid_signature,
  elf_validate_loaded,
}
use ras_os.FileTable.{
  fclose, fread, fstat, Filesystem, file_free_descriptor, file_get_descriptor,
  file_get_mode_by_string, file_new_descriptor, fopen, fopen_status, free_slot,
}
use ras_os.Memory.{memcmp}
use ras_os.Paging.{Ram, paging_new_4gb}
use ras_os.Paging.Create.{IsPages}
use ras_os.Paging.Identity.{paging_new_4gb-identity}
use ras_os.Paging.Layout.{IsDirectory}
use ras_os.PathParser.{get_next_path_part, is_valid_path, pathparser_parse}
use ras_os.Process.{
  binary_program, Allocations, Processes, free_from, process_get_free_slot, process_load,
  process_load_binary, process_load_data, process_load_elf, process_map_elf, zero_process,
}
use ras_os.Process.Binary.{binary, process_load-binary}
use ras_os.Process.Invariant.{AreProcesses, process_load-AreProcesses}
use ras_os.Process.Bytes.{AreLoaded, IsLoadable, process_map_elf-AreLoaded}
use ras_os.Process.Slots.{Loaded, process_load-Loaded}
use ras_os.Process.Space.{AreInMemory, IsAddressSpace}
use ras_os.Task.{Task, zero_registers}
use ras_os.Base.{
  set, ◌<◌, suc, zero, ◌∷◌, ◌*◌, replicate, List, ℕ, ◌+◌, get_or-replicate, ◌≡◌, arith, [], refl,
  some, none, ok,
}

abbrev five : List ℕ
five = b'h' ∷ b'e' ∷ b'l' ∷ b'l' ∷ b'o' ∷ []

-- A file system with one file.
abbrev one_file : Filesystem ℕ
one_file = record {
  fs_open = λ path mode. ok 7;
  fs_read = λ d size nmemb. (ok nmemb, five, d);
  fs_seek = λ d offset whence. (ok tt, d);
  fs_stat = λ d. ok (record { flags = 0; filesize = 5 });
  fs_close = λ d. ok tt;
}

abbrev allocations : Allocations
allocations = record {
  process_data = 0x2000000;
  image = 0x2001000;
  program_data = 0x2002000;
  program_stack = 0x2003000;
  task_data = 0x2007000;
  page = λ k. 0x01000000 + 4096 * k;
}

abbrev zero_task : Task
zero_task = record {
  page_directory = 0;
  registers = zero_registers;
  process = 0;
  next = 0;
  prev = 0;
}

abbrev booted : Processes ℕ
booted = record {
  table = replicate 512 none;
  ram = λ a. 0;
  tasks = record { task_at = λ a. zero_task; current_task = 0; task_tail = 0; task_head = 0 };
  process_at = λ a. zero_process;
  processes = replicate 12 0;
  current_process = 0;
}

-- 0:/a
abbrev path_a : List ℕ
path_a = b'0' ∷ b':' ∷ b'/' ∷ b'a' ∷ []

booted-AreProcesses : AreProcesses booted
booted-AreProcesses = (refl, λ i h n. absurd (n (get_or-replicate 12 i 0)))

process_load-Loaded_example :
    Loaded allocations booted (process_load one_file allocations booted path_a)
process_load-Loaded_example = process_load-Loaded allocations booted path_a one_file

-- The file is no ELF file, and is loaded as it is.
binary_of_a :
    process_load_data one_file allocations booted.table path_a zero_process
    ≡ (ok (binary one_file allocations booted path_a booted.table 0 5), booted.table)
unfolding process_load_data process_load_elf process_load_binary elf_load elf_process_loaded
    elf_validate_loaded elf_valid_signature memcmp fopen fopen_status fstat fread fclose
    file_new_descriptor free_slot file_get_descriptor file_free_descriptor file_get_mode_by_string
    strncmp disk_get pathparser_parse get_next_path_part is_valid_path strlen is_digit
binary_of_a = refl

pages : IsPages allocations.page
pages = record {
  aligned = λ k h. omega arith;
  bounded = λ k h. omega arith;
  distinct = λ j k hj hk e. omega arith;
}

in_memory : AreInMemory 0x2002000 5 0x2003000
in_memory = record {
  data_aligned = refl;
  stack_aligned = refl;
  data_fits = omega arith;
  stack_fits = omega arith;
  program_fits = omega arith;
}

first_slot : process_get_free_slot booted.processes ≡ ok 0
unfolding process_get_free_slot free_from
first_slot = refl

process_load-binary_example :
    (s' : Processes ℕ) × (process_load one_file allocations booted path_a ≡ some (ok 0x2000000, s'))
    × ((s'.process_at 0x2000000).program ≡ binary_program 0x2002000)
    × ((s'.tasks.task_at 0x2007000).page_directory ≡ 0x01000000 + 4096 * 0)
    × IsAddressSpace s'.ram (0x01000000 + 4096 * 0) 0x2002000 5 0x2003000
process_load-binary_example =
    process_load-binary one_file allocations booted path_a booted.table 0 5 first_slot
      (λ e. absurd (omega arith)) (λ e. absurd (omega arith)) binary_of_a pages in_memory

loaded_a :
    (s' : Processes ℕ) × (process_load one_file allocations booted path_a ≡ some (ok 0x2000000, s'))
loaded_a =
    let (s', e, program, directory, space) =
      process_load-binary one_file allocations booted path_a booted.table 0 5 first_slot
        (λ e. absurd (omega arith)) (λ e. absurd (omega arith)) binary_of_a pages in_memory in
    (s', e)

process_load-AreProcesses_example : AreProcesses loaded_a.0
process_load-AreProcesses_example =
    process_load-AreProcesses allocations booted booted-AreProcesses
      (λ i h e. absurd (omega (arith, get_or-replicate {A = ℕ} 12 i 0))) one_file path_a
      (ok 0x2000000) loaded_a.0 loaded_a.1

-- One program header, behind the ELF header, for all of the file at 0x400000.
abbrev elf_image : List ℕ
elf_image = set (set (set (set (set (replicate 84 0) 28 52) 44 1) 62 0x40) 68 84) 76 5

abbrev elf_file_one : ElfFile
elf_file_one = record {
  image = elf_image;
  elf_memory = 0x2000000;
  virtual_base_address = 0x400000;
  virtual_end_address = 0x400054;
  physical_base_address = 0x2000000;
  physical_end_address = 0x2000054;
}

header-IsLoadable : IsLoadable elf_file_one 0
unfolding elf_program_header
header-IsLoadable = record { congruent = refl; in_space = omega arith; in_memory = omega arith }

chunk_one : ℕ × Ram
chunk_one = paging_new_4gb (λ a. 0) allocations.page 5

chunk_one-IsDirectory : IsDirectory chunk_one.1 chunk_one.0
unfolding chunk_one
chunk_one-IsDirectory = (paging_new_4gb-identity (λ a. 0) allocations.page 5 pages (omega arith)).0

process_map_elf-AreLoaded_example :
    (ram' : Ram) × (process_map_elf chunk_one.1 chunk_one.0 elf_file_one ≡ (ok tt, ram'))
    × AreLoaded elf_file_one chunk_one.1 ram' chunk_one.0
process_map_elf-AreLoaded_example =
    process_map_elf-AreLoaded elf_file_one chunk_one.1 chunk_one.0
      (λ j h.
        elim j as (λ j. j < 1 → IsLoadable elf_file_one j) [
          | zero ↦ λ h. header-IsLoadable
          | suc j ↦ λ h. absurd (omega arith)
        ]
          h)
      (λ j k w hj hk ne. absurd (ne (omega arith))) chunk_one-IsDirectory
