-- ===== src/Process.antt =====
-- src/task/process.c: the slots of the processes, and how a file is loaded into one. A process stands at
-- an address, and the null pointer is 0; the store gives what stands at each address.
use ras_os.CString.{strncpy}
use ras_os.Elf.{
  Elf32Phdr, ElfFile, e_entry, e_phnum, elf_load, elf_phdr_phys_address, elf_program_header,
}
use ras_os.FileTable.{fclose, fread, fstat, Filesystem, fopen}
use ras_os.Paging.{
  Ram, paging_access_by_all, paging_align_address, paging_align_to_lower_page, paging_is_present,
  paging_is_writable, paging_map_to, paging_new_4gb,
}
use ras_os.PathParser.{path_max_len}
use ras_os.Task.{
  Tasks, program_virtual_address, program_virtual_stack_address_bottom, task_free, task_init,
  task_new,
}
mod Examples
pub mod Slots
pub mod Binary
pub mod Space
pub mod Segments
pub mod Bytes
pub mod Invariant
use ras_os.Base.Int.{ℤ, pos, negsuc}
use ras_os.Base.{
  leb, enomem, set, einformat, eio, ◌^◌, get_or, ◌∷◌, ◌==◌, ◌%◌, not, bit_and, eistkn, ◌-◌,
  if◌then◌else◌, bit_or, Result, ◌*◌, ◌+◌, ℕ, replicate, List, Option, [], err, some, none, suc,
  zero, ok,
}

abbrev pub max_processes : ℕ
max_processes = 12

abbrev pub program_virtual_stack_address_top : ℕ
program_virtual_stack_address_top = program_virtual_stack_address_bottom - 1024 * 16

abbrev pub user_program_stack_size : ℕ
user_program_stack_size = 1024 * 16

-- The file type with the union: what the process runs. A zeroed process is an ELF file that is null.
pub data Program : Type 0 where
  elf_program : Option ElfFile → Program
  binary_program : (ptr : ℕ) → Program

-- The allocations of a process are never used, and its keyboard is in Keyboard.
pub record Process : Type 0 where
  pub id : ℕ
  pub task : ℕ
  pub filename : List ℕ
  pub program : Program
  pub size : ℕ
  pub stack : ℕ

abbrev pub zero_process : Process
zero_process = record {
  id = 0;
  task = 0;
  filename = replicate path_max_len 0;
  program = elf_program none;
  size = 0;
  stack = 0;
}

-- What the processes stand on: the descriptors of the file layer, the words of the page tables, and the
-- tasks.
pub record Processes (D : Type 0) : Type 0 where
  pub table : List (Option D)
  pub ram : Ram
  pub tasks : Tasks
  pub process_at : ℕ → Process
  pub processes : List ℕ
  pub current_process : ℕ

-- The addresses that kzalloc returns in one call, in turn for the process, the image of an ELF file, that
-- of another file, the stack, the task, and the pages of its address space. The first, third and fourth
-- may be null; the code does not stand the others being so.
pub record Allocations : Type 0 where
  pub process_data : ℕ
  pub image : ℕ
  pub program_data : ℕ
  pub program_stack : ℕ
  pub task_data : ℕ
  pub page : ℕ → ℕ

unfoldable pub process_get : List ℕ → ℤ → ℕ
process_get processes (negsuc n) = 0
process_get processes (pos n) = if leb max_processes n then 0 else get_or processes n 0

-- The loop from slot `i` on.
unfoldable pub free_from : (rounds i : ℕ) → List ℕ → Result ℕ
free_from zero i processes = err eistkn
free_from (suc rounds) i processes =
    let rest = free_from rounds (i + 1) processes in
    if get_or processes i 0 == 0 then ok i else rest

unfoldable pub process_get_free_slot : List ℕ → Result ℕ
process_get_free_slot processes = free_from max_processes 0 processes

module _ {D : Type 0} (fs : Filesystem D) (a : Allocations) where
  -- After an error that comes behind fopen the descriptor stays open.
  unfoldable pub process_load_binary :
      List (Option D) → List ℕ → Process → Result Process × List (Option D)
  process_load_binary table filename process =
      let (fd, table1) = fopen (some fs) table filename (b'r' ∷ 0 ∷ []) in
      if fd == 0 then (err eio, table1) else elim (fstat fs table1 (pos fd)) [
        | err e ↦ (err e, table1)
        | ok stat ↦
            if a.program_data == 0
            then (err enomem, table1)
            else let (res, data_read, table2) = fread fs table1 stat.filesize 1 (pos fd) in
              elim res [
                | err e ↦ (err eio, table2)
                | ok n ↦
                    if n == 1
                    then (let (closed, table3) = fclose fs table2 (pos fd) in
                        (
                          elim closed [
                            | err e ↦ err e
                            | ok u ↦ ok (record process {
                              program = binary_program a.program_data;
                              size = stat.filesize;
                            })
                          ],
                          table3,
                        ))
                    else (err eio, table2)
              ]
      ]

  unfoldable pub process_load_elf :
      List (Option D) → List ℕ → Process → Result Process × List (Option D)
  process_load_elf table filename process =
      let (res, table1) = elf_load fs table a.image filename in
      (
        elim res [ err e ↦ err e | ok file ↦ ok (record process { program = elf_program file }) ],
        table1,
      )

  unfoldable pub process_load_data :
      List (Option D) → List ℕ → Process → Result Process × List (Option D)
  process_load_data table filename process =
      let (res, table1) = process_load_elf table filename process in
      elim res [
        | ok p ↦ (ok p, table1)
        | err e ↦
            if e == einformat then process_load_binary table1 filename process else (err e, table1)
      ]

-- The status of paging_map_to is dropped.
unfoldable pub process_map_binary : Ram → (directory ptr size : ℕ) → Ram
process_map_binary ram directory ptr size =
    (paging_map_to ram directory program_virtual_address ptr (paging_align_address (ptr + size))
      (bit_or (bit_or paging_is_present paging_access_by_all) paging_is_writable)).1

abbrev pf_w : ℕ
pf_w = 0x02

unfoldable pub segment_flags : Elf32Phdr → ℕ
segment_flags phdr =
    if bit_and phdr.p_flags pf_w == 0
    then bit_or paging_is_present paging_access_by_all
    else bit_or (bit_or paging_is_present paging_access_by_all) paging_is_writable

-- The body of the loop over the program headers, which it takes whatever their type.
unfoldable pub map_segment : Ram → (directory : ℕ) → ElfFile → Elf32Phdr → Result (Unit {0}) × Ram
map_segment ram directory file phdr =
    paging_map_to ram directory (paging_align_to_lower_page phdr.p_vaddr)
      (paging_align_to_lower_page (elf_phdr_phys_address file phdr))
      (paging_align_address ((elf_phdr_phys_address file phdr + phdr.p_filesz) % 2 ^ 32))
      (segment_flags phdr)

unfoldable pub map_segments :
    (rounds i : ℕ) → Ram → (directory : ℕ) → ElfFile → Result (Unit {0}) × Ram
map_segments zero i ram directory file = (ok tt, ram)
map_segments (suc rounds) i ram directory file =
    let (res, ram') = map_segment ram directory file (elf_program_header file.image i) in
    elim res [ err e ↦ (err e, ram') | ok u ↦ map_segments rounds (i + 1) ram' directory file ]

unfoldable pub process_map_elf : Ram → (directory : ℕ) → ElfFile → Result (Unit {0}) × Ram
process_map_elf ram directory file = map_segments (e_phnum file.image) 0 ram directory file

-- `none` is the use of a null file.
unfoldable pub process_map_memory :
    Ram → (directory : ℕ) → Process → Option (Result (Unit {0}) × Ram)
process_map_memory ram directory process = elim process.program [
  | elf_program none ↦ none
  | elf_program (some file) ↦ some (process_map_elf ram directory file)
  | binary_program ptr ↦ some (ok tt, process_map_binary ram directory ptr process.size)
]

-- The entry point that task_init takes from the file of a process; the outer `none` is a null file.
unfoldable pub entry_of_program : Program → Option (Option ℕ)
entry_of_program (elf_program none) = none
entry_of_program (elf_program (some file)) = some (some (e_entry file.image))
entry_of_program (binary_program ptr) = some none

abbrev pub write_process : (ℕ → Process) → ℕ → Process → ℕ → Process
write_process process_at a p b = if b == a then p else process_at b

-- The process with what process_load_for_slot stores in it.
abbrev pub placed : Allocations → List ℕ → (process_slot : ℕ) → Process → Process
placed a filename process_slot program = record program {
  filename = strncpy program.filename filename path_max_len;
  stack = a.program_stack;
  id = process_slot % 2 ^ 16;
  task = a.task_data;
}

module _ {D : Type 0} (a : Allocations) where
  -- The task of a new process; its chunk of page tables stands for its directory.
  unfoldable pub new_task : Processes D → (elf_entry : Option ℕ) → Processes D
  new_task s elf_entry =
      let (directory, ram') =
        paging_new_4gb s.ram a.page (bit_or paging_is_present paging_access_by_all) in
      record s {
        ram = ram';
        tasks = task_new s.tasks a.task_data (task_init a.process_data elf_entry directory);
      }

  -- The last part of process_load_for_slot, for a process with its program and its task.
  unfoldable pub place_process :
      Processes D → List ℕ → (process_slot : ℕ) → Process → Option (Result ℕ × Processes D)
  place_process s filename process_slot program =
      let process = placed a filename process_slot program in
      elim (process_map_memory s.ram (s.tasks.task_at a.task_data).page_directory process) [
        | none ↦ none
        | some (err e, ram') ↦
            some (err e, record s { ram = ram'; tasks = task_free s.tasks a.task_data })
        | some (ok u, ram') ↦ some (
          ok a.process_data,
          record s {
            ram = ram';
            process_at = write_process s.process_at a.process_data process;
            processes = set s.processes process_slot a.process_data;
          },
        )
      ]

module _ {D : Type 0} where
  -- The status of paging_map_to is dropped.
  unfoldable pub map_stack : Processes D → (process : ℕ) → Processes D
  map_stack s process = record s {
    ram =
        (paging_map_to s.ram (s.tasks.task_at (s.process_at process).task).page_directory
          program_virtual_stack_address_top (s.process_at process).stack
          (paging_align_address ((s.process_at process).stack + user_program_stack_size))
          (bit_or (bit_or paging_is_present paging_access_by_all) paging_is_writable)).1;
  }

  unfoldable pub process_switch : Processes D → (process : ℕ) → Processes D
  process_switch s process = record s { current_process = process }

module _ {D : Type 0} (fs : Filesystem D) (a : Allocations) where
  -- The outer `none` is the use of a pointer that is null, or, if the slot is taken, was never set.
  unfoldable pub process_load_for_slot :
      Processes D → List ℕ → (process_slot : ℕ) → Option (Result ℕ × Processes D)
  process_load_for_slot s filename process_slot =
      if not (process_get s.processes (pos process_slot) == 0)
      then none
      else if a.process_data == 0
      then some (err enomem, s)
      else let (res, table') = process_load_data fs a s.table filename zero_process in
        elim res [
          | err e ↦ some (err e, record s { table = table' })
          | ok program ↦
              if a.program_stack == 0
              then some (err enomem, record s { table = table' })
              else elim (entry_of_program program.program) [
                | none ↦ none
                | some entry ↦
                    place_process a (new_task a (record s { table = table' }) entry) filename
                      process_slot program
              ]
        ]

  unfoldable pub process_load : Processes D → List ℕ → Option (Result ℕ × Processes D)
  process_load s filename = elim (process_get_free_slot s.processes) [
    | err e ↦ some (err eistkn, s)
    | ok process_slot ↦ elim (process_load_for_slot s filename process_slot) [
      | none ↦ none
      | some (err e, s') ↦ some (err e, s')
      | some (ok process, s') ↦ some (ok process, map_stack s' process)
    ]
  ]

  unfoldable pub process_load_switch : Processes D → List ℕ → Option (Result ℕ × Processes D)
  process_load_switch s filename = elim (process_load s filename) [
    | none ↦ none
    | some (err e, s') ↦ some (err e, s')
    | some (ok process, s') ↦ some (ok process, process_switch s' process)
  ]
