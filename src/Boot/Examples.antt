-- ===== src/Boot/Examples.antt =====
-- A start of the kernel with a file system of one file, which is a binary of five bytes.
use ras_os.Boot.{Image, Kernel, first_program, initialise, kernel_main, runs, zero_tss}
use ras_os.Boot.Binary.{kernel_main-binary}
use ras_os.Boot.Initialise.{IsImage, IsInitialised, IsReset}
use ras_os.Boot.Start.{IsFirstTask, IsOutcome, kernel_main_lem}
use ras_os.CString.{is_digit, strlen, strncmp}
use ras_os.Disk.{disk_get}
use ras_os.Elf.{elf_load, elf_process_loaded, elf_valid_signature, elf_validate_loaded}
use ras_os.FileTable.{
  fclose, fread, fstat, Filesystem, file_free_descriptor, file_get_descriptor,
  file_get_mode_by_string, file_new_descriptor, fopen, fopen_status, free_slot,
}
use ras_os.Memory.{memcmp}
use ras_os.Paging.Create.{IsPages}
use ras_os.PathParser.{get_next_path_part, is_valid_path, pathparser_parse}
use ras_os.Process.{
  Allocations, Processes, process_load_binary, process_load_data, process_load_elf, zero_process,
}
use ras_os.Process.Binary.{binary}
use ras_os.Process.Space.{AreInMemory, IsAddressSpace}
use ras_os.Task.{Registers, Task, program_virtual_address, zero_registers}
use ras_os.Base.{
  ◌<◌, ◌%◌, replicate, ◌∷◌, ◌≡◌, ◌*◌, ℕ, List, ◌+◌, length-replicate, arith, [], refl, some, none,
  true, ok,
}

abbrev five : List ℕ
five = b'h' ∷ b'e' ∷ b'l' ∷ b'l' ∷ b'o' ∷ []

abbrev one_file : Filesystem ℕ
one_file = record {
  fs_open = λ path mode. ok 7;
  fs_read = λ d size nmemb. (ok nmemb, five, d);
  fs_seek = λ d offset whence. (ok tt, d);
  fs_stat = λ d. ok (record { flags = 0; filesize = 5 });
  fs_close = λ d. ok tt;
}

abbrev allocations : Allocations
allocations = record {
  process_data = 0x2000000;
  image = 0x2001000;
  program_data = 0x2002000;
  program_stack = 0x2003000;
  task_data = 0x2007000;
  page = λ k. 0x1500000 + 4096 * k;
}

abbrev image : Image ℕ
image = record {
  tss_address = 0x108000;
  table_memory = replicate 25600 0;
  interrupt_pointer_table = λ i. 0x100000 + 16 * i;
  idt_zero = 0x103000;
  isr80h_wrapper = 0x104000;
  page = λ k. 0x1000000 + 4096 * k;
  fat16 = one_file;
  resolves = λ f. true;
  qwerty_keyboard = 0x105000;
  qwerty_handler = 0x106000;
}

abbrev zero_task : Task
zero_task = record {
  page_directory = 0;
  registers = zero_registers;
  process = 0;
  next = 0;
  prev = 0;
}

abbrev no_processes : Processes ℕ
no_processes = record {
  table = [];
  ram = λ a. 0;
  tasks = record { task_at = λ a. zero_task; current_task = 0; task_tail = 0; task_head = 0 };
  process_at = λ a. zero_process;
  processes = replicate 12 0;
  current_process = 0;
}

abbrev reset : Kernel ℕ
reset = record {
  terminal = record { video_mem = λ i. 0; row = 0; col = 0 };
  gdt_real = [];
  kernel_heap = record { table = record { entries = []; total = 0 }; start_address = 0 };
  filesystems = [];
  disk = record { type = 0; sector_size = 0; id = 0; filesystem = none };
  idt_descriptors = [];
  tss = zero_tss;
  kernel_chunk = 0;
  current_directory = 0;
  isr80h_commands = replicate 1024 none;
  interrupt_callbacks = replicate 512 none;
  keyboards = record {
    driver_at = λ a. record { init = none; next = 0 };
    keyboard_list_head = 0;
    keyboard_list_last = 0;
  };
  processes = no_processes;
}

reset-IsReset : IsReset image reset
reset-IsReset = record {
  no_commands = refl;
  no_callbacks = refl;
  no_keyboards = refl;
  no_processes = refl;
  no_tasks = refl;
  top_row = refl;
  first_col = refl;
  no_next = refl;
}

pages_from : (base : ℕ) → base % 4096 ≡ 0 → base < 0x2000000 → IsPages (λ k. base + 4096 * k)
pages_from base al small = record {
  aligned = λ k h. omega arith;
  bounded = λ k h. omega arith;
  distinct = λ j k hj hk e. omega arith;
}

image-IsImage : IsImage image
image-IsImage = record {
  tss_small = omega arith;
  length-table_memory = length-replicate {A = ℕ} 25600 0;
  pages = pages_from 0x1000000 (omega arith) (omega arith);
  is_fat16 = refl;
}

binary_of_blank :
    process_load_data one_file allocations (replicate 512 none) first_program zero_process ≡ (
      ok (binary one_file allocations reset.processes first_program (replicate 512 none) 0 5),
      replicate 512 none,
    )
unfolding process_load_data process_load_elf process_load_binary elf_load elf_process_loaded
    elf_validate_loaded elf_valid_signature memcmp fopen fopen_status fstat fread fclose
    file_new_descriptor free_slot file_get_descriptor file_free_descriptor file_get_mode_by_string
    strncmp disk_get pathparser_parse get_next_path_part is_valid_path strlen is_digit
binary_of_blank = refl

in_memory : AreInMemory 0x2002000 5 0x2003000
in_memory = record {
  data_aligned = refl;
  stack_aligned = refl;
  data_fits = omega arith;
  stack_fits = omega arith;
  program_fits = omega arith;
}

kernel_main-binary_example :
    (k' : Kernel ℕ) × (r : Registers) × (kernel_main image allocations reset ≡ runs k' r)
    × (r.ip ≡ program_virtual_address)
    × IsFirstTask allocations k'.processes.process_at k'.processes.tasks k'.current_directory r
    × IsAddressSpace k'.processes.ram k'.current_directory 0x2002000 5 0x2003000
kernel_main-binary_example =
    kernel_main-binary image allocations reset (replicate 512 none) 5 reset-IsReset image-IsImage
      (λ e. absurd (omega arith)) (λ e. absurd (omega arith)) (λ e. absurd (omega arith))
      binary_of_blank (pages_from 0x1500000 (omega arith) (omega arith)) in_memory

kernel_main_lem_example :
    (k' : Kernel ℕ) × (initialise image reset ≡ some k')
    × IsInitialised image reset k'
    × IsOutcome allocations k' (kernel_main image allocations reset)
kernel_main_lem_example =
    kernel_main_lem allocations image reset reset-IsReset image-IsImage (λ e. absurd (omega arith))
