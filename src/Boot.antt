-- ===== src/Boot.antt =====
-- kernel_main of src/kernel.c: how the parts of the kernel are started, and the disk of src/disk/disk.c
-- and the task state segment of src/task/tss.h. The instructions that load the registers of the processor
-- are hardware; of enable_paging and paging_load_directory only the directory in force is kept.
use ras_os.Disk.{sector_size}
use ras_os.Display.{Terminal, terminal_initialize, terminal_print}
use ras_os.FileTable.{Filesystem, max_filedescriptors}
use ras_os.FileTable.Registry.{fs_load, fs_resolve}
use ras_os.Gdt.{gdt_structured, gdt_structured_to_gdt}
use ras_os.Heap.{Heap}
use ras_os.Idt.{IdtDesc, idt_init}
use ras_os.KernelHeap.{kheap_init}
use ras_os.Keyboard.Drivers.{Drivers, keyboard_init, qwerty_keyboard_init}
use ras_os.Paging.{paging_access_by_all, paging_is_present, paging_is_writable, paging_new_4gb}
use ras_os.Process.{Allocations, Processes, process_load_switch}
use ras_os.Syscalls.{SystemCommand, isr80h_register_commands, keyboards}
use ras_os.Task.{Registers, task_run_first_ever_task}
use ras_os.Base.{
  ◌==◌, ◌∷◌, if◌then◌else◌, replicate, bit_or, List, ℕ, eio, Bool, Option, [], err, some, none, ok,
}
pub mod Welcome
pub mod Initialise
pub mod Start
pub mod Binary
mod Examples

pub record Tss : Type 0 where
  pub link : ℕ
  pub esp0 : ℕ
  pub ss0 : ℕ
  pub esp1 : ℕ
  pub esp2 : ℕ
  pub ss2 : ℕ
  pub sr3 : ℕ
  pub eip : ℕ
  pub eflags : ℕ
  pub eax : ℕ
  pub ecx : ℕ
  pub edx : ℕ
  pub ebx : ℕ
  pub esp : ℕ
  pub ebp : ℕ
  pub esi : ℕ
  pub edi : ℕ
  pub es : ℕ
  pub cs : ℕ
  pub ss : ℕ
  pub ds : ℕ
  pub fs : ℕ
  pub gs : ℕ
  pub ldtr : ℕ
  pub iopb : ℕ

abbrev pub zero_tss : Tss
zero_tss = record {
  link = 0;
  esp0 = 0;
  ss0 = 0;
  esp1 = 0;
  esp2 = 0;
  ss2 = 0;
  sr3 = 0;
  eip = 0;
  eflags = 0;
  eax = 0;
  ecx = 0;
  edx = 0;
  ebx = 0;
  esp = 0;
  ebp = 0;
  esi = 0;
  edi = 0;
  es = 0;
  cs = 0;
  ss = 0;
  ds = 0;
  fs = 0;
  gs = 0;
  ldtr = 0;
  iopb = 0;
}

abbrev pub kernel_data_selector : ℕ
kernel_data_selector = 0x10

-- The part of kernel_main that fills the task state segment.
unfoldable pub setup_tss : Tss
setup_tss = record zero_tss { esp0 = 0x600000; ss0 = kernel_data_selector }

abbrev pub disk_type_real : ℕ
disk_type_real = 0

pub record Disk (F : Type 0) : Type 0 where
  pub type : ℕ
  pub sector_size : ℕ
  pub id : ℕ
  pub filesystem : Option F

-- Whether a file system resolves the disk is given.
unfoldable pub disk_search_and_init :
    {F : Type 0} → (resolves : F → Bool) → (filesystems : List (Option F)) → Disk F
disk_search_and_init resolves filesystems = record {
  type = disk_type_real;
  sector_size = sector_size;
  id = 0;
  filesystem = fs_resolve resolves filesystems;
}

-- The state of the kernel. The words of the page tables and the tasks are with the processes. A callback is
-- an address.
pub record Kernel (D : Type 0) : Type 0 where
  pub terminal : Terminal
  pub gdt_real : List (List ℕ)
  pub kernel_heap : Heap
  pub filesystems : List (Option (Filesystem D))
  pub disk : Disk (Filesystem D)
  pub idt_descriptors : List IdtDesc
  pub tss : Tss
  pub kernel_chunk : ℕ
  pub current_directory : ℕ
  pub isr80h_commands : List (Option SystemCommand)
  pub interrupt_callbacks : List (Option ℕ)
  pub keyboards : Drivers
  pub processes : Processes D

-- What the linker and the machine provide: the addresses of the segment, of the handlers and of the keyboard,
-- the memory of the heap's table, the pages that kzalloc gives for the directory of the kernel, and the
-- file system of fat16_init with its answer to the disk.
pub record Image (D : Type 0) : Type 0 where
  pub tss_address : ℕ
  pub table_memory : List ℕ
  pub interrupt_pointer_table : ℕ → ℕ
  pub idt_zero : ℕ
  pub isr80h_wrapper : ℕ
  pub page : ℕ → ℕ
  pub fat16 : Filesystem D
  pub resolves : Filesystem D → Bool
  pub qwerty_keyboard : ℕ
  pub qwerty_handler : ℕ

abbrev pub welcome : List ℕ
welcome =
    b'H' ∷ b'e' ∷ b'l' ∷ b'l' ∷ b'o' ∷ b',' ∷ b' ' ∷ b'W' ∷ b'o' ∷ b'r' ∷ b'l' ∷ b'd' ∷ b'!' ∷ 10
    ∷ b'W' ∷ b'e' ∷ b'l' ∷ b'c' ∷ b'o' ∷ b'm' ∷ b'e' ∷ b' ' ∷ b't' ∷ b'o' ∷ b' ' ∷ b'R' ∷ b'a'
    ∷ b's' ∷ b'O' ∷ b'S' ∷ b'!' ∷ 10 ∷ []

-- 0:/blank.elf
abbrev pub first_program : List ℕ
first_program =
    b'0' ∷ b':' ∷ b'/' ∷ b'b' ∷ b'l' ∷ b'a' ∷ b'n' ∷ b'k' ∷ b'.' ∷ b'e' ∷ b'l' ∷ b'f' ∷ []

abbrev pub failed_to_load : List ℕ
failed_to_load =
    b'F' ∷ b'a' ∷ b'i' ∷ b'l' ∷ b'e' ∷ b'd' ∷ b' ' ∷ b't' ∷ b'o' ∷ b' ' ∷ b'l' ∷ b'o' ∷ b'a' ∷ b'd'
    ∷ b' ' ∷ b'b' ∷ b'l' ∷ b'a' ∷ b'n' ∷ b'k' ∷ b'.' ∷ b'e' ∷ b'l' ∷ b'f' ∷ 10 ∷ []

abbrev pub kernel_paging_flags : ℕ
kernel_paging_flags = bit_or (bit_or paging_is_writable paging_is_present) paging_access_by_all

-- keyboard_init with the init function of the keyboard.
unfoldable pub start_keyboard :
    (keyboard handler : ℕ) → Drivers → List (Option ℕ) → Drivers × List (Option ℕ)
start_keyboard keyboard handler keyboards callbacks =
    let (res, callbacks') = qwerty_keyboard_init callbacks handler in
    (
      keyboard_init
          (record keyboards {
            driver_at = λ a.
                if a == keyboard
                then record (keyboards.driver_at a) { init = some res }
                else keyboards.driver_at a;
          })
          keyboard,
      callbacks',
    )

module _ {D : Type 0} (im : Image D) where
  -- The state when every initialiser has run, given the table of segments, the file systems and the
  -- commands.
  abbrev pub built :
      Kernel D
      → List (List ℕ)
      → List (Option (Filesystem D))
      → List (Option SystemCommand)
      → Kernel D
  built k gdt filesystems commands =
      let (directory, ram) = paging_new_4gb k.processes.ram im.page kernel_paging_flags in
      let (keyboards, callbacks) =
        start_keyboard im.qwerty_keyboard im.qwerty_handler k.keyboards k.interrupt_callbacks in
      record {
        terminal = terminal_print (terminal_initialize k.terminal) welcome;
        gdt_real = gdt;
        kernel_heap = kheap_init k.kernel_heap im.table_memory;
        filesystems = filesystems;
        disk = disk_search_and_init im.resolves filesystems;
        idt_descriptors = idt_init im.interrupt_pointer_table im.idt_zero im.isr80h_wrapper;
        tss = setup_tss;
        kernel_chunk = directory;
        current_directory = directory;
        isr80h_commands = commands;
        interrupt_callbacks = callbacks;
        keyboards = keyboards;
        processes = record k.processes { table = replicate max_filedescriptors none; ram = ram };
      }

  -- kernel_main up to the loading of the first program; `none` is a panic of the encoder of segments or of
  -- the registration of commands, or an endless loop of fs_insert_filesystem.
  unfoldable pub initialise : Kernel D → Option (Kernel D)
  initialise k = elim (gdt_structured_to_gdt (gdt_structured im.tss_address)) [
    | none ↦ none
    | some gdt ↦ elim (fs_load im.fat16) [
      | none ↦ none
      | some filesystems ↦ elim (isr80h_register_commands k.isr80h_commands) [
        | none ↦ none
        | some commands ↦ some (built k gdt filesystems commands)
      ]
    ]
  ]

-- How kernel_main ends, which never returns: in a panic before the first program is loaded, in one after
-- that, with the state, in the use of a null pointer, or in the first task with its registers.
pub data BootOutcome (D : Type 0) : Type 0 where
  halts : BootOutcome D
  panics : Kernel D → BootOutcome D
  crashes : BootOutcome D
  runs : Kernel D → Registers → BootOutcome D

unfoldable pub panic : {D : Type 0} → Kernel D → (msg : List ℕ) → BootOutcome D
panic k msg = panics (record k { terminal = terminal_print k.terminal msg })

abbrev no_task : List ℕ
no_task =
    b't' ∷ b'a' ∷ b's' ∷ b'k' ∷ b'_' ∷ b'r' ∷ b'u' ∷ b'n' ∷ b'_' ∷ b'f' ∷ b'i' ∷ b'r' ∷ b's' ∷ b't'
    ∷ b'_' ∷ b'e' ∷ b'v' ∷ b'e' ∷ b'r' ∷ b'_' ∷ b't' ∷ b'a' ∷ b's' ∷ b'k' ∷ b'(' ∷ b')' ∷ b':'
    ∷ b' ' ∷ b'N' ∷ b'o' ∷ b' ' ∷ b'c' ∷ b'u' ∷ b'r' ∷ b'r' ∷ b'e' ∷ b'n' ∷ b't' ∷ b' ' ∷ b't'
    ∷ b'a' ∷ b's' ∷ b'k' ∷ b' ' ∷ b'e' ∷ b'x' ∷ b'i' ∷ b's' ∷ b't' ∷ b's' ∷ b'!' ∷ 10 ∷ []

-- A disk without a file system, where fopen fails as it does where open fails.
abbrev pub no_filesystem : {D : Type 0} → Filesystem D
no_filesystem = record {
  fs_open = λ path mode. err eio;
  fs_read = λ d size nmemb. (err eio, [], d);
  fs_seek = λ d offset whence. (err eio, d);
  fs_stat = λ d. err eio;
  fs_close = λ d. err eio;
}

abbrev pub filesystem_of : {D : Type 0} → Kernel D → Filesystem D
filesystem_of k = elim k.disk.filesystem [ none ↦ no_filesystem | some fs ↦ fs ]

-- The first task starts with its own page tables in force.
abbrev pub run_first : {D : Type 0} → Kernel D → BootOutcome D
run_first k = elim (task_run_first_ever_task k.processes.tasks) [
  | none ↦ panic k no_task
  | some (tasks', directory, registers) ↦
      runs
        (record k {
          current_directory = directory;
          processes = record k.processes { tasks = tasks' };
        })
        registers
]

-- `a` is what kzalloc returns while the first program is loaded.
unfoldable pub load_first : {D : Type 0} → Allocations → Kernel D → BootOutcome D
load_first a k = elim (process_load_switch (filesystem_of k) a k.processes first_program) [
  | none ↦ crashes
  | some (err e, processes') ↦ panic (record k { processes = processes' }) failed_to_load
  | some (ok process, processes') ↦ run_first (record k { processes = processes' })
]

unfoldable pub kernel_main : {D : Type 0} → Image D → Allocations → Kernel D → BootOutcome D
kernel_main im a k = elim (initialise im k) [ none ↦ halts | some k' ↦ load_first a k' ]
