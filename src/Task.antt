-- ===== src/Task.antt =====
-- src/task/task.c: the tasks and the list that links them. A task stands at an address, and the null
-- pointer is 0; the store gives what stands at each address. The page directory and the process of a
-- task are addresses; the switches of the page tables are in Memory.
pub mod Chain
pub mod Memory
pub mod Copy
pub mod Remove
pub mod Identity
pub mod Restore
mod Examples
use ras_os.Base.{◌==◌, if◌then◌else◌, ℕ, Option, none, some, Result, ok, err, eio}

abbrev pub program_virtual_address : ℕ
program_virtual_address = 0x400000

abbrev pub program_virtual_stack_address_bottom : ℕ
program_virtual_stack_address_bottom = 0x3FF000

abbrev pub user_data_segment : ℕ
user_data_segment = 0x23

abbrev pub user_code_segment : ℕ
user_code_segment = 0x1b

pub record Registers : Type 0 where
  pub edi : ℕ
  pub esi : ℕ
  pub ebp : ℕ
  pub ebx : ℕ
  pub edx : ℕ
  pub ecx : ℕ
  pub eax : ℕ
  pub ip : ℕ
  pub cs : ℕ
  pub flags : ℕ
  pub esp : ℕ
  pub ss : ℕ

-- The frame that the processor and the handlers of idt.asm push.
pub record InterruptFrame : Type 0 where
  pub edi : ℕ
  pub esi : ℕ
  pub ebp : ℕ
  pub reserved : ℕ
  pub ebx : ℕ
  pub edx : ℕ
  pub ecx : ℕ
  pub eax : ℕ
  pub ip : ℕ
  pub cs : ℕ
  pub flags : ℕ
  pub esp : ℕ
  pub ss : ℕ

pub record Task : Type 0 where
  pub page_directory : ℕ
  pub registers : Registers
  pub process : ℕ
  pub next : ℕ
  pub prev : ℕ

pub record Tasks : Type 0 where
  pub task_at : ℕ → Task
  pub current_task : ℕ
  pub task_tail : ℕ
  pub task_head : ℕ

abbrev pub zero_registers : Registers
zero_registers = record {
  edi = 0;
  esi = 0;
  ebp = 0;
  ebx = 0;
  edx = 0;
  ecx = 0;
  eax = 0;
  ip = 0;
  cs = 0;
  flags = 0;
  esp = 0;
  ss = 0;
}

-- `elf_entry` is the entry point of the process if its file is an ELF file, and `page_directory` what
-- paging_new_4gb returns; it is not null.
unfoldable pub task_init : (process : ℕ) → (elf_entry : Option ℕ) → (page_directory : ℕ) → Task
task_init process elf_entry page_directory = record {
  page_directory = page_directory;
  registers = record zero_registers {
    ip = elim elf_entry [ none ↦ program_virtual_address | some e ↦ e ];
    ss = user_data_segment;
    cs = user_code_segment;
    esp = program_virtual_stack_address_bottom;
  };
  process = process;
  next = 0;
  prev = 0;
}

abbrev pub write_task : (ℕ → Task) → ℕ → Task → ℕ → Task
write_task task_at a t b = if b == a then t else task_at b

-- `task` is the address that kzalloc returns, which is not null.
unfoldable pub task_new : Tasks → (task : ℕ) → Task → Tasks
task_new s task init =
    if s.task_head == 0
    then record s {
      task_at = write_task s.task_at task init;
      task_head = task;
      task_tail = task;
      current_task = task;
    }
    else let linked =
        write_task (write_task s.task_at task init) s.task_tail
          (record (write_task s.task_at task init s.task_tail) { next = task }) in
      record s {
        task_at = write_task linked task (record (linked task) { prev = s.task_tail });
        task_tail = task;
      }

-- There is a current task.
unfoldable pub task_get_next : Tasks → ℕ
task_get_next s =
    if (s.task_at s.current_task).next == 0 then s.task_head else (s.task_at s.current_task).next

unfoldable pub task_list_remove : Tasks → ℕ → Tasks
task_list_remove s task =
    let t = s.task_at task in
    let s' =
      if t.prev == 0
      then (if task == s.task_head then record s { task_head = t.next } else s)
      else record s {
        task_at = write_task s.task_at t.prev (record (s.task_at t.prev) { next = t.next });
      } in
    if task == s'.current_task then record s' { current_task = task_get_next s' } else s'

-- What task_free does to the list.
unfoldable pub task_free : Tasks → ℕ → Tasks
task_free s task = task_list_remove s task

unfoldable pub task_switch : Tasks → ℕ → Tasks
task_switch s task = record s { current_task = task }

unfoldable pub task_save_state : Task → InterruptFrame → Task
task_save_state t frame = record t {
  registers = record {
    ip = frame.ip;
    cs = frame.cs;
    flags = frame.flags;
    esp = frame.esp;
    ss = frame.ss;
    eax = frame.eax;
    ebp = frame.ebp;
    ebx = frame.ebx;
    ecx = frame.ecx;
    edi = frame.edi;
    edx = frame.edx;
    esi = frame.esi;
  };
}

-- `none` is the panic.
unfoldable pub task_current_save_state : Tasks → InterruptFrame → Option Tasks
task_current_save_state s frame =
    if s.current_task == 0
    then none
    else some (record s {
      task_at =
          write_task s.task_at s.current_task (task_save_state (s.task_at s.current_task) frame);
    })

-- The tasks, the page directory that is switched to, and the registers that task_return restores; `none`
-- is the panic.
unfoldable pub task_run_first_ever_task : Tasks → Option (Tasks × ℕ × Registers)
task_run_first_ever_task s =
    if s.current_task == 0
    then none
    else some (
      task_switch s s.task_head,
      (s.task_at s.task_head).page_directory,
      (s.task_at s.task_head).registers,
    )
