-- ===== src/Syscalls.antt =====
-- The system calls of src/isr80h/syscalls.c and src/isr80h/isr80h.c, and the two handlers of src/idt/idt.c,
-- between a task and the kernel. The signal to the interrupt controller at the end of interrupt_handler is
-- a port.
mod Examples
pub mod Handler
pub mod Commands
pub mod Steps
pub mod Running
pub mod Reached
use ras_os.Display.{Terminal, terminal_default_putchar, terminal_print}
use ras_os.Idt.{isr80h_handle_command, isr80h_register_command}
use ras_os.Keyboard.{KeyboardBuffer, Keyboards, keyboard_pop}
use ras_os.Task.{InterruptFrame, Task, Tasks, task_current_save_state, task_switch}
use ras_os.Task.Copy.{text_at}
use ras_os.Task.Memory.{
  Machine, copy_string_from_task, kernel_page, paging_switch, task_get_stack_item,
}
use ras_os.Base.Int.{ℤ, pos}
use ras_os.Base.{
  ◌==◌, ◌^◌, ltb, if◌then◌else◌, get_or, ◌-◌, ◌%◌, ◌+◌, Option, ℕ, List, some, none, ok,
}

pub record System : Type 0 where
  pub machine : Machine
  pub tasks : Tasks
  pub terminal : Terminal
  pub of_process : ℕ → KeyboardBuffer
  pub process_current : Option ℕ

-- The four commands; their numbers are 0 to 3.
pub data SystemCommand : Type 0 where
  command0_sum command1_print command2_getkey command3_putchar : SystemCommand

abbrev pub task_current : System → Task
task_current s = s.tasks.task_at s.tasks.current_task

-- The keyboard as keyboard.c sees it. For a command there is a current task.
abbrev pub keyboards : System → Keyboards
keyboards s = record {
  of_process = s.of_process;
  process_current = s.process_current;
  task_process = some (task_current s).process;
}

-- A byte as a `char`, as a word of 32 bits.
abbrev pub char_word : ℕ → ℕ
char_word c = if ltb c 128 then c else 2 ^ 32 - 256 + c

-- The kernel's directory, the address of the buffer that isr80h_command1_print has on its stack, and what
-- kzalloc returns to copy_string_from_task.
pub record Setting : Type 0 where
  pub kernel_chunk : ℕ
  pub buf : ℕ
  pub string_cpy : ℕ

abbrev pub size_of_buf : ℕ
size_of_buf = 1024

module _ (k : Setting) where
  unfoldable pub isr80h_command0_sum : System → ℕ × System
  isr80h_command0_sum s =
      let (v2, m2) = task_get_stack_item k.kernel_chunk s.machine (task_current s) 1 in
      let (v1, m1) = task_get_stack_item k.kernel_chunk m2 (task_current s) 0 in
      ((v1 + v2) % 2 ^ 32, record s { machine = m1 })

  -- The status of the copy is dropped. After a copy the buffer has a 0, in its last byte at the latest;
  -- without one the code prints what is on the stack, up to a 0, of which the first 1023 characters are
  -- modelled.
  unfoldable pub isr80h_command1_print : System → ℕ × System
  isr80h_command1_print s =
      let (user_space_msg_buffer, m1) =
        task_get_stack_item k.kernel_chunk s.machine (task_current s) 0 in
      let (res, m2) =
        copy_string_from_task k.kernel_chunk m1 (task_current s) user_space_msg_buffer k.buf
          size_of_buf k.string_cpy in
      (
        0,
        record s {
          machine = m2;
          terminal = terminal_print s.terminal (text_at (size_of_buf - 1) m2.bytes k.buf);
        },
      )

  unfoldable pub isr80h_command2_getkey : System → ℕ × System
  isr80h_command2_getkey s =
      let (c, ks) = keyboard_pop (keyboards s) in
      (char_word c, record s { of_process = ks.of_process })

  unfoldable pub isr80h_command3_putchar : System → ℕ × System
  isr80h_command3_putchar s =
      let (item, m1) = task_get_stack_item k.kernel_chunk s.machine (task_current s) 0 in
      (0, record s { machine = m1; terminal = terminal_default_putchar s.terminal (item % 256) 15 })

  unfoldable pub run_command : System → SystemCommand → ℕ × System
  run_command s command0_sum = isr80h_command0_sum s
  run_command s command1_print = isr80h_command1_print s
  run_command s command2_getkey = isr80h_command2_getkey s
  run_command s command3_putchar = isr80h_command3_putchar s

-- `none` is a panic.
unfoldable pub isr80h_register_commands :
    List (Option SystemCommand) → Option (List (Option SystemCommand))
isr80h_register_commands commands = elim (isr80h_register_command commands (pos 0) command0_sum) [
  | none ↦ none
  | some one ↦ elim (isr80h_register_command one (pos 1) command1_print) [
    | none ↦ none
    | some two ↦ elim (isr80h_register_command two (pos 2) command2_getkey) [
      | none ↦ none
      | some three ↦ isr80h_register_command three (pos 3) command3_putchar
    ]
  ]
]

-- The code does not stand it if there is no current task.
unfoldable pub task_page : System → Option System
task_page s =
    if s.tasks.current_task == 0
    then none
    else some (record s {
      tasks = task_switch s.tasks s.tasks.current_task;
      machine = paging_switch s.machine (task_current s).page_directory;
    })

-- The state when the registers of the task are saved and the kernel's pages are in force; `none` is the
-- panic.
unfoldable pub enter_kernel : (kernel_chunk : ℕ) → InterruptFrame → System → Option System
enter_kernel kernel_chunk frame s = elim (task_current_save_state s.tasks frame) [
  | none ↦ none
  | some tasks' ↦ some (record s { machine = kernel_page kernel_chunk s.machine; tasks = tasks' })
]

unfoldable pub isr80h_handler :
    Setting
    → List (Option SystemCommand)
    → (command : ℤ) → InterruptFrame
    → System
    → Option (ℕ × System)
isr80h_handler k commands command frame s = elim (enter_kernel k.kernel_chunk frame s) [
  | none ↦ none
  | some entered ↦
      let (res, behind) =
        isr80h_handle_command commands command (run_command k entered) (0, entered) in
      elim (task_page behind) [ none ↦ none | some s' ↦ some (res, s') ]
]

-- `F` is the type of the callbacks and `call` what each does, `none` where it does not come back.
unfoldable pub interrupt_handler :
    {F : Type 0}
    → (F → System → Option System)
    → (kernel_chunk : ℕ) → List (Option F)
    → (interrupt : ℕ) → InterruptFrame
    → System
    → Option System
interrupt_handler call kernel_chunk callbacks interrupt frame s =
    elim (get_or callbacks interrupt none) [
      | none ↦ task_page (record s { machine = kernel_page kernel_chunk s.machine })
      | some callback ↦ elim (enter_kernel kernel_chunk frame s) [
        | none ↦ none
        | some entered ↦ elim (call callback entered) [
          | none ↦ none
          | some called ↦ task_page called
        ]
      ]
    ]
