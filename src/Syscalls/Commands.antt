-- ===== src/Syscalls/Commands.antt =====
-- What the system calls of src/isr80h/syscalls.c do.
use ras_os.CString.Text.{text}
use ras_os.Display.{terminal_print}
use ras_os.Idt.{isr80h_register_command}
use ras_os.Syscalls.{
  Setting, System, SystemCommand, command0_sum, command1_print, command2_getkey, command3_putchar,
  isr80h_command0_sum, isr80h_command1_print, isr80h_register_commands, task_current,
}
use ras_os.Task.Copy.{text_at}
use ras_os.Task.Memory.{
  Machine, kernel_page, paging_switch, task_get_stack_item, task_page_task, translate, word_in,
}
use ras_os.Task.Restore.{IsCopyable, copy_string_from_task_lem}
use ras_os.Base.{
  ◌∙◌, Result, ap, ◌^◌, ◌*◌, set, ◌%◌, Option, ◌+◌, ℕ, List, ◌≡◌, replicate, refl, some, none,
}

-- The four commands in a table that is empty otherwise.
abbrev pub registered : List (Option SystemCommand)
registered =
    set
      (set (set (set (replicate 1024 none) 0 (some command0_sum)) 1 (some command1_print)) 2
        (some command2_getkey))
      3 (some command3_putchar)

-- isr80h_register_commands fills an empty table without a panic.
pub register_commands-registered : isr80h_register_commands (replicate 1024 none) ≡ some registered
unfolding isr80h_register_commands isr80h_register_command
register_commands-registered = refl

-- What a task that is stopped has on its stack, seen through its own page tables.
abbrev pub stack_item : System → (index : ℕ) → ℕ
stack_item s index =
    word_in (record s.machine { current_directory = (task_current s).page_directory })
      ((task_current s).registers.esp + 4 * index)

-- isr80h_command0_sum gives the sum of the two lowest words of the stack, in 32 bits.
pub command0_sum_lem :
    (k : Setting) (s : System)
    → (isr80h_command0_sum k s).0 ≡ (stack_item s 0 + stack_item s 1) % 2 ^ 32
unfolding isr80h_command0_sum task_get_stack_item task_page_task kernel_page paging_switch
command0_sum_lem k s = refl

module _ (k : Setting) (s : System) where
  -- The text that a task has passed to isr80h_command1_print, seen through its own page tables.
  abbrev pub message : List ℕ
  message =
      text_at 1023
        (λ v. s.machine.bytes (translate s.machine.ram (task_current s).page_directory v))
        (stack_item s 0)

  -- The memory in which the copy starts.
  abbrev in_kernel : Machine
  in_kernel = record s.machine { current_directory = k.kernel_chunk }

  -- Where copy_string_from_task copies a text of up to 1024 bytes from the address on top of the task's
  -- stack, isr80h_command1_print prints that text as the task sees it, up to its 0 or to 1023 characters,
  -- and leaves the page tables as they were.
  pub command1_print_lem :
      IsCopyable k.kernel_chunk in_kernel
        (task_current s).page_directory
        (stack_item s 0)
        k.buf
        1024
        k.string_cpy
      → ((isr80h_command1_print k s).1.terminal ≡ terminal_print s.terminal message)
        × ((isr80h_command1_print k s).1.machine.ram ≡ s.machine.ram)
  unfolding isr80h_command1_print task_get_stack_item task_page_task kernel_page paging_switch
  command1_print_lem c =
      let (m', e, tables, back, text) =
        copy_string_from_task_lem k.kernel_chunk in_kernel (task_current s) (stack_item s 0) k.buf
          1024 k.string_cpy c in
      (
        ap
              (λ (r : Result (Unit {0}) × Machine).
                terminal_print s.terminal (text_at 1023 r.1.bytes k.buf))
              e
            ∙ ap (terminal_print s.terminal) text,
        ap (λ (r : Result (Unit {0}) × Machine). r.1.ram) e ∙ tables,
      )
