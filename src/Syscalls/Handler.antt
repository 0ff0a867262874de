-- ===== src/Syscalls/Handler.antt =====
-- How the kernel is entered and left (isr80h_handler of src/idt/idt.c).
use ras_os.Idt.{isr80h_find_command, isr80h_handle_command}
use ras_os.Syscalls.{
  ℤ, Setting, System, SystemCommand, command0_sum, command1_print, command2_getkey,
  command3_putchar, enter_kernel, isr80h_command0_sum, isr80h_command1_print,
  isr80h_command2_getkey, isr80h_command3_putchar, isr80h_handler, run_command, task_current,
  task_page,
}
use ras_os.Task.{
  InterruptFrame, Task, Tasks, task_current_save_state, task_save_state, task_switch, write_task,
}
use ras_os.Task.Memory.{kernel_page, paging_switch}
use ras_os.Base.{
  sym, ◌∙◌, Option-cases, ap, ne→==, eq→==, inr, inl, ℕ, ◌≢◌, Option, List, ◌≡◌, refl, some,
}

-- A task of a system has the registers that the processor pushed in a frame.
abbrev pub HasSaved : InterruptFrame → Task → Type 0
HasSaved frame t =
    (t.registers.ip ≡ frame.ip)
    × (t.registers.cs ≡ frame.cs)
    × (t.registers.flags ≡ frame.flags)
    × (t.registers.esp ≡ frame.esp)
    × (t.registers.ss ≡ frame.ss)
    × (t.registers.eax ≡ frame.eax)
    × (t.registers.ebp ≡ frame.ebp)
    × (t.registers.ebx ≡ frame.ebx)
    × (t.registers.ecx ≡ frame.ecx)
    × (t.registers.edi ≡ frame.edi)
    × (t.registers.edx ≡ frame.edx)
    × (t.registers.esi ≡ frame.esi)

-- A command changes neither the tasks nor the task that is current.
run_command-tasks :
    (k : Setting) (s : System) (c : SystemCommand) → (run_command k s c).1.tasks ≡ s.tasks
unfolding run_command isr80h_command0_sum isr80h_command1_print isr80h_command2_getkey
    isr80h_command3_putchar
run_command-tasks k s command0_sum = refl
run_command-tasks k s command1_print = refl
run_command-tasks k s command2_getkey = refl
run_command-tasks k s command3_putchar = refl

-- What task_page leaves.
abbrev pub left : System → System
left s = record s {
  tasks = task_switch s.tasks s.tasks.current_task;
  machine = paging_switch s.machine (task_current s).page_directory;
}

pub task_page_lem : (s : System) → s.tasks.current_task ≢ 0 → task_page s ≡ some (left s)
unfolding task_page
task_page_lem s n = rw (ne→== s.tasks.current_task 0 n) refl

module _ (k : Setting) (frame : InterruptFrame) (s : System) where
  -- The state when the registers are saved and the kernel's pages are in force.
  abbrev pub entered : System
  entered = record s {
    machine = kernel_page k.kernel_chunk s.machine;
    tasks = record s.tasks {
      task_at =
          write_task s.tasks.task_at s.tasks.current_task (task_save_state (task_current s) frame);
    };
  }

  pub enter_kernel_lem :
      s.tasks.current_task ≢ 0 → enter_kernel k.kernel_chunk frame s ≡ some entered
  unfolding enter_kernel task_current_save_state
  enter_kernel_lem n =
      rw (ne→== s.tasks.current_task 0 n, enter_kernel, task_current_save_state) refl

  pub saved_task : task_current entered ≡ task_save_state (task_current s) frame
  saved_task = rw (eq→== s.tasks.current_task s.tasks.current_task refl) refl

  module _ (commands : List (Option SystemCommand)) (command : ℤ) where
    abbrev pub handled : ℕ × System
    handled = isr80h_handle_command commands command (run_command k entered) (0, entered)

    pub handled-tasks : handled.1.tasks ≡ entered.tasks
    unfolding isr80h_handle_command
    handled-tasks = elim (Option-cases (isr80h_find_command commands command)) [
      | inl z ↦ rw (z, isr80h_handle_command) refl
      | inr (c, q) ↦ rw (q, isr80h_handle_command) (run_command-tasks k entered c)
    ]

    -- The task that is current behind the command.
    pub current : task_current handled.1 ≡ task_save_state (task_current s) frame
    current = ap (λ (t : Tasks). t.task_at t.current_task) handled-tasks ∙ saved_task

    -- The handler as a whole.
    pub isr80h_handler-left :
        s.tasks.current_task ≢ 0
        → isr80h_handler k commands command frame s ≡ some (handled.0, left handled.1)
    unfolding isr80h_handler
    isr80h_handler-left some_task =
        rw
          (
            enter_kernel_lem some_task,
            task_page_lem handled.1
                (λ e. some_task (sym (ap (λ (t : Tasks). t.current_task) handled-tasks) ∙ e)),
            isr80h_handler,
          )
          refl

    -- If there is a current task, a system call returns, whatever its number: the task's registers are
    -- those of the frame, it is still the current task, and its own page tables are in force again.
    pub isr80h_handler_lem :
        s.tasks.current_task ≢ 0
        → (res : ℕ) × (s' : System) × (isr80h_handler k commands command frame s ≡ some (res, s'))
          × (s'.tasks.current_task ≡ s.tasks.current_task)
          × HasSaved frame (task_current s')
          × (s'.machine.current_directory ≡ (task_current s).page_directory)
    unfolding isr80h_handler task_save_state task_switch paging_switch
    isr80h_handler_lem some_task =
        let same = ap (λ (t : Tasks). t.current_task) handled-tasks in
        (
          handled.0,
          left handled.1,
          isr80h_handler-left some_task,
          same,
          (
            ap (λ (t : Task). t.registers.ip) current,
            ap (λ (t : Task). t.registers.cs) current,
            ap (λ (t : Task). t.registers.flags) current,
            ap (λ (t : Task). t.registers.esp) current,
            ap (λ (t : Task). t.registers.ss) current,
            ap (λ (t : Task). t.registers.eax) current,
            ap (λ (t : Task). t.registers.ebp) current,
            ap (λ (t : Task). t.registers.ebx) current,
            ap (λ (t : Task). t.registers.ecx) current,
            ap (λ (t : Task). t.registers.edi) current,
            ap (λ (t : Task). t.registers.edx) current,
            ap (λ (t : Task). t.registers.esi) current,
          ),
          ap (λ (t : Task). t.page_directory) current,
        )
