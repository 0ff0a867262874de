-- ===== src/Boot/Start.antt =====
-- How kernel_main of src/kernel.c goes on to the first program.
use ras_os.Boot.{
  BootOutcome, Image, Kernel, crashes, failed_to_load, filesystem_of, first_program, halts,
  initialise, kernel_main, load_first, panic, panics, run_first, runs,
}
use ras_os.Boot.Initialise.{IsImage, IsInitialised, IsReset, initialise_lem}
use ras_os.Display.{terminal_print}
use ras_os.FileTable.{Filesystem}
use ras_os.Process.{
  Allocations, Process, Processes, entry_of_program, process_load, process_load_switch,
  process_switch,
}
use ras_os.Process.Slots.{Loaded, fails, faults, loads, process_load-Loaded}
use ras_os.Syscalls.Handler.{entered}
use ras_os.Task.{
  Registers, Tasks, program_virtual_address, program_virtual_stack_address_bottom, task_init,
  task_new, task_run_first_ever_task, task_switch, user_code_segment, user_data_segment, write_task,
}
use ras_os.Base.{
  sym, ap, ne→==, subst, ◌∙◌, eq→==, Result, List, ◌≡◌, Option, ℕ, ◌≢◌, refl, err, some, none, ok,
}

-- Where a program starts: an ELF file at its entry point, another file at the address that is chosen for it.
abbrev pub start_of : Option ℕ → ℕ
start_of entry = elim entry [ none ↦ program_virtual_address | some e ↦ e ]

-- The registers and the page tables with which the first task is entered, and the task that is current.
pub record IsFirstTask (a : Allocations) (process_at : ℕ → Process) (tasks : Tasks) (directory : ℕ)
    (r : Registers) : Type 0 where
  pub entry : Option ℕ
  pub of_program : entry_of_program (process_at a.process_data).program ≡ some entry
  pub at_entry : r.ip ≡ start_of entry
  pub in_user_code : r.cs ≡ user_code_segment
  pub in_user_data : r.ss ≡ user_data_segment
  pub on_stack : r.esp ≡ program_virtual_stack_address_bottom
  pub own_pages : directory ≡ a.page 0
  pub is_current : tasks.current_task ≡ a.task_data
  pub of_process : (tasks.task_at a.task_data).process ≡ a.process_data
  pub own_directory : (tasks.task_at a.task_data).page_directory ≡ directory

module _ {D : Type 0} (a : Allocations) (s : Processes D) (some_task : a.task_data ≢ 0)
    (no_tasks : s.tasks.task_head ≡ 0) where
  abbrev Enters : Processes D → Type 0
  Enters s' =
      (tasks : Tasks) × (directory : ℕ) × (r : Registers) × (task_run_first_ever_task s'.tasks
        ≡ some (tasks, directory, r))
      × IsFirstTask a s'.process_at tasks directory r

  abbrev AfterLoad : Option (Result ℕ × Processes D) → Type 0
  AfterLoad none = Unit {0}
  AfterLoad (some (err e, s')) = Unit {0}
  AfterLoad (some (ok p, s')) = (p ≡ a.process_data) × Enters s'

  abbrev only_task : Option ℕ → Tasks
  only_task entry = record {
    task_at = write_task s.tasks.task_at a.task_data (task_init a.process_data entry (a.page 0));
    task_head = a.task_data;
    task_tail = a.task_data;
    current_task = a.task_data;
  }

  task_new-only_task :
      (entry : Option ℕ)
      → task_new s.tasks a.task_data (task_init a.process_data entry (a.page 0)) ≡ only_task entry
  unfolding task_new
  task_new-only_task entry = rw (eq→== s.tasks.task_head 0 no_tasks, task_new) refl

  only_task-Enters :
      (s' : Processes D) (entry : Option ℕ)
      → entry_of_program (s'.process_at a.process_data).program ≡ some entry
      → s'.tasks ≡ only_task entry
      → Enters s'
  unfolding task_run_first_ever_task task_switch task_init
  only_task-Enters s' entry starts new =
      let self = eq→== a.task_data a.task_data refl in
      let not_null = ne→== a.task_data 0 some_task in
      (
        only_task entry,
        a.page 0,
        (task_init a.process_data entry (a.page 0)).registers,
        ap task_run_first_ever_task new ∙ rw (not_null, self, task_run_first_ever_task) refl,
        record {
          entry = entry;
          of_program = starts;
          at_entry = refl;
          in_user_code = refl;
          in_user_data = refl;
          on_stack = refl;
          own_pages = refl;
          is_current = refl;
          of_process = rw self refl;
          own_directory = rw self refl;
        },
      )

  after-Loaded : (o : Option (Result ℕ × Processes D)) → Loaded a s o → AfterLoad o
  after-Loaded _ faults = tt
  after-Loaded _ (fails e t same at) = tt
  after-Loaded _ (loads slot t free same number task stack entry starts new kept) =
      (refl, only_task-Enters t entry starts (new ∙ task_new-only_task entry))

  -- A process that is loaded where there is no task is the one that task_run_first_ever_task enters.
  pub process_load-first :
      (fs : Filesystem D) (filename : List ℕ) (p : ℕ) (s' : Processes D)
      → process_load fs a s filename ≡ some (ok p, s')
      → (p ≡ a.process_data) × Enters s'
  process_load-first fs filename p s' e =
      subst AfterLoad e (after-Loaded _ (process_load-Loaded a s filename fs))

module _ {D : Type 0} (a : Allocations) where
  -- What a start of the kernel behind its initialisers comes to: by the result of process_load, a null
  -- pointer, the panic with its message on the screen, or the program.
  abbrev pub IsOutcome : Kernel D → BootOutcome D → Type 0
  IsOutcome k halts = ⊥
  IsOutcome k crashes = process_load (filesystem_of k) a k.processes first_program ≡ none
  IsOutcome k (panics k') =
      (e : ℕ) × (s' : Processes D) × (process_load (filesystem_of k) a k.processes first_program
        ≡ some (err e, s'))
      × (k' ≡ record k { terminal = terminal_print k.terminal failed_to_load; processes = s' })
  IsOutcome k (runs k' r) =
      (s' : Processes D) × (process_load (filesystem_of k) a k.processes first_program
        ≡ some (ok a.process_data, s'))
      × IsFirstTask a k'.processes.process_at k'.processes.tasks k'.current_directory r
      × (k'.processes.current_process ≡ a.process_data)
      × (k'.processes.ram ≡ s'.ram)

  pub run_first-runs :
      (k : Kernel D) (tasks : Tasks) (directory : ℕ) (r : Registers)
      → task_run_first_ever_task k.processes.tasks ≡ some (tasks, directory, r)
      → run_first k
        ≡ runs
            (record k {
              current_directory = directory;
              processes = record k.processes { tasks = tasks };
            })
            r
  run_first-runs k tasks directory r e = rw (e, run_first) refl

  pub main-load_first :
      (im : Image D) (k k' : Kernel D)
      → initialise im k ≡ some k'
      → kernel_main im a k ≡ load_first a k'
  unfolding kernel_main
  main-load_first im k k' e = rw (e, kernel_main) refl

  pub load_first-run_first :
      (k : Kernel D) (p : ℕ) (s' : Processes D)
      → process_load (filesystem_of k) a k.processes first_program ≡ some (ok p, s')
      → load_first a k ≡ run_first (record k { processes = process_switch s' p })
  unfolding load_first process_load_switch
  load_first-run_first k p s' e = rw (e, load_first, process_load_switch) refl

  load_first-IsOutcome :
      (k : Kernel D)
      → a.task_data ≢ 0
      → k.processes.tasks.task_head ≡ 0
      → IsOutcome k (load_first a k)
  unfolding load_first process_load_switch process_switch panic
  load_first-IsOutcome k some_task no_tasks = go _ refl
    where
      go :
          (o : Option (Result ℕ × Processes D))
          → process_load (filesystem_of k) a k.processes first_program ≡ o
          → IsOutcome k (load_first a k)
      go none e = rw (e, load_first, process_load_switch) e
      go (some (err c, s')) e = rw (e, load_first, process_load_switch) (c, s', e, refl)
      go (some (ok p, s')) e =
          let (same, (tasks, directory, r, entered, first)) =
            process_load-first a k.processes some_task no_tasks (filesystem_of k) first_program p s'
              e in
          let booted : Kernel D = record k { processes = process_switch s' p } in
          subst (IsOutcome k)
            (sym (run_first-runs booted tasks directory r entered)
              ∙ sym (load_first-run_first k p s' e))
            (s', e ∙ ap (λ q. some (ok q, s')) same, first, same, refl)

  -- From the state that C starts with, and on a disk that the file system resolves, kernel_main comes through
  -- its initialisers, with what each part promises, and then ends as process_load does: with the first
  -- program, entered at its start in user mode on its own stack and with its own page tables, with a panic
  -- that says that the program was not loaded, or, if process_load uses a null pointer, with that.
  pub kernel_main_lem :
      (im : Image D) (k : Kernel D)
      → IsReset im k
      → IsImage im
      → a.task_data ≢ 0
      → (k' : Kernel D) × (initialise im k ≡ some k')
        × IsInitialised im k k'
        × IsOutcome k' (kernel_main im a k)
  unfolding kernel_main
  kernel_main_lem im k reset image some_task =
      let (k', done, promised) = initialise_lem im k reset image in
      (
        k',
        done,
        promised,
        subst (IsOutcome k') (sym (main-load_first im k k' done)) (
            load_first-IsOutcome k' some_task
              (ap (λ (t : Tasks). t.task_head) promised.tasks_kept ∙ reset.no_tasks)),
      )
