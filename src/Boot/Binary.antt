-- ===== src/Boot/Binary.antt =====
-- kernel_main of src/kernel.c with a first program that is a binary file.
use ras_os.Boot.{Image, Kernel, filesystem_of, first_program, kernel_main, no_filesystem, runs}
use ras_os.Boot.Initialise.{IsImage, IsReset, initialise_lem}
use ras_os.Boot.Start.{
  IsFirstTask, load_first-run_first, main-load_first, process_load-first, run_first-runs, start_of,
}
use ras_os.FileTable.{Filesystem}
use ras_os.Paging.Create.{IsPages}
use ras_os.Process.{
  Allocations, Program, binary_program, entry_of_program, process_get_free_slot, process_load,
  process_load_data, process_switch, zero_process,
}
use ras_os.Process.Binary.{binary, process_load-binary}
use ras_os.Process.Slots.{first_slot}
use ras_os.Process.Space.{AreInMemory, IsAddressSpace}
use ras_os.Syscalls.Handler.{entered}
use ras_os.Task.{Registers, Tasks, program_virtual_address}
use ras_os.Base.{sym, subst, ◌∙◌, ap, ◌≡◌, replicate, ◌≢◌, ℕ, Option, List, some, none, ok}

-- The start of a program that is no ELF file.
starts_binary :
    (p : Program) (ptr : ℕ) (entry : Option ℕ)
    → p ≡ binary_program ptr
    → entry_of_program p ≡ some entry
    → start_of entry ≡ program_virtual_address
unfolding entry_of_program
starts_binary p ptr entry q e = sym (
    ap (λ (o : Option (Option ℕ)). elim o [ none ↦ 0 | some x ↦ start_of x ])
      (sym (ap entry_of_program q) ∙ e))

module _ {D : Type 0} (im : Image D) (a : Allocations) (k : Kernel D) (table' : List (Option D))
    (size : ℕ) where
  -- The kernel starts, and runs the program: in user mode from 0x400000 on, with page tables of its own in
  -- force, in which the program and its stack lead to what was allocated for them and every other page to
  -- itself. What it needs is the state that C starts with, a disk that the file system resolves, that
  -- the file can be read, and allocations that do not fail and are aligned and distinct.
  pub kernel_main-binary :
      IsReset im k
      → IsImage im
      → a.process_data ≢ 0
      → a.program_stack ≢ 0
      → a.task_data ≢ 0
      → process_load_data im.fat16 a (replicate 512 none) first_program zero_process
        ≡ (ok (binary im.fat16 a k.processes first_program table' 0 size), table')
      → IsPages a.page
      → AreInMemory a.program_data size a.program_stack
      → (k' : Kernel D) × (r : Registers) × (kernel_main im a k ≡ runs k' r)
        × (r.ip ≡ program_virtual_address)
        × IsFirstTask a k'.processes.process_at k'.processes.tasks k'.current_directory r
        × IsAddressSpace k'.processes.ram k'.current_directory a.program_data size a.program_stack
  unfolding process_switch
  kernel_main-binary reset image some_process some_stack some_task loaded pages fit =
      let (k1, done, promised) = initialise_lem im k reset image in
      let fs : filesystem_of k1 ≡ im.fat16 =
        ap (λ (o : Option (Filesystem D)). elim o [ none ↦ no_filesystem | some fs ↦ fs ])
          promised.mounted in
      let slot : process_get_free_slot k1.processes.processes ≡ ok 0 =
        ap process_get_free_slot (promised.processes_kept ∙ reset.no_processes) ∙ first_slot in
      let load : process_load_data im.fat16 a k1.processes.table first_program zero_process
          ≡ (ok (binary im.fat16 a k1.processes first_program table' 0 size), table') =
        ap (λ t. process_load_data im.fat16 a t first_program zero_process) promised.no_files
        ∙ loaded in
      let (s, e, program, directory, space) =
        process_load-binary im.fat16 a k1.processes first_program table' 0 size slot some_process
          some_stack load pages fit in
      let e' : process_load (filesystem_of k1) a k1.processes first_program
          ≡ some (ok a.process_data, s) =
        ap (λ f. process_load f a k1.processes first_program) fs ∙ e in
      let (same, (tasks, d, r, entered, first)) =
        process_load-first a k1.processes some_task
          (ap (λ (t : Tasks). t.task_head) promised.tasks_kept ∙ reset.no_tasks) im.fat16
          first_program a.process_data s e in
      let loaded_kernel : Kernel D = record k1 { processes = process_switch s a.process_data } in
      (
        record loaded_kernel {
          current_directory = d;
          processes = record loaded_kernel.processes { tasks = tasks };
        },
        r,
        main-load_first a im k k1 done
            ∙ load_first-run_first a k1 a.process_data s e'
            ∙ run_first-runs a loaded_kernel tasks d r entered,
        first.at_entry ∙ starts_binary _ a.program_data first.entry program first.of_program,
        first,
        subst (λ x. IsAddressSpace s.ram x a.program_data size a.program_stack)
            (sym first.own_pages) space,
      )
