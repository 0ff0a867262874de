-- ===== src/Process/Binary.antt =====
-- How src/task/process.c loads a binary file.
use ras_os.FileTable.{Filesystem}
use ras_os.Paging.{Ram, paging_new_4gb}
use ras_os.Paging.Create.{IsPages}
use ras_os.Paging.Identity.{paging_new_4gb-identity}
use ras_os.Process.{
  pos, Allocations, Process, Processes, binary_program, entry_of_program, map_stack, new_task,
  place_process, placed, process_get, process_get_free_slot, process_load, process_load_data,
  process_load_for_slot, process_map_binary, process_map_memory, write_process, zero_process,
}
use ras_os.Process.Slots.{process_get-free}
use ras_os.Process.Space.{with_both-IsAddressSpace, AreInMemory, IsAddressSpace, with_both}
use ras_os.Task.{Task, Tasks, task_init, task_new}
use ras_os.Base.{
  subst, arith, sym, Result, ap, eq→==, ne→==, set, ◌≢◌, Option, ◌≡◌, ℕ, List, refl, some, none, ok,
}

-- A task that has just been added has the directory that it was made with.
page_directory-task_new :
    (t : Tasks) (a : ℕ) (init : Task)
    → ((task_new t a init).task_at a).page_directory ≡ init.page_directory
unfolding task_new
page_directory-task_new t a init = ground arith

module _ {D : Type 0} (fs : Filesystem D) (a : Allocations) (s : Processes D) (filename : List ℕ)
    (table' : List (Option D)) (slot size : ℕ) where
  abbrev pub binary : Process
  binary = record zero_process { program = binary_program a.program_data; size = size }

  -- The state behind task_new.
  abbrev started : Processes D
  started = new_task a (record s { table = table' }) none

  abbrev placed_state : Processes D
  placed_state = record started {
    ram =
        process_map_binary started.ram (started.tasks.task_at a.task_data).page_directory
          a.program_data size;
    process_at = write_process started.process_at a.process_data (placed a filename slot binary);
    processes = set started.processes slot a.process_data;
  }

  place_binary :
      place_process a started filename slot binary ≡ some (ok a.process_data, placed_state)
  unfolding place_process process_map_memory
  place_binary = refl

  for_slot-binary :
      process_get s.processes (pos slot) ≡ 0
      → a.process_data ≢ 0
      → a.program_stack ≢ 0
      → process_load_data fs a s.table filename zero_process ≡ (ok binary, table')
      → process_load_for_slot fs a s filename slot ≡ some (ok a.process_data, placed_state)
  unfolding process_load_for_slot entry_of_program
  for_slot-binary free p q loaded =
      rw
        (
          free,
          ne→== a.process_data 0 p,
          loaded,
          ap (λ (r : Result Process × List (Option D)). r.1) loaded,
          ne→== a.program_stack 0 q,
          process_load_for_slot,
        )
        place_binary

  directory_of : (placed_state.tasks.task_at a.task_data).page_directory ≡ a.page 0
  unfolding new_task task_init paging_new_4gb
  directory_of = page_directory-task_new s.tasks a.task_data _

  abbrev made : Ram
  made = (paging_new_4gb s.ram a.page 5).1

  ram_started : started.ram ≡ made
  unfolding new_task
  ram_started = refl

  ram_after :
      (map_stack placed_state a.process_data).ram
      ≡ with_both made (a.page 0) a.program_data size a.program_stack
  unfolding map_stack
  ram_after =
      rw (eq→== a.process_data a.process_data refl, directory_of, ram_started, map_stack) refl

  -- Loading a binary file into a system with a free slot succeeds, if the file can be read, neither of
  -- the allocations for the process and its stack fails, the pages for the page tables are aligned and
  -- distinct, and the data and the stack are pages in memory. The process then has an address space of its
  -- own, in which its program and its stack lead to what was allocated for them and every other page to
  -- itself.
  pub process_load-binary :
      process_get_free_slot s.processes ≡ ok slot
      → a.process_data ≢ 0
      → a.program_stack ≢ 0
      → process_load_data fs a s.table filename zero_process ≡ (ok binary, table')
      → IsPages a.page
      → AreInMemory a.program_data size a.program_stack
      → (s' : Processes D) × (process_load fs a s filename ≡ some (ok a.process_data, s'))
        × ((s'.process_at a.process_data).program ≡ binary_program a.program_data)
        × ((s'.tasks.task_at a.task_data).page_directory ≡ a.page 0)
        × IsAddressSpace s'.ram (a.page 0) a.program_data size a.program_stack
  unfolding process_load map_stack paging_new_4gb
  process_load-binary free p q loaded pages fit =
      let (d, identity) = paging_new_4gb-identity s.ram a.page 5 pages (omega arith) in
      (
        map_stack placed_state a.process_data,
        rw (free, for_slot-binary (process_get-free s.processes slot free) p q loaded, process_load)
            refl,
        rw (eq→== a.process_data a.process_data refl) refl,
        directory_of,
        subst (λ r. IsAddressSpace r (a.page 0) a.program_data size a.program_stack) (sym ram_after)
            (with_both-IsAddressSpace made (a.page 0) a.program_data size a.program_stack fit d
              identity),
      )
