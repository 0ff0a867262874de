-- ===== src/Task/Examples.antt =====
-- A list of two tasks, at 0x5000 and 0x6000.
use ras_os.Paging.{Ram, paging_get_table_entry, paging_new_4gb}
use ras_os.Paging.Create.{IsPages}
use ras_os.Paging.Identity.{paging_new_4gb-identity}
use ras_os.Paging.Layout.{IsDirectory}
use ras_os.Paging.Set.{IsPage}
use ras_os.Task.{Task, Tasks, task_get_next, task_init, task_list_remove, task_new, zero_registers}
use ras_os.Task.Chain.{IsChain, task_get_next_lem, task_new-IsChain}
use ras_os.Task.Copy.{text_at}
use ras_os.Task.Identity.{translate-paging_new_4gb}
use ras_os.Task.Memory.{Machine, copy_string_from_task, translate}
use ras_os.Task.Remove.{task_list_remove_lem}
use ras_os.Task.Restore.{IsCopyable, copy_string_from_task_lem}
use ras_os.Base.{
  ◌∙◌, ◌*◌, sym, ◌^◌, ok, List, ◌%◌, ◌+◌, ◌≢◌, ◌<◌, get_or, ◌∷◌, ◌≡◌, ℕ, arith, [], refl, none, suc,
  zero,
}

abbrev blank : Task
blank = record { page_directory = 0; registers = zero_registers; process = 0; next = 0; prev = 0 }

abbrev no_tasks : Tasks
no_tasks = record { task_at = λ a. blank; current_task = 0; task_tail = 0; task_head = 0 }

abbrev one_task : Tasks
one_task = task_new no_tasks 0x5000 (task_init 0x7000 none 0x8000)

abbrev two_tasks : Tasks
two_tasks = task_new one_task 0x6000 (task_init 0x7100 none 0x9000)

no_tasks-IsChain : IsChain no_tasks []
no_tasks-IsChain = record {
  not_null = λ i h. absurd (omega arith);
  different = λ i j hi hj e. absurd (omega arith);
  from_head = refl;
  to_tail = λ h. absurd (omega arith);
  nexts = λ i h. absurd (omega arith);
  prevs = λ i h. absurd (omega arith);
}

one_task-IsChain : IsChain one_task (0x5000 ∷ [])
one_task-IsChain =
    task_new-IsChain no_tasks 0x5000 [] 0x7000 none 0x8000 no_tasks-IsChain (omega arith)
      (λ i h. absurd (omega arith))

abbrev addresses : List ℕ
addresses = 0x5000 ∷ []

other_address : (i : ℕ) → i < 1 → get_or addresses i 0 ≢ 0x6000
other_address zero h = λ e. ground arith
other_address (suc i) h = absurd (omega arith)

two_tasks-IsChain : IsChain two_tasks (0x5000 ∷ 0x6000 ∷ [])
two_tasks-IsChain =
    task_new-IsChain one_task 0x6000 (0x5000 ∷ []) 0x7100 none 0x9000 one_task-IsChain (omega arith)
      other_address

task_new-IsChain_example : IsChain two_tasks (0x5000 ∷ 0x6000 ∷ [])
task_new-IsChain_example =
    task_new-IsChain one_task 0x6000 (0x5000 ∷ []) 0x7100 none 0x9000 one_task-IsChain (omega arith)
      other_address

current_first : one_task.current_task ≡ 0x5000
unfolding task_new
current_first = refl

task_get_next_lem_example : task_get_next one_task ≡ get_or (0x5000 ∷ []) ((0 + 1) % 1) 0
task_get_next_lem_example =
    task_get_next_lem one_task (0x5000 ∷ []) 0 one_task-IsChain (omega arith) current_first

-- Page tables that lead every page to itself, for the kernel and the task.
abbrev pages : ℕ → ℕ
pages k = 0x01000000 + 4096 * k

pages-IsPages : IsPages pages
pages-IsPages = record {
  aligned = λ k h. omega arith;
  bounded = λ k h. omega arith;
  distinct = λ j k hj hk e. omega arith;
}

chunk : ℕ × Ram
chunk = paging_new_4gb (λ a. 0) pages 7

chunk-IsDirectory :
    IsDirectory chunk.1 chunk.0
    × ((v : ℕ) → IsPage v → paging_get_table_entry chunk.1 chunk.0 v ≡ v + 7)
unfolding chunk
chunk-IsDirectory = paging_new_4gb-identity (λ a. 0) pages 7 pages-IsPages (omega arith)

sees_all : (v : ℕ) → v < 2 ^ 32 → translate chunk.1 chunk.0 v ≡ v
unfolding chunk
sees_all v h = translate-paging_new_4gb (λ a. 0) pages 7 v pages-IsPages (omega arith) h

-- Its bytes are A everywhere.
abbrev machine : Machine
machine = record { ram = chunk.1; bytes = λ a. b'A'; current_directory = chunk.0 }

abbrev a_task : Task
a_task = record {
  page_directory = chunk.0;
  registers = zero_registers;
  process = 0;
  next = 0;
  prev = 0;
}

copyable : IsCopyable chunk.0 machine chunk.0 0x400000 0x700000 1024 0x2000000
copyable = record {
  own_tables = chunk-IsDirectory.0;
  kernel_sees = sees_all;
  buffer_page = (omega arith, omega arith);
  not_null = λ e. absurd (omega arith);
  some_bytes = omega arith;
  small = omega arith;
  text_fits = omega arith;
  place_fits = omega arith;
  other_page = λ i h e. absurd (omega arith);
  text_apart =
      λ i j hi hj e. absurd (omega (arith, sym (sees_all (0x400000 + i) (omega arith)) ∙ e));
  place_apart = λ i j hi hj e. absurd (omega arith);
}

copy_string_from_task_lem_example :
    (m' : Machine) × (copy_string_from_task chunk.0 machine a_task 0x400000 0x700000 1024 0x2000000
      ≡ (ok tt, m'))
    × (m'.ram ≡ chunk.1)
    × (m'.current_directory ≡ chunk.0)
    × (text_at 1023 m'.bytes 0x700000
        ≡ text_at 1023 (λ v. machine.bytes (translate chunk.1 chunk.0 v)) 0x400000)
copy_string_from_task_lem_example =
    copy_string_from_task_lem chunk.0 machine a_task 0x400000 0x700000 1024 0x2000000 copyable

task_list_remove_lem_example :
    let s' = task_list_remove two_tasks 0x6000 in
    (s'.task_head ≡ 0x5000)
    × ((s'.task_at 0x5000).next ≡ 0)
    × ((b : ℕ) → b ≢ 0x5000 → s'.task_at b ≡ two_tasks.task_at b)
    × ((b : ℕ) → (s'.task_at b).prev ≡ (two_tasks.task_at b).prev)
unfolding task_new
task_list_remove_lem_example =
    task_list_remove_lem two_tasks (0x5000 ∷ 0x6000 ∷ []) two_tasks-IsChain 0 (omega arith)
