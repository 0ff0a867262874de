-- ===== src/Syscalls/Examples.antt =====
-- A system with one task, all of whose memory is the letter A.
use ras_os.Syscalls.Steps.{Steps, Event, serve, system_call, interrupted}
use ras_os.Base.{List, Option, ◌∷◌, ◌++◌}
use ras_os.Display.{terminal_print}
use ras_os.Paging.{Ram, paging_get_table_entry, paging_new_4gb}
use ras_os.Paging.Create.{IsPages}
use ras_os.Paging.Identity.{paging_new_4gb-identity}
use ras_os.Paging.Layout.{IsDirectory}
use ras_os.Paging.Set.{IsPage}
use ras_os.Syscalls.{Setting, System, isr80h_command1_print, isr80h_handler, task_current}
use ras_os.Syscalls.Commands.{command1_print_lem, message, registered, stack_item}
use ras_os.Syscalls.Handler.{isr80h_handler_lem, HasSaved}
use ras_os.Task.{InterruptFrame, Task, zero_registers}
use ras_os.Task.Identity.{translate-paging_new_4gb}
use ras_os.Task.Memory.{translate}
use ras_os.Task.Restore.{IsCopyable}
use ras_os.Base.Int.{pos}
use ras_os.Base.{◌∙◌, ◌^◌, ◌*◌, ◌<◌, ◌+◌, sym, ◌≡◌, replicate, ℕ, arith, some, none}

-- Page tables that lead every page to itself, for the kernel and the task.
abbrev pages : ℕ → ℕ
pages k = 0x01000000 + 4096 * k

pages-IsPages : IsPages pages
pages-IsPages = record {
  aligned = λ k h. omega arith;
  bounded = λ k h. omega arith;
  distinct = λ j k hj hk e. omega arith;
}

chunk : ℕ × Ram
chunk = paging_new_4gb (λ a. 0) pages 7

chunk-IsDirectory :
    IsDirectory chunk.1 chunk.0
    × ((v : ℕ) → IsPage v → paging_get_table_entry chunk.1 chunk.0 v ≡ v + 7)
unfolding chunk
chunk-IsDirectory = paging_new_4gb-identity (λ a. 0) pages 7 pages-IsPages (omega arith)

sees_all : (v : ℕ) → v < 2 ^ 32 → translate chunk.1 chunk.0 v ≡ v
unfolding chunk
sees_all v h = translate-paging_new_4gb (λ a. 0) pages 7 v pages-IsPages (omega arith) h

abbrev a_task : Task
a_task = record {
  page_directory = chunk.0;
  registers = record zero_registers { esp = 0x3FF000 };
  process = 0x2008000;
  next = 0;
  prev = 0;
}

abbrev system : System
system = record {
  machine = record { ram = chunk.1; bytes = λ a. b'A'; current_directory = chunk.0 };
  tasks = record {
    task_at = λ a. a_task;
    current_task = 0x2007000;
    task_tail = 0x2007000;
    task_head = 0x2007000;
  };
  terminal = record { video_mem = λ i. 0; row = 0; col = 0 };
  of_process = λ p. record { buffer = replicate 1024 0; tail = 0; head = 0 };
  process_current = none;
}

abbrev setting : Setting
setting = record { kernel_chunk = chunk.0; buf = 0x5FF000; string_cpy = 0x2000000 }

abbrev frame : InterruptFrame
frame = record {
  edi = 1;
  esi = 2;
  ebp = 3;
  reserved = 0;
  ebx = 4;
  edx = 5;
  ecx = 6;
  eax = 1;
  ip = 0x400010;
  cs = 0x1b;
  flags = 0x202;
  esp = 0x3FEFF0;
  ss = 0x23;
}

isr80h_handler_lem_example :
    (res : ℕ) × (s' : System) × (isr80h_handler setting registered (pos 1) frame system
      ≡ some (res, s'))
    × (s'.tasks.current_task ≡ 0x2007000)
    × HasSaved frame (task_current s')
    × (s'.machine.current_directory ≡ chunk.0)
isr80h_handler_lem_example =
    isr80h_handler_lem setting frame system registered (pos 1) (λ e. absurd (omega arith))

-- The address on the stack is 0x41414141.
copyable : IsCopyable chunk.0 system.machine chunk.0 (stack_item system 0) 0x5FF000 1024 0x2000000
copyable = record {
  own_tables = chunk-IsDirectory.0;
  kernel_sees = sees_all;
  buffer_page = (omega arith, omega arith);
  not_null = λ e. absurd (omega arith);
  some_bytes = omega arith;
  small = omega arith;
  text_fits = omega arith;
  place_fits = omega arith;
  other_page = λ i h e. absurd (omega arith);
  text_apart =
      λ i j hi hj e. absurd (omega (arith, sym (sees_all (0x41414141 + i) (omega arith)) ∙ e));
  place_apart = λ i j hi hj e. absurd (omega arith);
}

command1_print_lem_example :
    ((isr80h_command1_print setting system).1.terminal
      ≡ terminal_print system.terminal (message setting system))
    × ((isr80h_command1_print setting system).1.machine.ram ≡ chunk.1)
command1_print_lem_example = command1_print_lem setting system copyable

-- The keyboard's interrupt, 0x21, has its callback; the foreground process is the task's.
abbrev callbacks : List (Option ℕ)
callbacks = replicate 0x21 none ++ (some 0 ∷ replicate 478 none)

abbrev foreground : System
foreground = record system { process_current = some 0x2008000 }

-- The key A, and then a system call that takes it.
abbrev key_pressed : Event
key_pressed = interrupted 0x21 frame 0x1E

abbrev getkey : Event
getkey = system_call (pos 2) frame

abbrev after : Event → System → System
after e s = elim (serve setting 0 registered callbacks e s) [ none ↦ s | some s' ↦ s' ]

abbrev pressed : System
pressed = after key_pressed foreground
