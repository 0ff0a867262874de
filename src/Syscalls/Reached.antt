-- ===== src/Syscalls/Reached.antt =====
-- The states that system calls and interrupts lead to (src/idt/idt.c).
use ras_os.Syscalls.{Setting, System, SystemCommand}
use ras_os.Syscalls.Steps.{Steps}
use ras_os.Syscalls.Running.{AreRings, IsSameTask}
use ras_os.Task.{Task}
use ras_os.Base.{◌≡◌, some, Option, List, ℕ}

module _ {F : Type 0} (k : Setting) (behind : ℕ) (commands : List (Option SystemCommand))
    (callbacks : List (Option F)) where
  -- What the keyboard's callback leaves to the task_page of interrupt_handler.
  record IsCalled (s : System) (o : Option System) : Type 0 where
    called : System
    returned : o ≡ some called
    rings_left : AreRings called.of_process
    same_left : IsSameTask s called
