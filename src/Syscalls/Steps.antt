-- ===== src/Syscalls/Steps.antt =====
-- The kernel between two instructions of a task: system calls and interrupts (isr80h_handler and
-- interrupt_handler of src/idt/idt.c), one after the other, in any order. The interrupt that has a callback is
-- the keyboard's (src/keyboard/qwerty.c).
use ras_os.Keyboard.{keyboard_push, qwerty_keyboard_handle_interrupt}
use ras_os.Syscalls.{
  ℤ, Setting, System, SystemCommand, interrupt_handler, isr80h_handler, keyboards, task_page,
}
use ras_os.Task.{InterruptFrame}
use ras_os.Task.Memory.{kernel_page}
use ras_os.Base.{◌≤◌, ◌≢◌, ◌||◌, ◌==◌, bit_and, ◌≡◌, if◌then◌else◌, Option, ℕ, List, some, none}

-- The character of a scan code pushed in the kernel's pages. `behind` is the byte behind the table, which
-- the code reads for the scan code 82.
unfoldable pub pushed : (behind scancode : ℕ) → System → System
pushed behind scancode s = elim (qwerty_keyboard_handle_interrupt (keyboards s) scancode) [
  | none ↦
      if behind == 0
      then s
      else record s { of_process = (keyboard_push (keyboards s) behind).of_process }
  | some ks ↦ record s { of_process = ks.of_process }
]

-- qwerty_keyboard_handle_interrupt with the switches of the page tables. A key that is let go returns
-- before the task's tables are in force again.
unfoldable pub keyboard_callback : (kernel_chunk behind scancode : ℕ) → System → Option System
keyboard_callback kernel_chunk behind scancode s =
    let entered : System = record s { machine = kernel_page kernel_chunk s.machine } in
    if bit_and scancode 0x80 == 0 then task_page (pushed behind scancode entered) else some entered

-- The cells of the 32 KB of video memory, from 0xB8000 on.
abbrev pub video_cells : ℕ
video_cells = 16384

-- Nothing behind the video memory is written between two states.
abbrev pub IsInVideo : System → System → Type 0
IsInVideo s1 s2 = (i : ℕ) → video_cells ≤ i → s2.terminal.video_mem i ≡ s1.terminal.video_mem i

-- What the processor enters the kernel for: the interrupt 0x80 of a task, or another.
pub data Event : Type 0 where
  system_call : (command : ℤ) (frame : InterruptFrame) → Event
  interrupted : (interrupt : ℕ) (frame : InterruptFrame) (scancode : ℕ) → Event

-- A system call, or an interrupt whose gate leads to interrupt_handler.
abbrev pub DoesReturn : Event → Type 0
DoesReturn (system_call command frame) = Unit {0}
DoesReturn (interrupted interrupt frame scancode) = (interrupt ≢ 0) × (interrupt ≢ 0x80)

module _ {F : Type 0} (k : Setting) (behind : ℕ) (commands : List (Option SystemCommand))
    (callbacks : List (Option F)) where
  -- By the gates of idt_init. Every callback that is registered is the keyboard's. From idt_zero, the handler
  -- of a division by zero, which ends without the return of an interrupt, the task does not go on.
  unfoldable pub serve : Event → System → Option System
  serve (system_call command frame) s = elim (isr80h_handler k commands command frame s) [
    | none ↦ none
    | some (res, s') ↦ some s'
  ]
  serve (interrupted interrupt frame scancode) s =
      if (interrupt == 0) || (interrupt == 0x80)
      then none
      else interrupt_handler (λ callback. keyboard_callback k.kernel_chunk behind scancode)
          k.kernel_chunk callbacks interrupt frame s

  -- The states that events lead to, as long as what is printed stays in the video memory: the rows go on
  -- behind it, and would be written over what is there.
  pub data Steps (s : System) : System → Type 0 where
    start : Steps s s
    step :
        (s1 s2 : System)
        → Steps s s1
        → (e : Event) → serve e s1 ≡ some s2
        → IsInVideo s1 s2
        → Steps s s2
