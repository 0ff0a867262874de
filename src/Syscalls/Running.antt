-- ===== src/Syscalls/Running.antt =====
-- What holds of every state that system calls and interrupts lead to.
use ras_os.Syscalls.Handler.{task_page_lem, left}
use ras_os.Task.{task_switch}
use ras_os.Task.Memory.{paging_switch}
use ras_os.Keyboard.{
  KeyboardBuffer, Keyboards, buffer_size, keyboard_pop, keyboard_push, pop_char, push_char,
  with_buffer,
}
use ras_os.Syscalls.Steps.{pushed}
use ras_os.Keyboard.{qwerty_keyboard_handle_interrupt, qwerty_keyboard_scancode_to_char}
use ras_os.Syscalls.{
  task_page, paging_switch, task_switch, task_current, Setting, System, SystemCommand, command0_sum,
  command1_print, command2_getkey, command3_putchar, isr80h_command0_sum, isr80h_command1_print,
  isr80h_command2_getkey, isr80h_command3_putchar, keyboards, run_command,
}
use ras_os.Base.{
  sym, Option, ◌⊎◌, bit_and, none, ◌≢◌, refl, some, ne→==, ◌<◌, eq→==, ◌==◌, ◌≡◌, ◌∙◌, Bool-cases,
  ℕ_discrete, ℕ, Option-cases, length-set, length, arith, inr, inl,
}

-- The places of the ring are in its buffer.
pub record IsRing (b : KeyboardBuffer) : Type 0 where
  pub sized : length b.buffer ≡ buffer_size
  pub head_in : b.head < buffer_size
  pub tail_in : b.tail < buffer_size

abbrev pub AreRings : (ℕ → KeyboardBuffer) → Type 0
AreRings of_process = (p : ℕ) → IsRing (of_process p)

push_char-IsRing : (b : KeyboardBuffer) (c : ℕ) → IsRing b → IsRing (push_char b c)
unfolding push_char
push_char-IsRing b c r = record {
  sized = length-set b.buffer b.tail c ∙ r.sized;
  head_in = r.head_in;
  tail_in = ground arith;
}

pop_char-IsRing : (b : KeyboardBuffer) → IsRing b → IsRing (pop_char b).1
unfolding pop_char
pop_char-IsRing b r = record {
  sized = length-set b.buffer b.head 0 ∙ r.sized;
  head_in = ground arith;
  tail_in = r.tail_in;
}

with_buffer-AreRings :
    (ks : Keyboards) (process : ℕ) (b : KeyboardBuffer)
    → AreRings ks.of_process
    → IsRing b
    → AreRings (with_buffer ks process b).of_process
with_buffer-AreRings ks process b all r p = elim (ℕ_discrete p process) [
  | yes e ↦ rw (eq→== p process e) r
  | no ne ↦ rw (ne→== p process ne) (all p)
]

keyboard_push-AreRings :
    (ks : Keyboards) (c : ℕ) → AreRings ks.of_process → AreRings (keyboard_push ks c).of_process
unfolding keyboard_push
keyboard_push-AreRings ks c all = elim (Option-cases ks.process_current) [
  | inl z ↦ rw (z, keyboard_push) all
  | inr (p, q) ↦ elim (Bool-cases (c == 0)) [
    | inl zero_char ↦ rw (q, zero_char, keyboard_push) all
    | inr some_char ↦
        rw (q, some_char, keyboard_push)
          (with_buffer-AreRings ks p (push_char (ks.of_process p) c) all
            (push_char-IsRing (ks.of_process p) c (all p)))
  ]
]

keyboard_pop-AreRings :
    (ks : Keyboards) → AreRings ks.of_process → AreRings (keyboard_pop ks).1.of_process
unfolding keyboard_pop
keyboard_pop-AreRings ks all = elim (Option-cases ks.task_process) [
  | inl z ↦ rw (z, keyboard_pop) all
  | inr (p, q) ↦
      rw (q, keyboard_pop)
        (with_buffer-AreRings ks p (pop_char (ks.of_process p)).1 all
          (pop_char-IsRing (ks.of_process p) (all p)))
]

pub run_command-AreRings :
    (k : Setting) (s : System) (c : SystemCommand)
    → AreRings s.of_process
    → AreRings (run_command k s c).1.of_process
unfolding run_command isr80h_command0_sum isr80h_command1_print isr80h_command2_getkey
    isr80h_command3_putchar
run_command-AreRings k s command0_sum all = all
run_command-AreRings k s command1_print all = all
run_command-AreRings k s command2_getkey all = keyboard_pop-AreRings (keyboards s) all
run_command-AreRings k s command3_putchar all = all

-- The scan code is not in the table, nothing is pushed, or a character is.
handle_interrupt-cases :
    (ks : Keyboards) (scancode : ℕ)
    → (qwerty_keyboard_handle_interrupt ks scancode ≡ none)
      ⊎ (qwerty_keyboard_handle_interrupt ks scancode ≡ some ks)
      ⊎ ((c : ℕ) × (qwerty_keyboard_handle_interrupt ks scancode ≡ some (keyboard_push ks c)))
unfolding qwerty_keyboard_handle_interrupt
handle_interrupt-cases ks scancode = elim (Bool-cases (bit_and scancode 0x80 == 0)) [
  | inl down ↦ elim (Option-cases (qwerty_keyboard_scancode_to_char scancode)) [
    | inl z ↦ inl (rw (down, z, qwerty_keyboard_handle_interrupt) refl)
    | inr (c, q) ↦ elim (Bool-cases (c == 0)) [
      | inl zero_char ↦ inr (inl (rw (down, q, zero_char, qwerty_keyboard_handle_interrupt) refl))
      | inr some_char ↦
          inr (inr (c, rw (down, q, some_char, qwerty_keyboard_handle_interrupt) refl))
    ]
  ]
  | inr up ↦ inr (inl (rw (up, qwerty_keyboard_handle_interrupt) refl))
]

pub pushed-AreRings :
    (behind scancode : ℕ) (s : System)
    → AreRings s.of_process
    → AreRings (pushed behind scancode s).of_process
unfolding pushed
pushed-AreRings behind scancode s all = elim (handle_interrupt-cases (keyboards s) scancode) [
  | inl z ↦ elim (Bool-cases (behind == 0)) [
    | inl zero_char ↦ rw (z, zero_char, pushed) all
    | inr some_char ↦ rw (z, some_char, pushed) (keyboard_push-AreRings (keyboards s) behind all)
  ]
  | inr (inl q) ↦ rw (q, pushed) all
  | inr (inr (c, q)) ↦ rw (q, pushed) (keyboard_push-AreRings (keyboards s) c all)
]

pub pushed-tasks : (behind scancode : ℕ) (s : System) → (pushed behind scancode s).tasks ≡ s.tasks
unfolding pushed
pushed-tasks behind scancode s =
    elim (Option-cases (qwerty_keyboard_handle_interrupt (keyboards s) scancode)) [
      | inl z ↦ elim (Bool-cases (behind == 0)) [
        | inl zero_char ↦ rw (z, zero_char, pushed) refl
        | inr some_char ↦ rw (z, some_char, pushed) refl
      ]
      | inr (ks, q) ↦ rw (q, pushed) refl
    ]

-- A task runs: its page tables are in force.
pub record IsRunning (s : System) : Type 0 where
  pub some_task : s.tasks.current_task ≢ 0
  pub own_pages : s.machine.current_directory ≡ (task_current s).page_directory
  pub rings : AreRings s.of_process

-- The same task, with the same page tables.
pub record IsSameTask (s s' : System) : Type 0 where
  pub same_task : s'.tasks.current_task ≡ s.tasks.current_task
  pub same_pages : (task_current s').page_directory ≡ (task_current s).page_directory

pub IsSameTask-trans : {s1 s2 s3 : System} → IsSameTask s1 s2 → IsSameTask s2 s3 → IsSameTask s1 s3
IsSameTask-trans f g = record {
  same_task = g.same_task ∙ f.same_task;
  same_pages = g.same_pages ∙ f.same_pages;
}

-- A state whose task goes on: what task_page does to it, and what it keeps of `s`.
pub record IsServed (s : System) (o : Option System) : Type 0 where
  pub end_state : System
  pub served : o ≡ some end_state
  pub runs : IsRunning end_state
  pub same : IsSameTask s end_state

module _ (s s' : System) (r : IsRunning s) (all : AreRings s'.of_process)
    (same : IsSameTask s s') where
  still_task : s'.tasks.current_task ≢ 0
  still_task e = r.some_task (sym same.same_task ∙ e)

  -- If the rings and the current task's page directory are kept, the task runs again end_state task_page.
  pub left-IsServed : IsServed s (some (left s'))
  unfolding task_switch paging_switch
  left-IsServed = record {
    end_state = left s';
    served = refl;
    runs = record { some_task = still_task; own_pages = refl; rings = all };
    same = record { same_task = same.same_task; same_pages = same.same_pages };
  }

  pub task_page-IsServed : IsServed s (task_page s')
  task_page-IsServed = rw (task_page_lem s' still_task) left-IsServed
