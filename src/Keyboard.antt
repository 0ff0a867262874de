-- ===== src/Keyboard.antt =====
-- src/keyboard/keyboard.c and the keys of src/keyboard/qwerty.c: the ring of characters that each
-- process has (struct keyboard_buffer of src/task/process.h). The buffers are a function from the
-- process; `none` stands for a null process or task. A character is a byte.
use ras_os.Base.{
  get_elem?, length, bit_and, ◌+◌, ◌-◌, ltb, set, get_or, leb, ◌∷◌, Option, ◌==◌, if◌then◌else◌,
  List, ℕ, [], some, none,
}
pub mod Ring
pub mod Keys
pub mod Drivers
mod Examples

abbrev pub buffer_size : ℕ
buffer_size = 1024

pub record KeyboardBuffer : Type 0 where
  pub buffer : List ℕ
  pub tail : ℕ
  pub head : ℕ

-- The process in the foreground, and the process of the current task.
pub record Keyboards : Type 0 where
  pub of_process : ℕ → KeyboardBuffer
  pub process_current : Option ℕ
  pub task_process : Option ℕ

abbrev pub advance : ℕ → ℕ
advance i = if leb buffer_size (i + 1) then 0 else i + 1

unfoldable pub push_char : KeyboardBuffer → ℕ → KeyboardBuffer
push_char k c = record k { buffer = set k.buffer k.tail c; tail = advance k.tail }

unfoldable pub pop_char : KeyboardBuffer → ℕ × KeyboardBuffer
pop_char k =
    (get_or k.buffer k.head 0, record k { buffer = set k.buffer k.head 0; head = advance k.head })

-- At place 0 the tail would be negative, and is set back to 0.
unfoldable pub keyboard_backspace : KeyboardBuffer → KeyboardBuffer
keyboard_backspace k =
    let tail' = if k.tail == 0 then 0 else k.tail - 1 in
    record k { buffer = set k.buffer tail' 0; tail = tail' }

abbrev pub with_buffer : Keyboards → ℕ → KeyboardBuffer → Keyboards
with_buffer s process k = record s { of_process = λ p. if p == process then k else s.of_process p }

unfoldable pub keyboard_push : Keyboards → ℕ → Keyboards
keyboard_push s c = elim s.process_current [
  | none ↦ s
  | some process ↦ if c == 0 then s else with_buffer s process (push_char (s.of_process process) c)
]

unfoldable pub keyboard_pop : Keyboards → ℕ × Keyboards
keyboard_pop s = elim s.task_process [
  | none ↦ (0, s)
  | some process ↦ let (ch, k) = pop_char (s.of_process process) in (ch, with_buffer s process k)
]

-- The first scan code set, the constant of qwerty.c.
abbrev pub keyboard_scan_set_one : List ℕ
keyboard_scan_set_one =
    0x00 ∷ 0x1B ∷ b'1' ∷ b'2' ∷ b'3' ∷ b'4' ∷ b'5' ∷ b'6' ∷ b'7' ∷ b'8' ∷ b'9' ∷ b'0' ∷ b'-' ∷ b'='
    ∷ 0x08 ∷ 0x09 ∷ b'Q' ∷ b'W' ∷ b'E' ∷ b'R' ∷ b'T' ∷ b'Y' ∷ b'U' ∷ b'I' ∷ b'O' ∷ b'P' ∷ b'['
    ∷ b']' ∷ 0x0d ∷ 0x00 ∷ b'A' ∷ b'S' ∷ b'D' ∷ b'F' ∷ b'G' ∷ b'H' ∷ b'J' ∷ b'K' ∷ b'L' ∷ b';'
    ∷ 0x27 ∷ b'`' ∷ 0x00 ∷ 0x5C ∷ b'Z' ∷ b'X' ∷ b'C' ∷ b'V' ∷ b'B' ∷ b'N' ∷ b'M' ∷ b',' ∷ b'.'
    ∷ b'/' ∷ 0x00 ∷ b'*' ∷ 0x00 ∷ 0x20 ∷ 0x00 ∷ 0x00 ∷ 0x00 ∷ 0x00 ∷ 0x00 ∷ 0x00 ∷ 0x00 ∷ 0x00
    ∷ 0x00 ∷ 0x00 ∷ 0x00 ∷ b'7' ∷ b'8' ∷ b'9' ∷ b'-' ∷ b'4' ∷ b'5' ∷ b'6' ∷ b'+' ∷ b'1' ∷ b'2'
    ∷ b'3' ∷ b'0' ∷ b'.' ∷ []

-- `none` is a read behind the end of the table.
unfoldable pub qwerty_keyboard_scancode_to_char : ℕ → Option ℕ
qwerty_keyboard_scancode_to_char scancode =
    if ltb (length keyboard_scan_set_one) scancode
    then some 0
    else get_elem? keyboard_scan_set_one scancode

-- The handler, with the scan code that the port gives; the switches of the page tables around it are
-- those of the task module.
unfoldable pub qwerty_keyboard_handle_interrupt : Keyboards → ℕ → Option Keyboards
qwerty_keyboard_handle_interrupt s scancode =
    if bit_and scancode 0x80 == 0
    then elim (qwerty_keyboard_scancode_to_char scancode) [
      | none ↦ none
      | some c ↦ some (if c == 0 then s else keyboard_push s c)
    ]
    else some s
