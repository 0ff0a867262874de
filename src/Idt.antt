-- ===== src/Idt.antt =====
-- src/idt/idt.c: the gates of the interrupt descriptor table, and the tables of callbacks and of
-- system commands. A null function pointer is `none`; a panic, which does not return, is `none` too.
pub mod Gates
pub mod Dispatch
mod Examples
use ras_os.Base.{
  get_or, einvarg, leb, ◌^◌, ◌/◌, Result, if◌then◌else◌, bit_and, set, ◌+◌, Option, replicate, List,
  ℕ, err, ok, some, none, suc, zero,
}
use ras_os.Base.Int.{ℤ, pos, negsuc}

abbrev pub total_interrupts : ℕ
total_interrupts = 512

abbrev pub max_isr80h_commands : ℕ
max_isr80h_commands = 1024

abbrev pub kernel_code_selector : ℕ
kernel_code_selector = 0x08

pub record IdtDesc : Type 0 where
  pub offset_1 : ℕ
  pub selector : ℕ
  pub zero_byte : ℕ
  pub type_attributes : ℕ
  pub offset_2 : ℕ

abbrev pub blank_desc : IdtDesc
blank_desc = record { offset_1 = 0; selector = 0; zero_byte = 0; type_attributes = 0; offset_2 = 0 }

pub gate : ℕ → IdtDesc
gate address = record {
  offset_1 = bit_and address 0x0000FFFF;
  selector = kernel_code_selector;
  zero_byte = 0x00;
  type_attributes = 0xEE;
  offset_2 = address / 2 ^ 16;
}

pub idt_set : List IdtDesc → ℕ → ℕ → List IdtDesc
unfolding gate
idt_set descs interrupt_number address = set descs interrupt_number (gate address)

-- The loop of idt_init from interrupt `i` on.
idt_set_from : (rounds i : ℕ) → (ℕ → ℕ) → List IdtDesc → List IdtDesc
unfolding idt_set
idt_set_from zero i interrupt_pointer_table descs = descs
idt_set_from (suc rounds) i interrupt_pointer_table descs =
    idt_set_from rounds (i + 1) interrupt_pointer_table
      (idt_set descs i (interrupt_pointer_table i))

-- The addresses of the handlers of idt.asm are given.
pub idt_init : (interrupt_pointer_table : ℕ → ℕ) → (idt_zero isr80h_wrapper : ℕ) → List IdtDesc
idt_init interrupt_pointer_table idt_zero isr80h_wrapper =
    idt_set
      (idt_set
        (idt_set_from total_interrupts 0 interrupt_pointer_table
          (replicate total_interrupts blank_desc))
        0 idt_zero)
      0x80 isr80h_wrapper

-- `F` is the type of the functions that are registered.
module _ {F : Type 0} where
  -- `none` is the panic.
  unfoldable pub isr80h_register_command : List (Option F) → ℤ → F → Option (List (Option F))
  isr80h_register_command commands (negsuc n) command = none
  isr80h_register_command commands (pos id) command =
      if leb max_isr80h_commands id then none else elim (get_or commands id none) [
        | some taken ↦ none
        | none ↦ some (set commands id (some command))
      ]

  -- The function that isr80h_handle_command calls; without one it returns 0.
  unfoldable pub isr80h_find_command : List (Option F) → ℤ → Option F
  isr80h_find_command commands (negsuc n) = none
  isr80h_find_command commands (pos id) =
      if leb max_isr80h_commands id then none else get_or commands id none

  unfoldable pub isr80h_handle_command : {R : Type 0} → List (Option F) → ℤ → (F → R) → R → R
  unfolding isr80h_find_command
  isr80h_handle_command commands command call null = elim (isr80h_find_command commands command) [
    | none ↦ null
    | some command_func ↦ call command_func
  ]

  unfoldable pub idt_register_interrupt_callback :
      List (Option F) → ℤ → F → Result (List (Option F))
  idt_register_interrupt_callback callbacks (negsuc n) callback = err einvarg
  idt_register_interrupt_callback callbacks (pos interrupt) callback =
      if leb total_interrupts interrupt
      then err einvarg
      else ok (set callbacks interrupt (some callback))
