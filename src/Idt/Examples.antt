-- ===== src/Idt/Examples.antt =====
-- src/idt/idt.c at concrete handlers.
use ras_os.Idt.{pos, gate, isr80h_register_command}
use ras_os.Idt.Gates.{address_of}
use ras_os.Base.{set, ◌≡◌, replicate, ℕ, Option, List, refl, some, none}

gate_of_wrapper : address_of (gate 0x00101234) ≡ 0x00101234
unfolding address_of gate
gate_of_wrapper = refl

abbrev no_commands : List (Option ℕ)
no_commands = replicate 1024 none

registered : isr80h_register_command no_commands (pos 0) 7 ≡ some (set no_commands 0 (some 7))
unfolding isr80h_register_command
registered = refl
