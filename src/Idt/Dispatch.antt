-- ===== src/Idt/Dispatch.antt =====
-- Registering and finding handlers (src/idt/idt.c).
use ras_os.Base.{
  Option-cases, inr, inl, get_or-set_ne, get_or-set_self, ◌⊎◌, ℕ_discrete, set, ◌≤◌, ◌==◌,
  if◌then◌else◌, ◌<◌, ◌↔◌, get_or, ◌≡◌, ℕ, length, Option, List, arith, some, none,
}
use ras_os.Base.Int.{pos}
use ras_os.Idt.{isr80h_register_command, isr80h_find_command, max_isr80h_commands}

-- The table has a place for each command.
abbrev pub IsTable : {F : Type 0} → List (Option F) → Type 0
IsTable commands = length commands ≡ max_isr80h_commands

-- A number that is registered: in range, and with a function at its place.
abbrev pub IsTaken : {F : Type 0} → List (Option F) → ℕ → Type 0
IsTaken {F} commands id = (taken : F) × (get_or commands id none ≡ some taken)

-- Registering panics exactly for a number out of range and for one that is taken.
pub register-none :
    {F : Type 0} (commands : List (Option F)) (id : ℕ) (command : F)
    → (isr80h_register_command commands (pos id) command ≡ none)
      ↔ ((max_isr80h_commands ≤ id) ⊎ IsTaken commands id)
unfolding isr80h_register_command
register-none commands id command = (
  λ e. elim (Option-cases (get_or commands id none)) [
    | inl free ↦ inl (ground arith)
    | inr taken ↦ inr taken
  ],
  λ h. ground arith,
)

-- What registering leaves: only the place of the command is changed.
register_lem :
    {F : Type 0} (commands : List (Option F)) (id : ℕ) (command : F) (commands' : List (Option F))
    → isr80h_register_command commands (pos id) command ≡ some commands'
    → (id < max_isr80h_commands) × (commands' ≡ set commands id (some command))
unfolding isr80h_register_command
register_lem commands id command commands' e = ground arith

-- Once a command is registered in a table, its number finds it, and every other number finds what it
-- found before.
pub find-register :
    {F : Type 0} (commands : List (Option F)) (id j : ℕ) (command : F) (commands' : List (Option F))
    → IsTable commands
    → isr80h_register_command commands (pos id) command ≡ some commands'
    → isr80h_find_command commands' (pos j)
      ≡ (if j == id then some command else isr80h_find_command commands (pos j))
unfolding isr80h_find_command
find-register commands id j command commands' full e =
    let (small, is) = register_lem commands id command commands' e in
    rw is (elim (ℕ_discrete j id) [
      | yes same ↦ rw same (ground (arith, get_or-set_self commands id (some command) none))
      | no ne ↦ ground (arith, get_or-set_ne commands id j (some command) none)
    ])
