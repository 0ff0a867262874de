-- ===== src/Process/Slots.antt =====
-- Which processes there are (src/task/process.c).
use ras_os.Task.{task_new, task_init}
use ras_os.Paging.{paging_new_4gb}
use ras_os.FileTable.{Filesystem}
use ras_os.Process.{
  entry_of_program, pos, zero_process, process_load_data, new_task, Ram, process_get, Allocations,
  Process, Processes, free_from, map_stack, place_process, placed, process_get_free_slot,
  process_load, process_load_for_slot, process_map_memory,
}
use ras_os.Base.{
  replicate, enomem, ◌⊎◌, ap, Option-cases, inr, inl, ne→==, eq→==, subst, ℕ_discrete, eistkn, ◌≢◌,
  ◌<◌, set, ◌≤◌, get_or, Result, ◌≡◌, ◌+◌, ℕ, List, Option, arith, refl, err, some, none, suc, zero,
  ok,
}

-- The lowest slot that is free, or the code for none.
abbrev pub IsFreeSlot : List ℕ → (from to : ℕ) → Result ℕ → Type 0
IsFreeSlot processes from to (ok i) =
    (from ≤ i)
    × (i < to)
    × (get_or processes i 0 ≡ 0)
    × ((j : ℕ) → from ≤ j → j < i → get_or processes j 0 ≢ 0)
IsFreeSlot processes from to (err e) =
    (e ≡ eistkn) × ((j : ℕ) → from ≤ j → j < to → get_or processes j 0 ≢ 0)

free_from-IsFreeSlot :
    (rounds i : ℕ) (processes : List ℕ)
    → IsFreeSlot processes i (i + rounds) (free_from rounds i processes)
unfolding free_from
free_from-IsFreeSlot zero i processes = (refl, λ j lo hi. absurd (omega arith))
free_from-IsFreeSlot (suc rounds) i processes = elim (ℕ_discrete (get_or processes i 0) 0) [
  | yes e ↦
      rw (eq→== (get_or processes i 0) 0 e, free_from)
        (omega arith, omega arith, e, λ j lo hi. absurd (omega arith))
  | no ne ↦
      rw (ne→== (get_or processes i 0) 0 ne, free_from)
        (later _ ne (free_from-IsFreeSlot rounds (i + 1) processes))
]
  where
    later :
        (r : Result ℕ)
        → get_or processes i 0 ≢ 0
        → IsFreeSlot processes (i + 1) (i + 1 + rounds) r
        → IsFreeSlot processes i (i + suc rounds) r
    later (ok k) ne (lo, hi, free, before) = (
      omega arith,
      omega arith,
      free,
      λ j l h. elim (ℕ_discrete i j) [
        | yes e ↦ subst (λ n. get_or processes n 0 ≢ 0) e ne
        | no q ↦ before j (omega arith) h
      ],
    )
    later (err e) ne (code, all) = (
      code,
      λ j l h. elim (ℕ_discrete i j) [
        | yes q ↦ subst (λ n. get_or processes n 0 ≢ 0) q ne
        | no q ↦ all j (omega arith) (omega arith)
      ],
    )

-- process_get_free_slot gives the lowest of the 12 slots that is free, and EISTKN only if none is.
pub process_get_free_slot-IsFreeSlot :
    (processes : List ℕ) → IsFreeSlot processes 0 12 (process_get_free_slot processes)
unfolding process_get_free_slot
process_get_free_slot-IsFreeSlot processes = free_from-IsFreeSlot 12 0 processes

pub process_get-free :
    (processes : List ℕ) (slot : ℕ)
    → process_get_free_slot processes ≡ ok slot
    → process_get processes (pos slot) ≡ 0
unfolding process_get
process_get-free processes slot e =
    let (lo, hi, free, before) =
      subst (IsFreeSlot processes 0 12) e (process_get_free_slot-IsFreeSlot processes) in
    ground arith

-- The first process has slot 0.
pub first_slot : process_get_free_slot (replicate 12 0) ≡ ok 0
unfolding process_get_free_slot free_from
first_slot = refl

-- What a call of process_load leaves: after an error the processes as they were, after a success one
-- more process in the slot that was the lowest free one, with its number, its stack and its task, which
-- is a new one that starts at the entry point of the program.
pub data Loaded {D : Type 0} (a : Allocations) (s : Processes D)
    : Option (Result ℕ × Processes D) → Type 0 where
  faults : Loaded a s none
  fails :
      (e : ℕ) (s' : Processes D)
      → s'.processes ≡ s.processes
      → s'.process_at ≡ s.process_at
      → Loaded a s (some (err e, s'))
  loads :
      (slot : ℕ) (s' : Processes D)
      → IsFreeSlot s.processes 0 12 (ok slot)
      → s'.processes ≡ set s.processes slot a.process_data
      → (s'.process_at a.process_data).id ≡ slot
      → (s'.process_at a.process_data).task ≡ a.task_data
      → (s'.process_at a.process_data).stack ≡ a.program_stack
      → (entry : Option ℕ) → entry_of_program (s'.process_at a.process_data).program ≡ some entry
      → s'.tasks ≡ task_new s.tasks a.task_data (task_init a.process_data entry (a.page 0))
      → ((b : ℕ) → b ≢ a.process_data → s'.process_at b ≡ s.process_at b)
      → Loaded a s (some (ok a.process_data, s'))

outcome_cases :
    {A B : Type 0} (r : Result A × B)
    → ((e : ℕ) × (b : B) × (r ≡ (err e, b))) ⊎ ((x : A) × (b : B) × (r ≡ (ok x, b)))
outcome_cases (err e, b) = inl (e, b, refl)
outcome_cases (ok x, b) = inr (x, b, refl)

module _ {D : Type 0} (a : Allocations) (s : Processes D) (filename : List ℕ) where
  -- What process_load makes of the result of process_load_for_slot.
  abbrev with_stack : Option (Result ℕ × Processes D) → Option (Result ℕ × Processes D)
  with_stack none = none
  with_stack (some (err e, t)) = some (err e, t)
  with_stack (some (ok q, t)) = some (ok q, map_stack t q)

  place_process-Loaded :
      (s' : Processes D) (slot : ℕ) (p : Process) (entry : Option ℕ)
      → s'.processes ≡ s.processes
      → s'.process_at ≡ s.process_at
      → entry_of_program p.program ≡ some entry
      → s'.tasks ≡ task_new s.tasks a.task_data (task_init a.process_data entry (a.page 0))
      → IsFreeSlot s.processes 0 12 (ok slot)
      → Loaded a s (with_stack (place_process a s' filename slot p))
  unfolding place_process map_stack
  place_process-Loaded s' slot p entry same same_at starts new free = elim (Option-cases mapped) [
    | inl z ↦ rw (z, place_process) faults
    | inr ((err e, ram'), q) ↦ rw (q, place_process) (fails e _ same same_at)
    | inr ((ok u, ram'), q) ↦
        let self = eq→== a.process_data a.process_data refl in
        rw (q, place_process)
          (loads slot _ free (ap (λ ps. set ps slot a.process_data) same)
            (rw self (omega (arith, free.1))) (rw self) (rw self) entry (rw self starts) new
            (λ b ne. rw (ne→== b a.process_data ne) (ap (λ at. at b) same_at)))
  ]
    where
      mapped : Option (Result (Unit {0}) × Ram)
      mapped =
          process_map_memory s'.ram (s'.tasks.task_at a.task_data).page_directory
            (placed a filename slot p)

  for_slot-Loaded :
      (fs : Filesystem D) (slot : ℕ)
      → IsFreeSlot s.processes 0 12 (ok slot)
      → Loaded a s (with_stack (process_load_for_slot fs a s filename slot))
  unfolding process_load_for_slot process_get new_task paging_new_4gb
  for_slot-Loaded fs slot free = elim (ℕ_discrete a.process_data 0) [
    | yes z ↦ rw (at_slot, z, process_load_for_slot) (fails enomem s refl refl)
    | no n ↦ elim (outcome_cases loaded) [
      | inl (e, table', q) ↦
          rw (at_slot, ne→== a.process_data 0 n, q, process_load_for_slot) (fails e _ refl refl)
      | inr (p, table', q) ↦ elim (ℕ_discrete a.program_stack 0) [
        | yes z ↦
            rw (at_slot, ne→== a.process_data 0 n, q, z, process_load_for_slot)
              (fails enomem _ refl refl)
        | no k ↦ elim (Option-cases (entry_of_program p.program)) [
          | inl z ↦
              rw
                (
                  at_slot,
                  ne→== a.process_data 0 n,
                  q,
                  ne→== a.program_stack 0 k,
                  z,
                  process_load_for_slot,
                )
                faults
          | inr (entry, z) ↦
              rw
                (
                  at_slot,
                  ne→== a.process_data 0 n,
                  q,
                  ne→== a.program_stack 0 k,
                  z,
                  process_load_for_slot,
                )
                (place_process-Loaded _ slot p entry refl refl z refl free)
        ]
      ]
    ]
  ]
    where
      loaded : Result Process × List (Option D)
      loaded = process_load_data fs a s.table filename zero_process

      at_slot : process_get s.processes (pos slot) ≡ 0
      at_slot = ground arith

  -- Every call of process_load that returns either fails and leaves the processes as they were, or puts
  -- one process into the lowest free slot, with the number of the slot, its stack and a new task at the
  -- entry point of its program.
  pub process_load-Loaded : (fs : Filesystem D) → Loaded a s (process_load fs a s filename)
  unfolding process_load
  process_load-Loaded fs = go _ (process_get_free_slot-IsFreeSlot s.processes) refl
    where
      go :
          (r : Result ℕ)
          → IsFreeSlot s.processes 0 12 r
          → process_get_free_slot s.processes ≡ r
          → Loaded a s (process_load fs a s filename)
      go (err e) none_free q = rw (q, process_load) (fails eistkn s refl refl)
      go (ok slot) free q = rw (q, process_load) (for_slot-Loaded fs slot free)
