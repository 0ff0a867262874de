-- ===== src/Process/Invariant.antt =====
-- The slots of src/task/process.c stay in order.
use ras_os.FileTable.{Filesystem}
use ras_os.Process.{Allocations, Process, Processes, process_load}
use ras_os.Process.Slots.{Loaded, fails, faults, loads, process_load-Loaded}
use ras_os.Base.{
  get_or-set_ne, get_or-set_self, ℕ_discrete, sym, length-set, subst, ◌∙◌, Result, ap, Option, List,
  set, ◌≢◌, get_or, ◌≡◌, ◌<◌, length, ℕ, arith, some, none,
}

-- There are 12 slots, and each process in one has its number.
abbrev pub AreProcesses : {D : Type 0} → Processes D → Type 0
AreProcesses s =
    (length s.processes ≡ 12)
    × ((i : ℕ)
        → i < 12
        → get_or s.processes i 0 ≢ 0
        → (s.process_at (get_or s.processes i 0)).id ≡ i)

module _ {D : Type 0} (a : Allocations) (s : Processes D) (well : AreProcesses s)
    (fresh : (i : ℕ) → i < 12 → get_or s.processes i 0 ≢ a.process_data) where
  -- A new process in a slot.
  loaded-AreProcesses :
      (s' : Processes D) (slot : ℕ)
      → slot < 12
      → s'.processes ≡ set s.processes slot a.process_data
      → (s'.process_at a.process_data).id ≡ slot
      → ((b : ℕ) → b ≢ a.process_data → s'.process_at b ≡ s.process_at b)
      → AreProcesses s'
  loaded-AreProcesses s' slot small same number kept = (
    ap length same ∙ length-set s.processes slot a.process_data ∙ well.0,
    λ i h.
        subst (λ ps. get_or ps i 0 ≢ 0 → (s'.process_at (get_or ps i 0)).id ≡ i) (sym same)
          (elim (ℕ_discrete slot i) [
            | yes e ↦
                rw
                  (sym e, get_or-set_self s.processes slot a.process_data 0 (omega (arith, well.0)))
                  (λ z. number)
            | no ne ↦
                rw (get_or-set_ne s.processes slot i a.process_data 0 ne)
                  (λ z. ap (λ (p : Process). p.id) (kept _ (fresh i h)) ∙ well.1 i h z)
          ]),
  )

  abbrev AfterIsWell : Option (Result ℕ × Processes D) → Type 0
  AfterIsWell none = Unit {0}
  AfterIsWell (some (r, s')) = AreProcesses s'

  after-Loaded : (o : Option (Result ℕ × Processes D)) → Loaded a s o → AfterIsWell o
  after-Loaded _ faults = tt
  after-Loaded _ (fails e t same at) = (ap length same ∙ well.0, λ i h. rw (same, at) (well.1 i h))
  after-Loaded _ (loads slot t free same number task stack entry starts new kept) =
      loaded-AreProcesses t slot free.1 same number kept

  -- process_load keeps the slots in order, whatever its result, if the new process stands where none of
  -- the others does.
  pub process_load-AreProcesses :
      (fs : Filesystem D) (filename : List ℕ) (r : Result ℕ) (s' : Processes D)
      → process_load fs a s filename ≡ some (r, s')
      → AreProcesses s'
  process_load-AreProcesses fs filename r s' e =
      subst AfterIsWell e (after-Loaded _ (process_load-Loaded a s filename fs))
