-- ===== src/Task/Remove.antt =====
-- What task_list_remove of src/task/task.c does to the list.
use ras_os.Task.{Task, Tasks, task_list_remove, write_task}
use ras_os.Task.Chain.{IsChain}
use ras_os.Base.{
  sym, ap, ne→==, ◌∙◌, eq→==, ◌≢◌, ◌+◌, ℕ_discrete, ◌≡◌, get_or, length, ◌<◌, ℕ, List, arith, refl,
  suc,
}

-- The store when the task before is linked to the one behind.
abbrev unlinked : Tasks → (p next : ℕ) → ℕ → Task
unlinked s p next = write_task s.task_at p (record (s.task_at p) { next = next })

unlinked_lem :
    (s : Tasks) (a p n : ℕ)
    → (s.task_at a).prev ≡ p
    → (s.task_at a).next ≡ n
    → p ≢ 0
    → ((task_list_remove s a).task_at ≡ unlinked s p n)
      × ((task_list_remove s a).task_head ≡ s.task_head)
unfolding task_list_remove
unlinked_lem s a p n before behind np = elim (ℕ_discrete a s.current_task) [
  | yes e ↦
      rw (before, behind, ne→== p 0 np, eq→== a s.current_task e, task_list_remove) (refl, refl)
  | no ne ↦
      rw (before, behind, ne→== p 0 np, ne→== a s.current_task ne, task_list_remove) (refl, refl)
]

module _ (s : Tasks) (xs : List ℕ) (c : IsChain s xs) where
  -- In a chain of tasks, removing one behind the first links the task before it to the one behind it,
  -- changes no other task, nor the head, and no link back: that of the task behind still leads to the task
  -- that was removed.
  pub task_list_remove_lem :
      (i : ℕ)
      → suc i < length xs
      → let s' = task_list_remove s (get_or xs (suc i) 0) in
        (s'.task_head ≡ s.task_head)
        × ((s'.task_at (get_or xs i 0)).next ≡ get_or xs (i + 2) 0)
        × ((b : ℕ) → b ≢ get_or xs i 0 → s'.task_at b ≡ s.task_at b)
        × ((b : ℕ) → (s'.task_at b).prev ≡ (s.task_at b).prev)
  task_list_remove_lem i h =
      let a = get_or xs (suc i) 0 in
      let p = get_or xs i 0 in
      let n = get_or xs (i + 2) 0 in
      let before : (s.task_at a).prev ≡ p =
        c.prevs (suc i) h
        ∙ rw (ne→== (suc i) 0 (λ e. absurd (omega arith)))
            (ap (λ k. get_or xs k 0) (omega arith)) in
      let behind : (s.task_at a).next ≡ n =
        c.nexts (suc i) h ∙ ap (λ k. get_or xs k 0) (omega arith) in
      let positive = c.not_null i (omega arith) in
      let (at, head) = unlinked_lem s a p n before behind (λ e. absurd (omega arith)) in
      (
        head,
        ap (λ (f : ℕ → Task). (f p).next) at ∙ rw (eq→== p p refl) refl,
        λ b ne. ap (λ (f : ℕ → Task). f b) at ∙ rw (ne→== b p ne) refl,
        λ b. ap (λ (f : ℕ → Task). (f b).prev) at ∙ (elim (ℕ_discrete b p) [
          | yes e ↦ rw (eq→== b p e) (ap (λ k. (s.task_at k).prev) (sym e))
          | no ne ↦ rw (ne→== b p ne) refl
        ]),
      )
