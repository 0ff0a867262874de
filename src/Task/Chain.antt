-- ===== src/Task/Chain.antt =====
-- The list of src/task/task.c as a chain of tasks.
use ras_os.Base.{
  ◌%◌, Option, ne→==, refl, suc, zero, get_or-end, ap, eq→==, ℕ_discrete, get_or-snoc,
  length-append, ◌∷◌, ◌∙◌, ◌++◌, sym, [], ◌+◌, ◌-◌, ◌==◌, get_or, length, if◌then◌else◌, ◌≢◌, ◌<◌,
  ◌≡◌, ℕ, List, arith,
}
use native.Mathlib.Nat.{mod_self, mod-eq_of_lt}
use ras_os.Task.{task_init, task_get_next, Tasks, Task, task_new}

-- The tasks `xs` are linked in this order, forwards and backwards, between the head and the tail;
-- they are different, and none is null.
pub record IsChain (s : Tasks) (xs : List ℕ) : Type 0 where
  pub not_null : (i : ℕ) → i < length xs → 0 < get_or xs i 0
  pub different : (i j : ℕ) → i < length xs → j < length xs → get_or xs i 0 ≡ get_or xs j 0 → i ≡ j
  pub from_head : s.task_head ≡ get_or xs 0 0
  pub to_tail : 0 < length xs → s.task_tail ≡ get_or xs (length xs - 1) 0
  pub nexts : (i : ℕ) → i < length xs → (s.task_at (get_or xs i 0)).next ≡ get_or xs (i + 1) 0
  pub prevs :
      (i : ℕ)
      → i < length xs
      → (s.task_at (get_or xs i 0)).prev ≡ (if i == 0 then 0 else get_or xs (i - 1) 0)

-- The links behind task_new of a list that is not empty.
module _ (s : Tasks) (a : ℕ) (init : Task) (some_head : s.task_head ≢ 0)
    (other : s.task_tail ≢ a) where
  new_next :
      (b : ℕ)
      → ((task_new s a init).task_at b).next
        ≡ (if b == a then init.next else if b == s.task_tail then a else (s.task_at b).next)
  unfolding task_new
  new_next b = ground arith

  new_prev :
      (b : ℕ)
      → ((task_new s a init).task_at b).prev ≡ (if b == a then s.task_tail else (s.task_at b).prev)
  unfolding task_new
  new_prev b = ground arith

  new_ends : ((task_new s a init).task_head ≡ s.task_head) × ((task_new s a init).task_tail ≡ a)
  unfolding task_new
  new_ends = ground arith

-- The first task is head, tail and current task.
new_first :
    (s : Tasks) (a : ℕ) (init : Task)
    → s.task_head ≡ 0
    → ((task_new s a init).task_head ≡ a)
      × ((task_new s a init).task_tail ≡ a)
      × ((task_new s a init).task_at a ≡ init)
unfolding task_new
new_first s a init z = ground arith

-- The chain behind task_new.
module _ (s : Tasks) (a : ℕ) (init : Task) (xs : List ℕ) (c : IsChain s xs) (positive : 0 < a)
    (fresh : (i : ℕ) → i < length xs → get_or xs i 0 ≢ a)
    (unlinked : (init.next ≡ 0) × (init.prev ≡ 0)) (more : 0 < length xs) where
  abbrev last : ℕ
  last = length xs - 1

  len : length (xs ++ (a ∷ [])) ≡ length xs + 1
  len = length-append xs (a ∷ [])

  head_set : s.task_head ≢ 0
  head_set e = let p = c.not_null 0 more in let h = c.from_head in absurd (omega arith)

  tail_other : s.task_tail ≢ a
  tail_other e = fresh last (omega arith) (sym (c.to_tail more) ∙ e)

  nexts' :
      (i : ℕ)
      → i < length xs + 1
      → ((task_new s a init).task_at (get_or (xs ++ (a ∷ [])) i 0)).next
        ≡ get_or (xs ++ (a ∷ [])) (i + 1) 0
  nexts' i h =
      rw (get_or-snoc xs a i, get_or-snoc xs a (i + 1))
        (elim (ℕ_discrete i (length xs)) [
          | yes e ↦ rw (eq→== i (length xs) e) (
              new_next s a init head_set tail_other a
              ∙ ground (arith, unlinked.0, get_or-end xs (i + 1) 0 (omega arith)))
          | no ne ↦ rw (ne→== i (length xs) ne) (
              new_next s a init head_set tail_other (get_or xs i 0)
              ∙ elim (ℕ_discrete (i + 1) (length xs)) [
                | yes q ↦
                    let at : get_or xs i 0 ≡ s.task_tail =
                      ap (λ k. get_or xs k 0) (omega arith) ∙ sym (c.to_tail more) in
                    ground (arith, fresh i (omega arith))
                | no nq ↦
                    let away : get_or xs i 0 ≢ s.task_tail = λ e. nq (
                      let q = c.different i last (omega arith) (omega arith) (e ∙ c.to_tail more) in
                      omega arith) in
                    ground (arith, fresh i (omega arith), c.nexts i (omega arith))
              ])
        ])

  prevs' :
      (i : ℕ)
      → i < length xs + 1
      → ((task_new s a init).task_at (get_or (xs ++ (a ∷ [])) i 0)).prev
        ≡ (if i == 0 then 0 else get_or (xs ++ (a ∷ [])) (i - 1) 0)
  prevs' i h =
      rw (get_or-snoc xs a i, get_or-snoc xs a (i - 1))
        (elim (ℕ_discrete i (length xs)) [
          | yes e ↦ rw (eq→== i (length xs) e) (
              new_prev s a init head_set tail_other a
              ∙ ground (arith, c.to_tail more, ap (λ k. get_or xs (k - 1) 0) e))
          | no ne ↦ rw (ne→== i (length xs) ne) (
              new_prev s a init head_set tail_other (get_or xs i 0)
              ∙ ground (arith, fresh i (omega arith), c.prevs i (omega arith)))
        ])

  different' :
      (i j : ℕ)
      → i < length xs + 1
      → j < length xs + 1
      → get_or (xs ++ (a ∷ [])) i 0 ≡ get_or (xs ++ (a ∷ [])) j 0
      → i ≡ j
  different' i j hi hj =
      rw (get_or-snoc xs a i, get_or-snoc xs a j)
        (λ e. elim (ℕ_discrete i (length xs)) [
          | yes p ↦ elim (ℕ_discrete j (length xs)) [
            | yes q ↦ p ∙ sym q
            | no nq ↦ ground (arith, fresh j (omega arith))
          ]
          | no np ↦ elim (ℕ_discrete j (length xs)) [
            | yes q ↦ ground (arith, fresh i (omega arith))
            | no nq ↦ c.different i j (omega arith) (omega arith) (ground arith)
          ]
        ])

  chain' : IsChain (task_new s a init) (xs ++ (a ∷ []))
  chain' = record {
    not_null = λ i h. rw (get_or-snoc xs a i) (elim (ℕ_discrete i (length xs)) [
      | yes e ↦ rw (eq→== i (length xs) e) positive
      | no ne ↦ rw (ne→== i (length xs) ne) (c.not_null i (omega (arith, len)))
    ]);
    different = λ i j hi hj. different' i j (omega (arith, len)) (omega (arith, len));
    from_head =
        (new_ends s a init head_set tail_other).0
        ∙ c.from_head
        ∙ sym (get_or-snoc xs a 0 ∙ rw (ne→== 0 (length xs) (omega arith)) refl);
    to_tail = λ h.
        (new_ends s a init head_set tail_other).1
        ∙ sym (
            ap (λ k. get_or (xs ++ (a ∷ [])) k 0) {y = length xs} (omega (arith, len))
            ∙ get_or-snoc xs a (length xs)
            ∙ rw (eq→== (length xs) (length xs) refl) refl);
    nexts = λ i h. nexts' i (omega (arith, len));
    prevs = λ i h. prevs' i (omega (arith, len));
  }

one-IsChain :
    (s : Tasks) (a : ℕ) (init : Task)
    → s.task_head ≡ 0
    → 0 < a
    → (init.next ≡ 0) × (init.prev ≡ 0)
    → IsChain (task_new s a init) (a ∷ [])
one-IsChain s a init z positive unlinked =
    let (h, t, at) = new_first s a init z in
    record {
      not_null = λ i l. rw (one i l) positive;
      different = λ i j hi hj e. omega arith;
      from_head = h;
      to_tail = λ l. t;
      nexts = λ i l. rw (one i l) (
          ap (λ (n : Task). n.next) at
          ∙ unlinked.0
          ∙ sym (get_or-end (a ∷ []) (i + 1) 0 (omega arith)));
      prevs = λ i l.
          rw (one i l)
            (ap (λ (n : Task). n.prev) at ∙ unlinked.1 ∙ rw (eq→== i 0 (omega arith)) refl);
    }
  where
    one : (i : ℕ) → i < 1 → get_or (a ∷ []) i 0 ≡ a
    one zero l = refl
    one (suc i) l = absurd (omega arith)

-- task_new links a task of a new address behind the last: what was a chain is a chain with the task at
-- its end.
pub task_new-IsChain :
    (s : Tasks) (a : ℕ) (xs : List ℕ) (process : ℕ) (elf_entry : Option ℕ) (page_directory : ℕ)
    → IsChain s xs
    → 0 < a
    → ((i : ℕ) → i < length xs → get_or xs i 0 ≢ a)
    → IsChain (task_new s a (task_init process elf_entry page_directory)) (xs ++ (a ∷ []))
unfolding task_init
task_new-IsChain s a [] process elf_entry page_directory c positive fresh =
    one-IsChain s a (task_init process elf_entry page_directory) c.from_head positive (refl, refl)
task_new-IsChain s a (x ∷ xs) process elf_entry page_directory c positive fresh =
    chain' s a (task_init process elf_entry page_directory) (x ∷ xs) c positive fresh (refl, refl)
      (omega arith)

-- The tasks of a chain take turns: if the current task stands at place `i`, the next is the one behind
-- it, and the first if it is the last.
pub task_get_next_lem :
    (s : Tasks) (xs : List ℕ) (i : ℕ)
    → IsChain s xs
    → i < length xs
    → s.current_task ≡ get_or xs i 0
    → task_get_next s ≡ get_or xs ((i + 1) % length xs) 0
unfolding task_get_next
task_get_next_lem s xs i c h e = elim (ℕ_discrete (i + 1) (length xs)) [
  | yes q ↦
      let at : (i + 1) % length xs ≡ 0 = ap (λ n. n % length xs) q ∙ mod_self (length xs) in
      rw (at, e) (ground (arith, c.nexts i h, get_or-end xs (i + 1) 0 (omega arith), c.from_head))
  | no nq ↦
      let at : (i + 1) % length xs ≡ i + 1 = mod-eq_of_lt (omega arith) in
      rw (at, e) (ground (arith, c.nexts i h, c.not_null (i + 1) (omega arith)))
]
