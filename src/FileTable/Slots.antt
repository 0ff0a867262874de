-- ===== src/FileTable/Slots.antt =====
-- Descriptors are given out and found again (src/fs/file.c).
use ras_os.Base.{
  get_or-set_ne, get_or-set_self, ltb, ◌&&◌, ◌==◌, if◌then◌else◌, set, ◌-◌, enomem, ◌≢◌, ℕ_discrete,
  Option-cases, ◌<◌, ◌≤◌, get_or, ◌≡◌, length, ◌+◌, Result, Option, List, ℕ, arith, refl, inr, inl,
  err, ok, some, none, suc, zero,
}
use ras_os.FileTable.{
  new_at, pos, file_get_descriptor, file_new_descriptor, max_filedescriptors, free_slot,
}

-- A table has a slot for each descriptor.
abbrev pub IsFileTable : {D : Type 0} → List (Option D) → Type 0
IsFileTable table = length table ≡ max_filedescriptors

-- What the search for a slot returns: the first that is free, or the code for none.
abbrev pub IsFirstFree : {D : Type 0} → List (Option D) → (from to : ℕ) → Result ℕ → Type 0
IsFirstFree table from to (ok i) =
    (from ≤ i)
    × (i < to)
    × (get_or table i none ≡ none)
    × ((j : ℕ) → from ≤ j → j < i → get_or table j none ≢ none)
IsFirstFree table from to (err e) =
    (e ≡ enomem) × ((j : ℕ) → from ≤ j → j < to → get_or table j none ≢ none)

taken_step :
    {D : Type 0} (table : List (Option D)) (i to : ℕ) (d : D) (r : Result ℕ)
    → get_or table i none ≡ some d
    → IsFirstFree table (i + 1) to r
    → IsFirstFree table i to r
taken_step table i to d (ok k) e (lo, hi, free, before) = (
  omega arith,
  hi,
  free,
  λ j l h. elim (ℕ_discrete i j) [ yes q ↦ λ n. ground arith | no ne ↦ before j (omega arith) h ],
)
taken_step table i to d (err c) e (is, all) = (
  is,
  λ j l h. elim (ℕ_discrete i j) [ yes q ↦ λ n. ground arith | no ne ↦ all j (omega arith) h ],
)

free_slot-IsFirstFree :
    {D : Type 0} (rounds i to : ℕ) (table : List (Option D))
    → i + rounds ≡ to
    → IsFirstFree table i to (free_slot rounds i table)
unfolding free_slot
free_slot-IsFirstFree zero i to table e = (refl, λ j lo hi. absurd (omega arith))
free_slot-IsFirstFree (suc rounds) i to table e =
    let ih = free_slot-IsFirstFree rounds (i + 1) to table (omega arith) in
    elim (Option-cases (get_or table i none)) [
      | inl n ↦
          rw (n, IsFirstFree, free_slot)
            (omega arith, omega arith, n, λ j lo hi. absurd (omega arith))
      | inr (d, q) ↦
          rw (q, IsFirstFree, free_slot)
            (taken_step table i to d (free_slot rounds (i + 1) table) q ih)
    ]

-- A new descriptor has the lowest index that is free, from 1 to 512; its number finds it, unless it
-- is 512, and every other number finds what it found before. There is no memory for it only if no
-- slot is free.
pub data NewDescriptor {D : Type 0} (table : List (Option D)) (d : D)
    : Result (ℕ × List (Option D)) → Type 0 where
  opened :
      (fd : ℕ) (table' : List (Option D))
      → 1 ≤ fd
      → fd ≤ max_filedescriptors
      → get_or table (fd - 1) none ≡ none
      → ((j : ℕ) → j < fd - 1 → get_or table j none ≢ none)
      → table' ≡ set table (fd - 1) (some d)
      → ((n : ℕ)
          → file_get_descriptor table' (pos n)
            ≡ (if (n == fd) && ltb n 512 then some d else file_get_descriptor table (pos n)))
      → NewDescriptor table d (ok (fd, table'))
  no_slot :
      ((j : ℕ) → j < max_filedescriptors → get_or table j none ≢ none)
      → NewDescriptor table d (err enomem)

get_descriptor-set :
    {D : Type 0} (table : List (Option D)) (i n : ℕ) (d : D)
    → i < length table
    → file_get_descriptor (set table i (some d)) (pos n)
      ≡ (if (n == i + 1) && ltb n 512 then some d else file_get_descriptor table (pos n))
unfolding file_get_descriptor
get_descriptor-set table i n d h = elim (ℕ_discrete i (n - 1)) [
  | yes e ↦ ground (arith, get_or-set_self table i (some d) none)
  | no ne ↦ ground (arith, get_or-set_ne table i (n - 1) (some d) none)
]

new_at-NewDescriptor :
    {D : Type 0} (table : List (Option D)) (d : D) (r : Result ℕ)
    → IsFileTable table
    → IsFirstFree table 0 max_filedescriptors r
    → NewDescriptor table d (new_at table d r)
new_at-NewDescriptor table d (ok i) full (lo, hi, free, before) =
    let q : i + 1 - 1 ≡ i = omega arith in
    opened (i + 1) (set table i (some d)) (omega arith) (omega arith) (rw q free)
      (λ j h. before j (omega arith) (omega arith)) (rw q)
      (λ n. get_descriptor-set table i n d (omega arith))
new_at-NewDescriptor table d (err c) full (is, all) = rw is (no_slot (λ j h. all j (omega arith) h))

-- In a table of 512 slots, file_new_descriptor gives out the lowest index that is free, from 1 to 512;
-- its number finds the descriptor, unless it is 512, and every other number finds what it found
-- before. It returns the code for no memory only if no slot is free.
pub file_new_descriptor-NewDescriptor :
    {D : Type 0} (table : List (Option D)) (d : D)
    → IsFileTable table
    → NewDescriptor table d (file_new_descriptor table d)
file_new_descriptor-NewDescriptor table d full =
    let s = free_slot-IsFirstFree max_filedescriptors 0 max_filedescriptors table refl in
    unfold file_new_descriptor in
    new_at-NewDescriptor table d (free_slot max_filedescriptors 0 table) full s
