-- ===== src/FileTable/Open.antt =====
-- fopen and fclose of src/fs/file.c.
use ras_os.Base.{
  sym, ◌≤◌, ◌∙◌, subst, ◌<◌, ◌≡◌, ℕ, Option, List, Result, ok, err, none, some, get_or, set,
  set-set, set-get_or, length, ap, ◌-◌, arith,
}
use ras_os.Base.Int.{pos}
use ras_os.FileTable.{
  Filesystem, max_filedescriptors, fclose, file_new_descriptor, file_get_descriptor,
  file_free_descriptor,
}
use ras_os.FileTable.Slots.{
  IsFileTable, NewDescriptor, opened, no_slot, file_new_descriptor-NewDescriptor,
}

abbrev result_or : {A : Type 0} → A → Result A → A
result_or a (ok b) = b
result_or a (err e) = a

-- What giving out a descriptor with an index below 512 has done: the slot was free and holds the data,
-- under the number.
pub record IsNew {D : Type 0} (table : List (Option D)) (d : D) (fd : ℕ) (table' : List (Option D))
    : Type 0 where
  pub positive : 1 ≤ fd
  pub was_free : get_or table (fd - 1) none ≡ none
  pub stored : table' ≡ set table (fd - 1) (some d)
  pub finds : file_get_descriptor table' (pos fd) ≡ some d

pub file_new_descriptor-IsNew :
    {D : Type 0} (table table' : List (Option D)) (d : D) (fd : ℕ)
    → IsFileTable table
    → file_new_descriptor table d ≡ ok (fd, table')
    → fd < max_filedescriptors
    → IsNew table d fd table'
file_new_descriptor-IsNew {D} table table' d fd full e small =
    go _ (file_new_descriptor-NewDescriptor table d full) e small
  where
    go :
        (r : Result (ℕ × List (Option D)))
        → NewDescriptor table d r
        → r ≡ ok (fd, table')
        → fd < max_filedescriptors
        → IsNew table d fd table'
    go _ (opened k t lo hi free before is get) q =
        subst (λ r. r.0 < max_filedescriptors → IsNew table d r.0 r.1) (ap (result_or (k, t)) q)
          (λ h. record {
            positive = lo;
            was_free = free;
            stored = is;
            finds = get k ∙ ground arith;
          })
    go _ (no_slot all) q = ground arith

module _ {D : Type 0} (fs : Filesystem D) where
  fclose-set :
      (table : List (Option D)) (d : D) (fd : ℕ)
      → get_or table (fd - 1) none ≡ none
      → fd - 1 < length table
      → file_get_descriptor (set table (fd - 1) (some d)) (pos fd) ≡ some d
      → fs.fs_close d ≡ ok tt
      → fclose fs (set table (fd - 1) (some d)) (pos fd) ≡ (ok tt, table)
  unfolding fclose file_free_descriptor
  fclose-set table d fd free h found closed =
      let back = set-set table (fd - 1) (some d) none in
      let same = set-get_or table (fd - 1) none none free h in
      rw (found, closed, back, same, fclose, file_free_descriptor)

  -- Closing a descriptor with an index below 512 that has just been given out finds it and gives the
  -- slot back: the table is as before, if the file system closes the file.
  pub fclose-file_new_descriptor :
      (table table' : List (Option D)) (d : D) (fd : ℕ)
      → IsFileTable table
      → file_new_descriptor table d ≡ ok (fd, table')
      → fd < max_filedescriptors
      → fs.fs_close d ≡ ok tt
      → fclose fs table' (pos fd) ≡ (ok tt, table)
  fclose-file_new_descriptor table table' d fd full e small closed =
      let n = file_new_descriptor-IsNew table table' d fd full e small in
      let lo = n.positive in
      rw n.stored
        (fclose-set table d fd n.was_free (omega arith) (rw (sym n.stored) n.finds) closed)
