-- ===== src/FileTable/Registry.antt =====
-- The file systems that src/fs/file.c knows, and which of them a disk has. What resolve gives for the disk
-- is a parameter: whether its status is 0.
use ras_os.Base.{
  get_or-set_ne, get_or-set_self, subst, ◌∙◌, ap, sym, if◌then◌else◌, ℕ_discrete, Option-cases, ◌<◌,
  get_or, ◌≤◌, set, ◌+◌, ◌≡◌, length, replicate, Option, Bool, List, ℕ, arith, refl, inr, inl, some,
  none, false, true, suc, zero,
}

abbrev pub max_filesystems : ℕ
max_filesystems = 12

module _ {F : Type 0} where
  -- The loop from place `i` on.
  unfoldable pub free_filesystem : (rounds i : ℕ) → List (Option F) → Option ℕ
  free_filesystem zero i filesystems = none
  free_filesystem (suc rounds) i filesystems =
      let rest = free_filesystem rounds (i + 1) filesystems in
      elim (get_or filesystems i none) [ none ↦ some i | some f ↦ rest ]

  unfoldable pub fs_get_free_filesystem : List (Option F) → Option ℕ
  fs_get_free_filesystem filesystems = free_filesystem max_filesystems 0 filesystems

  -- Where no place is free, which is `none`, the code stays in a loop.
  unfoldable pub fs_insert_filesystem : List (Option F) → F → Option (List (Option F))
  fs_insert_filesystem filesystems filesystem = elim (fs_get_free_filesystem filesystems) [
    | none ↦ none
    | some i ↦ some (set filesystems i (some filesystem))
  ]

  -- `fat16` is what fat16_init returns; the descriptors are zeroed too.
  unfoldable pub fs_load : (fat16 : F) → Option (List (Option F))
  fs_load fat16 = fs_insert_filesystem (replicate max_filesystems none) fat16

  -- The loop from place `i` on.
  unfoldable pub resolve_from : (F → Bool) → (rounds i : ℕ) → List (Option F) → Option F
  resolve_from resolves zero i filesystems = none
  resolve_from resolves (suc rounds) i filesystems =
      let rest = resolve_from resolves rounds (i + 1) filesystems in
      elim (get_or filesystems i none) [
        | none ↦ rest
        | some f ↦ if resolves f then some f else rest
      ]

  unfoldable pub fs_resolve : (F → Bool) → List (Option F) → Option F
  fs_resolve resolves filesystems = resolve_from resolves max_filesystems 0 filesystems

  -- What the search gives: a place that is in range and free, or none.
  abbrev IsFreePlace : List (Option F) → (to : ℕ) → Option ℕ → Type 0
  IsFreePlace filesystems to none = Unit {0}
  IsFreePlace filesystems to (some k) = (k < to) × (get_or filesystems k none ≡ none)

  free_filesystem-IsFreePlace :
      (rounds i : ℕ) (filesystems : List (Option F))
      → IsFreePlace filesystems (i + rounds) (free_filesystem rounds i filesystems)
  unfolding free_filesystem
  free_filesystem-IsFreePlace zero i filesystems = tt
  free_filesystem-IsFreePlace (suc rounds) i filesystems =
      elim (Option-cases (get_or filesystems i none)) [
        | inl z ↦ rw (z, free_filesystem) (omega arith, z)
        | inr (f, q) ↦
            rw (q, free_filesystem)
              (subst (λ to. IsFreePlace filesystems to (free_filesystem rounds (i + 1) filesystems))
                {x = i + 1 + rounds} (omega arith)
                (free_filesystem-IsFreePlace rounds (i + 1) filesystems))
      ]

  -- The first file system that resolves the disk is found.
  resolve_from-first :
      (resolves : F → Bool) (rounds i : ℕ) (filesystems : List (Option F)) (k : ℕ) (f : F)
      → i ≤ k
      → k < i + rounds
      → get_or filesystems k none ≡ some f
      → resolves f ≡ true
      → ((j : ℕ) (g : F) → j < k → get_or filesystems j none ≡ some g → resolves g ≡ false)
      → resolve_from resolves rounds i filesystems ≡ some f
  unfolding resolve_from
  resolve_from-first resolves zero i filesystems k f lo hi at yes_f before = absurd (omega arith)
  resolve_from-first resolves (suc rounds) i filesystems k f lo hi at yes_f before =
      elim (ℕ_discrete k i) [
        | yes e ↦ rw (sym (ap (λ n. get_or filesystems n none) e) ∙ at, yes_f, resolve_from) refl
        | no ne ↦
            let ih =
              resolve_from-first resolves rounds (i + 1) filesystems k f (omega arith) (omega arith)
                at yes_f before in
            elim (Option-cases (get_or filesystems i none)) [
              | inl z ↦ rw (z, resolve_from) ih
              | inr (g, q) ↦ rw (q, before i g (omega arith) q, resolve_from) ih
            ]
      ]

  -- A file system that is inserted into the 12 places is the one of a disk that it resolves, if none that
  -- was there before resolves the disk.
  pub fs_resolve-fs_insert_filesystem :
      (resolves : F → Bool) (filesystems filesystems' : List (Option F)) (f : F)
      → length filesystems ≡ max_filesystems
      → fs_insert_filesystem filesystems f ≡ some filesystems'
      → ((j : ℕ) (g : F) → get_or filesystems j none ≡ some g → resolves g ≡ false)
      → resolves f ≡ true
      → fs_resolve resolves filesystems' ≡ some f
  unfolding fs_insert_filesystem fs_get_free_filesystem fs_resolve
  fs_resolve-fs_insert_filesystem resolves filesystems filesystems' f len e others yes_f =
      go (free_filesystem max_filesystems 0 filesystems)
        (free_filesystem-IsFreePlace max_filesystems 0 filesystems) e
    where
      go :
          (o : Option ℕ)
          → IsFreePlace filesystems max_filesystems o
          → elim o [ none ↦ none | some i ↦ some (set filesystems i (some f)) ] ≡ some filesystems'
          → resolve_from resolves max_filesystems 0 filesystems' ≡ some f
      go none free q = ground arith
      go (some k) (small, free) q =
          subst
            (λ (o : Option (List (Option F))). elim o [
              | none ↦ Unit {0}
              | some l ↦ resolve_from resolves 12 0 l ≡ some f
            ])
            q
            (resolve_from-first resolves 12 0 (set filesystems k (some f)) k f (omega arith) small
              (get_or-set_self filesystems k (some f) none (omega arith)) yes_f
              (λ j g lt at. others j g (
                sym (get_or-set_ne filesystems k j (some f) none (λ r. absurd (omega arith)))
                ∙ at)))
