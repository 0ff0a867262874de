-- ===== src/PathParser/Freed.antt =====
-- What src/fs/pparser.c allocates for a path, it frees.
use ras_os.KernelHeap.Blocks.{IsFresh}
use ras_os.PathParser.Print.{parse_parts-some, parse_parts-none, next_part_cases}
use ras_os.PathParser.{
  get_next_path_part, parse_parts, pathparser_parse, root_of, get_drive_from_path, path_max_len,
}
use ras_os.CString.{strlen}
use ras_os.PathParser.Behind.{
  parse_behind_lem, parse_path_part_in-some, parse_path_part_in-none, ended, with_part-IsFresh,
}
use ras_os.PathParser.Nodes.{
  parse_behind, parse_from_drive, pathparser_parse_in, Store, PathPart, update, free_parts,
  pathparser_free,
}
use ras_os.PathParser.Behind.{AreNodes, is_between, IsLinked, with_part}
use ras_os.KernelHeap.Blocks.{allocate, Blocks, free_lem}
use ras_os.PathParser.{PathRoot}
use ras_os.Base.{
  Bool, err, ok, ltb, Result, inr, inl, sym, subst, Option, ap, ◌∙◌, ne→==, ◌==◌, ◌∷◌, eq→==,
  if◌then◌else◌, ◌≡◌, ◌*◌, ◌<◌, length, List, ℕ, arith, [], refl, some, none, false, true, suc,
  zero,
}

-- One round of the loop: the name, and the structure in the block behind it.
free_parts-cons :
    (fuel : ℕ) (parts : ℕ → PathPart) (b b' : Blocks) (k : ℕ)
    → (parts (suc k)).part ≡ k
    → b.live k ≡ true
    → (if suc k == k then false else b.live (suc k)) ≡ true
    → free_parts fuel parts
        (record b { live = λ a. if a == suc k then false else if a == k then false else b.live a })
        (parts (suc k)).next
      ≡ some b'
    → free_parts (suc fuel) parts b (suc k) ≡ some b'
unfolding free_parts
free_parts-cons fuel parts b b' k name first second freed =
    rw
      (
        ne→== (suc k) 0 (λ e. absurd (omega arith)),
        name,
        free_lem b k first,
        free_lem (record b { live = λ a. if a == k then false else b.live a }) (suc k) second,
        free_parts,
      )
      freed

-- The blocks that are live behind the list from `k` on, once it is freed.
free_parts_lem :
    (fuel : ℕ) (parts : ℕ → PathPart) (names : ℕ → List ℕ) (b : Blocks) (k : ℕ) (ps : List (List ℕ))
    (part : ℕ)
    → length ps < fuel
    → AreNodes parts names k ps part
    → ((a : ℕ) → is_between k (2 * length ps) a ≡ true → b.live a ≡ true)
    → (b' : Blocks) × (free_parts fuel parts b part ≡ some b')
      × ((a : ℕ) → b'.live a ≡ (if is_between k (2 * length ps) a then false else b.live a))
unfolding free_parts
free_parts_lem zero parts names b k ps part h nodes live = absurd (omega arith)
free_parts_lem (suc fuel) parts names b k [] part h nodes live =
    (b, rw (eq→== part 0 nodes, free_parts) refl, λ a. ground arith)
free_parts_lem (suc fuel) parts names b k (p ∷ ps) part h (at, name, same, nodes) live =
    let b1 : Blocks = record b { live = λ a. if a == k then false else b.live a } in
    let b2 : Blocks = record b1 { live = λ a. if a == suc k then false else b1.live a } in
    let (b', freed, left) =
      free_parts_lem fuel parts names b2 (suc (suc k)) ps (parts (suc k)).next (omega arith) nodes
        (λ a is. ground (arith, live a)) in
    (
      b',
      subst (λ x. free_parts (suc fuel) parts b x ≡ some b') (sym at)
          (free_parts-cons fuel parts b b' k name (live k (ground arith))
            (ground (arith, live (suc k))) freed),
      λ a. left a ∙ ground arith,
    )

-- What a parse leaves: without a result null, and with one the root, whose list holds the parts that were
-- found and can be freed, which leaves live what was live before.
abbrev pub Gives : Store → Option PathRoot → ℕ → Store → Type 0
Gives s none root s' = root ≡ 0
Gives s (some r) root s' =
    ((s'.roots root).0 ≡ r.drive_number)
    × AreNodes s'.parts s'.names (suc (suc s.blocks.count)) r.first (s'.roots root).1
    × (s'' : Store) × (pathparser_free (suc (length r.first)) s' root ≡ some s'')
    × ((a : ℕ) → s''.blocks.live a ≡ s.blocks.live a)

module _ (s : Store) (fresh : IsFresh s.blocks) (drive_number : ℕ) where
  abbrev root_block : ℕ
  root_block = suc s.blocks.count

  abbrev created : Store
  created = record s {
    blocks = record {
      count = root_block;
      live = λ a. if a == root_block then true else s.blocks.live a;
    };
    roots = update s.roots root_block (drive_number, 0);
  }

  created-IsFresh : IsFresh created.blocks
  created-IsFresh a lt = ground (arith, fresh a)

  -- The first part, in the block behind its name.
  abbrev first_block : ℕ
  first_block = suc (suc root_block)

  abbrev with_first : List ℕ → Store
  with_first p = record (with_part created 0 p) {
    roots = update created.roots root_block (drive_number, first_block);
  }

  -- The store behind all parts.
  module _ (p : List ℕ) (ps : List (List ℕ)) (s' : Store)
      (is : IsLinked (with_first p) ps first_block s') where
    root_is : s'.roots root_block ≡ (drive_number, first_block)
    root_is = ap (λ f. f root_block) is.kept_roots ∙ rw (eq→== root_block root_block refl) refl

    all_nodes : AreNodes s'.parts s'.names (suc root_block) (p ∷ ps) first_block
    all_nodes = (
      refl,
      is.same_name ∙ rw (eq→== first_block first_block refl) refl,
      is.kept_names (suc root_block) (omega arith)
          ∙ rw (eq→== (suc root_block) (suc root_block) refl) refl,
      is.nodes,
    )

    live_all :
        (a : ℕ)
        → s'.blocks.live a
          ≡ (if is_between root_block (suc (2 * length (p ∷ ps))) a then true else s.blocks.live a)
    live_all a = is.live_parts a ∙ ground arith

    freed_all :
        (s'' : Store) × (pathparser_free (suc (length (p ∷ ps))) s' root_block ≡ some s'')
        × ((a : ℕ) → s''.blocks.live a ≡ s.blocks.live a)
    unfolding pathparser_free
    freed_all =
        let (b, freed, left) =
          free_parts_lem (suc (length (p ∷ ps))) s'.parts s'.names s'.blocks (suc root_block)
            (p ∷ ps) first_block (omega arith) all_nodes (λ a in_list. live_all a ∙ ground arith) in
        let root_live : b.live root_block ≡ true =
          left root_block ∙ ground (arith, live_all root_block) in
        (
          record s' {
            blocks = record b { live = λ a. if a == root_block then false else b.live a };
          },
          rw (root_is, freed, free_lem b root_block root_live, pathparser_free) refl,
          λ a. ground (arith, left a, live_all a, fresh a),
        )

    gives : Gives s (some (record { drive_number = drive_number; first = p ∷ ps })) root_block s'
    gives =
        let (s'', freed, same) = freed_all in
        (ap (λ (r : ℕ × ℕ). r.0) root_is, rw root_is all_nodes, s'', freed, same)

  from_drive-some :
      (fuel : ℕ) (path p : List ℕ) (s' : Store)
      → (get_next_path_part path).0 ≡ some p
      → parse_behind fuel (with_first p) first_block (get_next_path_part path).1 ≡ some s'
      → parse_from_drive fuel s drive_number path ≡ some (root_block, s')
  unfolding parse_from_drive allocate
  from_drive-some fuel path p s' q linked =
      rw
        (
          parse_path_part_in-some created 0 path p q,
          ne→== first_block 0 (λ e. absurd (omega arith)),
          linked,
          parse_from_drive,
        )
        refl

  from_drive-none :
      (fuel : ℕ) (path : List ℕ)
      → (get_next_path_part path).0 ≡ none
      → parse_from_drive fuel s drive_number path ≡ some (0, ended created)
  unfolding parse_from_drive allocate
  from_drive-none fuel path z = rw (parse_path_part_in-none created 0 path z, parse_from_drive) refl

  from_drive-Gives :
      (path : List ℕ)
      → (root : ℕ) × (s' : Store) × (parse_from_drive (length path) s drive_number path
          ≡ some (root, s'))
        × Gives s (root_of drive_number (parse_parts (suc (length path)) path)) root s'
  from_drive-Gives path = elim (next_part_cases path) [
    | inl z ↦ (
      0,
      ended created,
      from_drive-none (length path) path z,
      subst (λ o. Gives s (root_of drive_number o) 0 (ended created))
          (sym (parse_parts-none (length path) path z)) refl,
    )
    | inr (p, q, shorter) ↦
        let (ps, s', parsed, linked, is) =
          parse_behind_lem (length path) (with_first p) first_block (get_next_path_part path).1
            shorter refl (λ e. absurd (omega arith)) (with_part-IsFresh created 0 p created-IsFresh)
            (rw (eq→== first_block first_block refl) refl) in
        (
          root_block,
          s',
          from_drive-some (length path) path p s' q linked,
          subst (λ o. Gives s (root_of drive_number o) root_block s')
              (sym (parse_parts-some (length path) path p ps q parsed)) (gives p ps s' is),
        )
  ]

-- For every path and store, the parse ends and gives null exactly where pathparser_parse has no result;
-- otherwise the root, with the list of the same parts, and pathparser_free then frees each block that the
-- parse has allocated, once, and no other.
pub pathparser_parse_in-Gives :
    (s : Store) (path : List ℕ)
    → IsFresh s.blocks
    → (root : ℕ) × (s' : Store) × (pathparser_parse_in s path ≡ some (root, s'))
      × Gives s (pathparser_parse path) root s'
unfolding pathparser_parse_in pathparser_parse
pathparser_parse_in-Gives s path fresh =
    go (ltb path_max_len (strlen path)) (get_drive_from_path path)
  where
    go :
        (too_long : Bool) (r : Result (ℕ × List ℕ))
        → (root : ℕ) × (s' : Store) × ((if too_long then some (0, s) else elim r [
          | err e ↦ some (0, s)
          | ok (drive_number, rest) ↦ parse_from_drive (length rest) s drive_number rest
        ])
            ≡ some (root, s'))
          × Gives s
              (if too_long then none else elim r [
                | err e ↦ none
                | ok (drive_number, rest) ↦
                    root_of drive_number (parse_parts (suc (length rest)) rest)
              ])
              root
              s'
    go true r = (0, s, refl, refl)
    go false (err e) = (0, s, refl, refl)
    go false (ok (drive_number, rest)) = from_drive-Gives s fresh drive_number rest

-- A path without a part: the code returns null and does not free the root that it has allocated.
pub parse_from_drive_leaks :
    (fuel : ℕ) (s : Store) (drive_number : ℕ) (path : List ℕ)
    → IsFresh s.blocks
    → (get_next_path_part path).0 ≡ none
    → (s' : Store) × (parse_from_drive fuel s drive_number path ≡ some (0, s'))
      × (s.blocks.live (suc s.blocks.count) ≡ false)
      × (s'.blocks.live (suc s.blocks.count) ≡ true)
parse_from_drive_leaks fuel s drive_number path fresh none_found = (
  ended (created s fresh drive_number),
  from_drive-none s fresh drive_number fuel path none_found,
  fresh (suc s.blocks.count) (omega arith),
  ground arith,
)
