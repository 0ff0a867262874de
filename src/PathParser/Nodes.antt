-- ===== src/PathParser/Nodes.antt =====
-- src/fs/pparser.c with the structures that it allocates and frees. A structure is named by its block
-- (KernelHeap.Blocks), and the null pointer is 0.
use ras_os.KernelHeap.Blocks.{Blocks, allocate, free}
use ras_os.CString.{strlen}
use ras_os.PathParser.{get_drive_from_path, get_next_path_part, path_max_len}
use ras_os.Base.{length, ltb, ◌==◌, Option, if◌then◌else◌, List, ℕ, err, some, none, suc, zero, ok}

pub record PathPart : Type 0 where
  pub part : ℕ
  pub next : ℕ

-- `names` is what stands in the buffers.
pub record Store : Type 0 where
  pub blocks : Blocks
  pub names : ℕ → List ℕ
  pub parts : ℕ → PathPart
  pub roots : ℕ → ℕ × ℕ

abbrev pub update {ℓ} : {A : Type ℓ} → (ℕ → A) → ℕ → A → ℕ → A
update f block x a = if a == block then x else f a

-- The buffer, or null with the buffer freed, and the path behind the part.
unfoldable pub next_part_in : Store → List ℕ → Option (ℕ × List ℕ × Store)
next_part_in s path =
    let (buffer, blocks) = allocate s.blocks in
    let (part, rest) = get_next_path_part path in
    elim part [
      | some name ↦
          some (buffer, rest, record s { blocks = blocks; names = update s.names buffer name })
      | none ↦ elim (free blocks buffer) [
        | none ↦ none
        | some freed ↦ some (0, rest, record s { blocks = freed })
      ]
    ]

-- The new part behind the last one, or null.
unfoldable pub parse_path_part_in : Store → (last_part : ℕ) → List ℕ → Option (ℕ × List ℕ × Store)
parse_path_part_in s last_part path = elim (next_part_in s path) [
  | none ↦ none
  | some (name, rest, s1) ↦
      if name == 0
      then some (0, rest, s1)
      else let (part, blocks) = allocate s1.blocks in
        let parts = update s1.parts part (record { part = name; next = 0 }) in
        some (
          part,
          rest,
          record s1 {
            blocks = blocks;
            parts =
                if last_part == 0
                then parts
                else update parts last_part (record (parts last_part) { next = part });
          },
        )
]

-- The loop of pathparser_parse behind a part.
unfoldable pub parse_behind : (fuel : ℕ) → Store → (part : ℕ) → List ℕ → Option Store
parse_behind zero s part path = none
parse_behind (suc fuel) s part path = elim (parse_path_part_in s part path) [
  | none ↦ none
  | some (next, rest, s1) ↦ if next == 0 then some s1 else parse_behind fuel s1 next rest
]

-- The root, or null, for a path with a drive.
unfoldable pub parse_from_drive :
    (fuel : ℕ) → Store → (drive_number : ℕ) → List ℕ → Option (ℕ × Store)
parse_from_drive fuel s drive_number path =
    let (root, blocks) = allocate s.blocks in
    let created = record s { blocks = blocks; roots = update s.roots root (drive_number, 0) } in
    elim (parse_path_part_in created 0 path) [
      | none ↦ none
      | some (first_part, rest, s1) ↦
          if first_part == 0
          then some (0, s1)
          else elim (parse_behind fuel
              (record s1 { roots = update s1.roots root (drive_number, first_part) }) first_part
              rest) [ none ↦ none | some s2 ↦ some (root, s2) ]
    ]

unfoldable pub pathparser_parse_in : Store → List ℕ → Option (ℕ × Store)
pathparser_parse_in s path =
    if ltb path_max_len (strlen path) then some (0, s) else elim (get_drive_from_path path) [
      | err e ↦ some (0, s)
      | ok (drive_number, rest) ↦ parse_from_drive (length rest) s drive_number rest
    ]

-- The loop of pathparser_free, on fuel.
unfoldable pub free_parts : (fuel : ℕ) → (ℕ → PathPart) → Blocks → (part : ℕ) → Option Blocks
free_parts zero parts blocks part = none
free_parts (suc fuel) parts blocks part =
    if part == 0 then some blocks else elim (free blocks (parts part).part) [
      | none ↦ none
      | some b1 ↦ elim (free b1 part) [
        | none ↦ none
        | some b2 ↦ free_parts fuel parts b2 (parts part).next
      ]
    ]

unfoldable pub pathparser_free : (fuel : ℕ) → Store → (root : ℕ) → Option Store
pathparser_free fuel s root = elim (free_parts fuel s.parts s.blocks (s.roots root).1) [
  | none ↦ none
  | some b ↦ elim (free b root) [ none ↦ none | some b' ↦ some (record s { blocks = b' }) ]
]
