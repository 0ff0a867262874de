-- ===== src/PathParser/Behind.antt =====
-- The list of parts that src/fs/pparser.c links, block by block.
use ras_os.KernelHeap.Blocks.{IsFresh}
use ras_os.PathParser.Print.{next_part_cases, parse_parts-none, parse_parts-some}
use ras_os.PathParser.Nodes.{
  Store, PathPart, update, next_part_in, parse_path_part_in, parse_behind,
}
use ras_os.KernelHeap.Blocks.{allocate, free}
use ras_os.PathParser.{get_next_path_part, parse_parts}
use ras_os.Base.{
  inr, inl, zero, ap, ◌∙◌, ne→==, ◌≢◌, eq→==, arith, refl, suc, ◌≤◌, ltb, ◌&&◌, length, leb, ◌∷◌,
  ◌*◌, ◌==◌, ◌≡◌, if◌then◌else◌, Bool, ◌<◌, ◌+◌, ℕ, List, [], some, none, false, true,
}

-- The parts of the list from `part` on: the name of each has the next block from `k` on, its structure the
-- one behind.
abbrev pub AreNodes : (ℕ → PathPart) → (ℕ → List ℕ) → (k : ℕ) → List (List ℕ) → (part : ℕ) → Type 0
AreNodes parts names k [] part = part ≡ 0
AreNodes parts names k (p ∷ ps) part =
    (part ≡ suc k)
    × ((parts (suc k)).part ≡ k)
    × (names k ≡ p)
    × AreNodes parts names (suc (suc k)) ps (parts (suc k)).next

abbrev pub is_between : ℕ → ℕ → ℕ → Bool
is_between k n a = leb k a && ltb a (k + n)

-- What the loop of pathparser_parse leaves behind the part `last`, the last block so far.
pub record IsLinked (s : Store) (ps : List (List ℕ)) (last : ℕ) (s' : Store) : Type 0 where
  pub live_parts :
      (a : ℕ)
      → s'.blocks.live a
        ≡ (if is_between (suc s.blocks.count) (2 * length ps) a then true else s.blocks.live a)
  pub nodes : AreNodes s'.parts s'.names (suc s.blocks.count) ps (s'.parts last).next
  pub same_name : (s'.parts last).part ≡ (s.parts last).part
  pub kept_parts : (a : ℕ) → a < last → s'.parts a ≡ s.parts a
  pub kept_names : (a : ℕ) → a ≤ s.blocks.count → s'.names a ≡ s.names a
  pub kept_roots : s'.roots ≡ s.roots

-- The store behind a part that is linked, and behind the end of a path.
abbrev pub with_part : Store → (last : ℕ) → List ℕ → Store
with_part s last p =
    let name = suc s.blocks.count in
    let part = suc name in
    let parts = update s.parts part (record { part = name; next = 0 }) in
    record s {
      blocks = record {
        count = part;
        live = λ a. if a == part then true else if a == name then true else s.blocks.live a;
      };
      names = update s.names name p;
      parts = if last == 0 then parts else update parts last (record (parts last) { next = part });
    }

abbrev pub ended : Store → Store
ended s =
    let name = suc s.blocks.count in
    record s {
      blocks = record {
        count = name;
        live = λ a. if a == name then false else if a == name then true else s.blocks.live a;
      };
    }

module _ (s : Store) (last : ℕ) (path : List ℕ) where
  abbrev rest : List ℕ
  rest = (get_next_path_part path).1

  pub parse_path_part_in-some :
      (p : List ℕ)
      → (get_next_path_part path).0 ≡ some p
      → parse_path_part_in s last path ≡ some (suc (suc s.blocks.count), rest, with_part s last p)
  unfolding parse_path_part_in next_part_in allocate
  parse_path_part_in-some p e =
      rw
        (
          e,
          ne→== (suc s.blocks.count) 0 (λ z. absurd (omega arith)),
          parse_path_part_in,
          next_part_in,
        )
        refl

  pub parse_path_part_in-none :
      (get_next_path_part path).0 ≡ none → parse_path_part_in s last path ≡ some (0, rest, ended s)
  unfolding parse_path_part_in next_part_in allocate free
  parse_path_part_in-none e =
      rw
        (
          e,
          eq→== (suc s.blocks.count) (suc s.blocks.count) refl,
          parse_path_part_in,
          next_part_in,
          free,
        )
        refl

module _ (s : Store) (p : List ℕ) (last : ℕ) (is_last : last ≡ s.blocks.count)
    (not_null : last ≢ 0) where
  parts-with_part :
      (a : ℕ)
      → (with_part s last p).parts a ≡ (
          if a == last
          then record (s.parts last) { next = suc (suc s.blocks.count) }
          else if a == suc (suc s.blocks.count)
          then record { part = suc s.blocks.count; next = 0 }
          else s.parts a)
  parts-with_part a =
      rw (ne→== last 0 not_null, ne→== last (suc (suc s.blocks.count)) (λ e. absurd (omega arith)))
        refl

  at_new :
      (with_part s last p).parts (suc (suc s.blocks.count))
      ≡ record { part = suc s.blocks.count; next = 0 }
  at_new =
      parts-with_part (suc (suc s.blocks.count))
      ∙ rw
          (
            ne→== (suc (suc s.blocks.count)) last (λ e. absurd (omega arith)),
            eq→== (suc (suc s.blocks.count)) (suc (suc s.blocks.count)) refl,
          )
          refl

-- A store behind a part: the new block of the list, in its place.
module _ (s s' : Store) (p : List ℕ) (ps : List (List ℕ)) (last : ℕ)
    (is_last : last ≡ s.blocks.count) (not_null : last ≢ 0)
    (rec : IsLinked (with_part s last p) ps (suc (suc s.blocks.count)) s') where
  at_last : s'.parts last ≡ record (s.parts last) { next = suc (suc s.blocks.count) }
  at_last =
      rec.kept_parts last (omega arith)
      ∙ parts-with_part s p last is_last not_null last
      ∙ rw (eq→== last last refl) refl

  cons-IsLinked : IsLinked s (p ∷ ps) last s'
  cons-IsLinked = record {
    live_parts = λ a. rec.live_parts a ∙ ground arith;
    nodes = (
      ap (λ (n : PathPart). n.next) at_last,
      rec.same_name ∙ ap (λ (n : PathPart). n.part) (at_new s p last is_last not_null),
      rec.kept_names (suc s.blocks.count) (omega arith)
          ∙ rw (eq→== (suc s.blocks.count) (suc s.blocks.count) refl) refl,
      rec.nodes,
    );
    same_name = ap (λ (n : PathPart). n.part) at_last;
    kept_parts = λ a lt.
        rec.kept_parts a (omega arith)
        ∙ parts-with_part s p last is_last not_null a
        ∙ rw
            (
              ne→== a last (λ e. absurd (omega arith)),
              ne→== a (suc (suc s.blocks.count)) (λ e. absurd (omega arith)),
            )
            refl;
    kept_names = λ a le.
        rec.kept_names a (omega arith)
        ∙ rw (ne→== a (suc s.blocks.count) (λ e. absurd (omega arith))) refl;
    kept_roots = rec.kept_roots;
  }

nil-IsLinked :
    (s : Store) (last : ℕ)
    → IsFresh s.blocks
    → (s.parts last).next ≡ 0
    → IsLinked s [] last (ended s)
nil-IsLinked s last fresh end = record {
  live_parts = λ a. ground (arith, fresh a);
  nodes = end;
  same_name = refl;
  kept_parts = λ a lt. refl;
  kept_names = λ a le. refl;
  kept_roots = refl;
}

pub with_part-IsFresh :
    (s : Store) (last : ℕ) (p : List ℕ) → IsFresh s.blocks → IsFresh (with_part s last p).blocks
with_part-IsFresh s last p fresh a lt = ground (arith, fresh a)

-- The loop ends, with the parts that parse_parts finds linked behind the part.
pub parse_behind_lem :
    (fuel : ℕ) (s : Store) (last : ℕ) (path : List ℕ)
    → length path < fuel
    → last ≡ s.blocks.count
    → last ≢ 0
    → IsFresh s.blocks
    → (s.parts last).next ≡ 0
    → (ps : List (List ℕ)) × (s' : Store) × (parse_parts fuel path ≡ some ps)
      × (parse_behind fuel s last path ≡ some s')
      × IsLinked s ps last s'
unfolding parse_behind
parse_behind_lem zero s last path h is_last not_null fresh end = absurd (omega arith)
parse_behind_lem (suc fuel) s last path h is_last not_null fresh end = elim (next_part_cases path) [
  | inl z ↦ (
    [],
    ended s,
    parse_parts-none fuel path z,
    rw (parse_path_part_in-none s last path z, parse_behind) refl,
    nil-IsLinked s last fresh end,
  )
  | inr (p, q, shorter) ↦
      let (ps, s', parsed, linked, is) =
        parse_behind_lem fuel (with_part s last p) (suc (suc s.blocks.count))
          (get_next_path_part path).1 (omega arith) refl (λ e. absurd (omega arith))
          (with_part-IsFresh s last p fresh)
          (ap (λ (n : PathPart). n.next) (at_new s p last is_last not_null)) in
      (
        p ∷ ps,
        s',
        parse_parts-some fuel path p ps q parsed,
        rw
            (
              parse_path_part_in-some s last path p q,
              ne→== (suc (suc s.blocks.count)) 0 (λ e. absurd (omega arith)),
              parse_behind,
            )
            linked,
        cons-IsLinked s s' p ps last is_last not_null is,
      )
]
