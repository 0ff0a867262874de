-- ===== src/Fat16/Owned/Closed.antt =====
-- Opening and closing a file of src/fs/fat/fat16.c, and what is live in memory.
use ras_os.KernelHeap.Blocks.{Blocks, IsFresh, allocate, free_lem}
use ras_os.Fat16.{FatPrivate}
use ras_os.Fat16.Directory.{item_at, FatDirectory, is_subdirectory, fat16_load_fat_directory}
use ras_os.Fat16.Owned.{
  mode_read, OwnedDescriptor, fat16_free_file_descriptor, close_in, entry_behind,
  directory_entry_in, open_in, find_item_in, DirectoryBlocks, owned_directory, OwnedItem,
  fat16_fat_item_free,
}
use ras_os.Base.{
  ==→eq, ok, ◌∷◌, [], ap, none, ◌∙◌, eq→==, List, arith, refl, suc, if◌then◌else◌, ◌==◌, ◌≡◌, ℕ,
  some, false, true,
}
use ras_os.Fat16.Owned.Items.{owns, IsNewItem, fat_item_free_lem, freed_bits, closed_bits}
use ras_os.Fat16.Owned.Found.{Names, found-Names}

module _ (fuel : ℕ) (sectors : ℕ → List ℕ) (private : FatPrivate) where
  -- Each part of a path names one item of its directory, and all but the last are directories.
  abbrev pub Leads : FatDirectory → List (List ℕ) → Type 0
  Leads d [] = ⊥
  Leads d (part ∷ []) = (m : ℕ) × Names fuel sectors private d part m
  Leads d (part ∷ q ∷ path) =
      (m : ℕ) × Names fuel sectors private d part m
      × (is_subdirectory (item_at d m) ≡ true)
      × (d' : FatDirectory) × (fat16_load_fat_directory fuel sectors private (item_at d m)
          ≡ some (some d'))
      × Leads d' (q ∷ path)

  -- The item that was current is freed where a new one is found in it.
  next-IsNewItem :
      (b0 b b1 : Blocks) (o o' : OwnedItem)
      → IsNewItem b0 o b
      → IsNewItem b o' b1
      → (b2 : Blocks) × (fat16_fat_item_free b1 o ≡ some b2) × IsNewItem b0 o' b2
  next-IsNewItem b0 b b1 o o' new new' =
      let facts = λ (a : ℕ).
        freed_bits (owns o a) (owns o' a) (b0.live a) (b.live a) (b1.live a) (new.live_after a)
          (new.new_blocks a) (new'.live_after a) (new'.new_blocks a) in
      let (b2, freed, left, same) = fat_item_free_lem b1 o new.apart (λ a is. (facts a).0 is) in
      (
        b2,
        freed,
        record {
          apart = new'.apart;
          live_after = λ a. left a ∙ (facts a).1;
          new_blocks = λ a is. (facts a).2 is;
          still_fresh = λ a lt. left a ∙ (facts a).3 (new'.still_fresh a (omega arith));
        },
      )

  entry_behind-cons :
      (d : FatDirectory) (blocks : DirectoryBlocks) (part : List ℕ) (path : List (List ℕ))
      (o o' : OwnedItem) (b b1 b2 : Blocks)
      → o.union ≡ owned_directory (some d) blocks
      → find_item_in fuel sectors private d.total 0 d part none b ≡ some (some o', b1)
      → fat16_fat_item_free b1 o ≡ some b2
      → entry_behind fuel sectors private (part ∷ path) o b
        ≡ entry_behind fuel sectors private path o' b2
  unfolding entry_behind
  entry_behind-cons d blocks part path o o' b b1 b2 u found freed =
      rw (u, found, freed, entry_behind) refl

  -- The walk ends at an item of its own, with all that came before it freed.
  entry_behind-IsNewItem :
      (path : List (List ℕ)) (d : FatDirectory) (blocks : DirectoryBlocks) (part : List ℕ)
      (o : OwnedItem) (b0 b : Blocks)
      → o.union ≡ owned_directory (some d) blocks
      → Leads d (part ∷ path)
      → IsNewItem b0 o b
      → (o' : OwnedItem) × (b' : Blocks) × (entry_behind fuel sectors private (part ∷ path) o b
          ≡ some (some o', b'))
        × IsNewItem b0 o' b'
  unfolding entry_behind
  entry_behind-IsNewItem [] d blocks part o b0 b u (m, named) new =
      let (o', b1, found, new', holds) =
        found-Names fuel sectors private d part m b named new.still_fresh in
      let (b2, freed, after) = next-IsNewItem b0 b b1 o o' new new' in
      (o', b2, entry_behind-cons d blocks part [] o o' b b1 b2 u found freed, after)
  entry_behind-IsNewItem (q ∷ path) d blocks part o b0 b u (m, named, is, d', loaded, leads) new =
      let (o', b1, found, new', holds) =
        found-Names fuel sectors private d part m b named new.still_fresh in
      let (b2, freed, after) = next-IsNewItem b0 b b1 o o' new new' in
      let (blocks', u') = holds d' is loaded in
      let (o'', b3, rest, last) =
        entry_behind-IsNewItem path d' blocks' q o' b0 b2 u' leads after in
      (o'', b3, entry_behind-cons d blocks part (q ∷ path) o o' b b1 b2 u found freed ∙ rest, last)

  module _ (root : FatDirectory) where
    entry-IsNewItem :
        (part : List ℕ) (path : List (List ℕ)) (b : Blocks)
        → Leads root (part ∷ path)
        → IsFresh b
        → (o : OwnedItem) × (b' : Blocks) × (directory_entry_in fuel sectors private root
              (part ∷ path)
              b
            ≡ some (some o, b'))
          × IsNewItem b o b'
    unfolding directory_entry_in entry_behind
    entry-IsNewItem part [] b (m, named) fresh =
        let (o, b1, found, new, holds) =
          found-Names fuel sectors private root part m b named fresh in
        (o, b1, rw (found, directory_entry_in) refl, new)
    entry-IsNewItem part (q ∷ path) b (m, named, is, d, loaded, leads) fresh =
        let (o, b1, found, new, holds) =
          found-Names fuel sectors private root part m b named fresh in
        let (blocks, u) = holds d is loaded in
        let (o', b2, rest, last) = entry_behind-IsNewItem path d blocks q o b b1 u leads new in
        (o', b2, rw (found, directory_entry_in) rest, last)

    -- A file is opened, by a path whose parts each name one item, which where it is a directory can be read and
    -- has no more than 128 items in use, and closed: both succeed, and what is live in memory is what was
    -- live before.
    pub close_in-open_in :
        (part : List ℕ) (path : List (List ℕ)) (b : Blocks)
        → Leads root (part ∷ path)
        → IsFresh b
        → (d : OwnedDescriptor) × (b1 b2 : Blocks) × (open_in fuel sectors private root b
              (part ∷ path)
              mode_read
            ≡ some (ok d, b1))
          × (close_in b1 d ≡ some b2)
          × ((a : ℕ) → b2.live a ≡ b.live a)
    unfolding open_in close_in fat16_free_file_descriptor allocate
    close_in-open_in part path b leads fresh =
        let c = suc b.count in
        let held : Blocks = record { count = c; live = λ a. if a == c then true else b.live a } in
        let (o, b1, found, new) =
          entry-IsNewItem part path held leads (λ a lt. ground (arith, fresh a)) in
        let (b2, freed, left, same) =
          fat_item_free_lem b1 o new.apart (λ a is. new.live_after a ∙ rw is refl) in
        let facts = λ (a : ℕ).
          closed_bits (owns o a) (a == c) (b.live a) (b1.live a) (b2.live a) (new.new_blocks a)
            (new.live_after a) (left a) (λ e. ap b.live (==→eq a c e) ∙ fresh c (omega arith)) in
        (
          record { desc = c; item = o },
          b1,
          record b2 { live = λ a. if a == c then false else b2.live a },
          rw (found, open_in) refl,
          rw
              (
                freed,
                free_lem b2 c ((facts c).0 (eq→== c c refl)),
                close_in,
                fat16_free_file_descriptor,
              )
              refl,
          λ a. (facts a).1,
        )
