-- ===== src/Fat16/Owned/Found.antt =====
-- The search of a directory of src/fs/fat/fat16.c, and the blocks of the item that it makes.
use ras_os.KernelHeap.Blocks.{Blocks, IsFresh, allocate}
use ras_os.Fat16.{FatPrivate}
use ras_os.Fat16.Directory.{
  item_at, has_name, FatDirectory, is_subdirectory, size_of_item, fat16_load_fat_directory,
}
use ras_os.Fat16.Owned.{
  most_items, find_item_in, DirectoryBlocks, owned_item, owned_directory, OwnedItem,
  load_directory_in, fat16_clone_directory_item, new_fat_item_in,
}
use ras_os.Base.{
  ge→ltb, subst, ℕ_discrete, ◌+◌, ◌≤◌, Option, ap, none, zero, take, Bool-cases, sym, ◌∙◌, ◌<◌,
  List, arith, refl, inr, inl, suc, if◌then◌else◌, ◌==◌, ◌≡◌, ◌≢◌, ℕ, some, false, true,
}
use ras_os.Fat16.Owned.Items.{IsApartUnion, IsNewItem}

module _ (fuel : ℕ) (sectors : ℕ → List ℕ) (private : FatPrivate) where
  -- The items of a directory can be read, and are no more than a block of the heap holds.
  abbrev pub IsReadable : List ℕ → Type 0
  IsReadable item =
      is_subdirectory item ≡ true
      → (d : FatDirectory) × (fat16_load_fat_directory fuel sectors private item ≡ some (some d))
        × (d.total ≤ most_items)

  -- The item of a subdirectory holds its contents.
  abbrev pub Holds : OwnedItem → List ℕ → Type 0
  Holds o item =
      (d : FatDirectory)
      → is_subdirectory item ≡ true
      → fat16_load_fat_directory fuel sectors private item ≡ some (some d)
      → (blocks : DirectoryBlocks) × (o.union ≡ owned_directory (some d) blocks)

  pub new_fat_item-IsNewItem :
      (b : Blocks) (item : List ℕ)
      → IsFresh b
      → IsReadable item
      → (o : OwnedItem) × (b' : Blocks) × (new_fat_item_in fuel sectors private b item
          ≡ some (o, b'))
        × IsNewItem b o b'
        × Holds o item
  unfolding new_fat_item_in load_directory_in fat16_clone_directory_item allocate IsApartUnion
  new_fat_item-IsNewItem b item fresh readable = elim (Bool-cases (is_subdirectory item)) [
    | inl is ↦
        let (d, loaded, few) = readable is in
        let c = b.count in
        (
          record {
            f_item = suc c;
            union =
                owned_directory (some d)
                  (record { directory = suc (suc c); items = suc (suc (suc c)) });
          },
          record {
            count = suc (suc (suc c));
            live = λ a.
                if a == suc (suc (suc c))
                then true
                else if a == suc (suc c)
                then true
                else if a == suc c
                then true
                else b.live a;
          },
          rw (is, loaded, ge→ltb most_items d.total few, new_fat_item_in, load_directory_in) refl,
          record {
            apart = (
              (λ e. absurd (omega arith)),
              (λ e. absurd (omega arith)),
              (λ e. absurd (omega arith)),
            );
            live_after = λ a. ground arith;
            new_blocks = λ a is. fresh a (ground arith);
            still_fresh = λ a lt. ground (arith, fresh a);
          },
          λ d' z e. (
            record { directory = suc (suc c); items = suc (suc (suc c)) },
            ap
                (λ (x : Option (Option FatDirectory)).
                  owned_directory (elim x [ none ↦ none | some y ↦ y ])
                    (record { directory = suc (suc c); items = suc (suc (suc c)) }))
                (sym loaded ∙ e),
          ),
        )
    | inr is ↦
        let c = b.count in
        (
          record { f_item = suc c; union = owned_item (take size_of_item item) (suc (suc c)) },
          record {
            count = suc (suc c);
            live = λ a. if a == suc (suc c) then true else if a == suc c then true else b.live a;
          },
          rw (is, new_fat_item_in) refl,
          record {
            apart = (λ e. absurd (omega arith));
            live_after = λ a. ground arith;
            new_blocks = λ a is. fresh a (ground arith);
            still_fresh = λ a lt. ground (arith, fresh a);
          },
          λ d' z e. ground arith,
        )
  ]

  module _ (d : FatDirectory) (name : List ℕ) where
    find-none :
        (rounds i : ℕ) (f : Option OwnedItem) (b : Blocks)
        → ((j : ℕ) → i ≤ j → j < i + rounds → has_name (item_at d j) name ≡ false)
        → find_item_in fuel sectors private rounds i d name f b ≡ some (f, b)
    unfolding find_item_in
    find-none zero i f b others = refl
    find-none (suc rounds) i f b others =
        rw (others i (omega arith) (omega arith), find_item_in)
          (find-none rounds (i + 1) f b (λ j lo hi. others j (omega arith) (omega arith)))

    -- The one item of a name is found, and nothing else is allocated.
    find-one :
        (rounds i m : ℕ) (f : Option OwnedItem) (b : Blocks)
        → i ≤ m
        → m < i + rounds
        → has_name (item_at d m) name ≡ true
        → ((j : ℕ) → j ≢ m → j < i + rounds → has_name (item_at d j) name ≡ false)
        → IsFresh b
        → IsReadable (item_at d m)
        → (o : OwnedItem) × (b' : Blocks) × (find_item_in fuel sectors private rounds i d name f b
            ≡ some (some o, b'))
          × IsNewItem b o b'
          × Holds o (item_at d m)
    unfolding find_item_in
    find-one zero i m f b lo hi is others fresh readable = absurd (omega arith)
    find-one (suc rounds) i m f b lo hi is others fresh readable = elim (ℕ_discrete i m) [
      | yes e ↦
          let (o, b', made, new, holds) = new_fat_item-IsNewItem b (item_at d m) fresh readable in
          (
            o,
            b',
            subst
                (λ j.
                  find_item_in fuel sectors private (suc rounds) j d name f b ≡ some (some o, b'))
                (sym e)
                (rw (is, made, find_item_in)
                  (find-none rounds (m + 1) (some o) b'
                    (λ j l h. others j (λ q. absurd (omega arith)) (omega arith)))),
            new,
            holds,
          )
      | no ne ↦
          let (o, b', found, new, holds) =
            find-one rounds (i + 1) m f b (omega arith) (omega arith) is
              (λ j q h. others j q (omega arith)) fresh readable in
          (o, b', rw (others i ne (omega arith), find_item_in) found, new, holds)
    ]

  -- A name is that of one item of a directory, which can be read.
  abbrev pub Names : FatDirectory → List ℕ → ℕ → Type 0
  Names d part m =
      (m < d.total)
      × (has_name (item_at d m) part ≡ true)
      × ((j : ℕ) → j ≢ m → j < d.total → has_name (item_at d j) part ≡ false)
      × IsReadable (item_at d m)

  pub found-Names :
      (d : FatDirectory) (part : List ℕ) (m : ℕ) (b : Blocks)
      → Names d part m
      → IsFresh b
      → (o : OwnedItem) × (b' : Blocks) × (find_item_in fuel sectors private d.total 0 d part none b
          ≡ some (some o, b'))
        × IsNewItem b o b'
        × Holds o (item_at d m)
  found-Names d part m b (lt, is, others, readable) fresh =
      find-one d part d.total 0 m none b (omega arith) (omega arith) is
        (λ j ne h. others j ne (omega arith)) fresh readable
