-- ===== src/Fat16/Owned/Items.antt =====
-- The blocks of the items of src/fs/fat/fat16.c: what is live where they are made and freed.
use ras_os.KernelHeap.Blocks.{Blocks, IsFresh, free, free_lem}
use ras_os.Fat16.Owned.{
  OwnedUnion, owned_item, owned_directory, OwnedItem, fat16_free_directory, fat16_free_union,
  fat16_fat_item_free,
}
use ras_os.Base.{
  sym, ◌∙◌, eq→==, ne→==, arith, refl, ◌||◌, if◌then◌else◌, ◌==◌, ◌≡◌, ◌≢◌, Bool, ℕ, some, false,
  true,
}

-- The blocks of an item.
abbrev pub owns_union : OwnedUnion → ℕ → Bool
owns_union (owned_item item block) a = a == block
owns_union (owned_directory d blocks) a = (a == blocks.items) || (a == blocks.directory)

abbrev pub owns : OwnedItem → ℕ → Bool
owns o a = (a == o.f_item) || owns_union o.union a

unfoldable pub IsApartUnion : ℕ → OwnedUnion → Type 0
IsApartUnion f (owned_item item block) = f ≢ block
IsApartUnion f (owned_directory d blocks) =
    (f ≢ blocks.items) × (f ≢ blocks.directory) × (blocks.items ≢ blocks.directory)

-- Two frees in a row.
free_two :
    (b : Blocks) (first second : ℕ)
    → first ≢ second
    → b.live first ≡ true
    → b.live second ≡ true
    → (b1 b2 : Blocks) × (free b first ≡ some b1)
      × (free b1 second ≡ some b2)
      × ((a : ℕ) → b2.live a ≡ (if (a == first) || (a == second) then false else b.live a))
      × (b2.count ≡ b.count)
free_two b first second ne h h' =
    let b1 : Blocks = record b { live = λ a. if a == first then false else b.live a } in
    (
      b1,
      record b1 { live = λ a. if a == second then false else b1.live a },
      free_lem b first h,
      free_lem b1 second (rw (ne→== second first (λ e. ne (sym e))) h'),
      λ a. ground arith,
      refl,
    )

free_union_lem :
    (b : Blocks) (f : ℕ) (u : OwnedUnion)
    → IsApartUnion f u
    → ((a : ℕ) → owns_union u a ≡ true → b.live a ≡ true)
    → (b' : Blocks) × (fat16_free_union b u ≡ some b')
      × ((a : ℕ) → b'.live a ≡ (if owns_union u a then false else b.live a))
      × (b'.count ≡ b.count)
unfolding IsApartUnion fat16_free_union fat16_free_directory
free_union_lem b f (owned_item item block) apart live = (
  record b { live = λ a. if a == block then false else b.live a },
  free_lem b block (live block (eq→== block block refl)),
  λ a. refl,
  refl,
)
free_union_lem b f (owned_directory d blocks) apart live =
    let first = live blocks.items (ground arith) in
    let second = live blocks.directory (ground arith) in
    let (b1, b2, e, e', left, same) =
      free_two b blocks.items blocks.directory apart.2 first second in
    (b2, rw (e, e', fat16_free_union, fat16_free_directory) refl, left, same)

apart_false : (f : ℕ) (u : OwnedUnion) → IsApartUnion f u → owns_union u f ≡ false
unfolding IsApartUnion
apart_false f (owned_item item block) apart = ne→== f block apart
apart_false f (owned_directory d blocks) apart =
    rw (ne→== f blocks.items apart.0, ne→== f blocks.directory apart.1) refl

-- An item whose blocks are live and apart is freed, with its blocks and no others.
pub fat_item_free_lem :
    (b : Blocks) (o : OwnedItem)
    → IsApartUnion o.f_item o.union
    → ((a : ℕ) → owns o a ≡ true → b.live a ≡ true)
    → (b' : Blocks) × (fat16_fat_item_free b o ≡ some b')
      × ((a : ℕ) → b'.live a ≡ (if owns o a then false else b.live a))
      × (b'.count ≡ b.count)
unfolding fat16_fat_item_free
fat_item_free_lem b o apart live =
    let (b1, e, left, same) =
      free_union_lem b o.f_item o.union apart (λ a is. live a (ground arith)) in
    let f_live : b1.live o.f_item ≡ true =
      left o.f_item ∙ rw (apart_false o.f_item o.union apart) (live o.f_item (ground arith)) in
    (
      record b1 { live = λ a. if a == o.f_item then false else b1.live a },
      rw (e, free_lem b1 o.f_item f_live, fat16_fat_item_free) refl,
      λ a. ground (arith, left a),
      same,
    )

-- What is live at one address: of the item that is freed, of the new one, and before and after them.
pub freed_bits :
    (old new live0 live live1 : Bool)
    → live ≡ (if old then true else live0)
    → (old ≡ true → live0 ≡ false)
    → live1 ≡ (if new then true else live)
    → (new ≡ true → live ≡ false)
    → (old ≡ true → live1 ≡ true)
      × ((if old then false else live1) ≡ (if new then true else live0))
      × (new ≡ true → live0 ≡ false)
      × (live1 ≡ false → (if old then false else live1) ≡ false)
freed_bits old new live0 live live1 e f e' f' =
    ((λ h. ground arith), ground arith, (λ h. ground arith), (λ h. ground arith))

-- The same behind the close of a descriptor.
pub closed_bits :
    (own is_desc live live1 live2 : Bool)
    → (own ≡ true → (if is_desc then true else live) ≡ false)
    → live1 ≡ (if own then true else if is_desc then true else live)
    → live2 ≡ (if own then false else live1)
    → (is_desc ≡ true → live ≡ false)
    → (is_desc ≡ true → live2 ≡ true) × ((if is_desc then false else live2) ≡ live)
closed_bits own is_desc live live1 live2 f e e' g = ((λ h. ground arith), ground arith)

-- What a new item is: its blocks are live, apart and new, and the rest of memory is as it was.
pub record IsNewItem (b : Blocks) (o : OwnedItem) (b' : Blocks) : Type 0 where
  pub apart : IsApartUnion o.f_item o.union
  pub live_after : (a : ℕ) → b'.live a ≡ (if owns o a then true else b.live a)
  pub new_blocks : (a : ℕ) → owns o a ≡ true → b.live a ≡ false
  pub still_fresh : IsFresh b'
