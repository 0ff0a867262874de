-- ===== src/Fat16/Directory/Count.antt =====
-- How many items a directory has (fat16_get_total_items_for_directory of src/fs/fat/fat16.c).
use ras_os.Base.{
  ◌^◌, ne→==, eq→==, ◌∙◌, ap, ◌≢◌, ◌==◌, ◌+◌, ◌*◌, ◌<◌, ◌≡◌, if◌then◌else◌, List, ℕ, arith, refl,
  ok, some, suc, zero,
}
use native.Mathlib.Nat.{mod-eq_of_lt}
use ras_os.Disk.{int_end, sector_size}
use ras_os.Disk.Stream.{byte_at}
use ras_os.Fat16.Contents.{read_at_lem}
use ras_os.Fat16.Directory.{size_of_item, count_items, fat16_get_total_items_for_directory}

-- Of `n` items from a position on, those that are in use.
abbrev pub items_in_use : (ℕ → List ℕ) → (n position : ℕ) → ℕ
items_in_use sectors zero position = 0
items_in_use sectors (suc n) position =
    (if byte_at sectors position == 0xE5 then 0 else 1)
    + items_in_use sectors n (position + size_of_item)

count_items-step :
    (fuel : ℕ) (sectors : ℕ → List ℕ) (position i : ℕ)
    → position + size_of_item < int_end
    → count_items (suc fuel) sectors position i ≡ (
        if byte_at sectors position == 0x00
        then some (ok i)
        else count_items fuel sectors
            (position + size_of_item)
            (if byte_at sectors position == 0xE5 then i else i + 1))
unfolding count_items
count_items-step fuel sectors position i small =
    let (st, out) = read_at_lem sectors position size_of_item small in
    rw (st, out, count_items) refl

count_items_lem :
    (n fuel : ℕ) (sectors : ℕ → List ℕ) (position i : ℕ)
    → n < fuel
    → position + n * size_of_item + size_of_item < int_end
    → byte_at sectors (position + n * size_of_item) ≡ 0x00
    → ((k : ℕ) → k < n → byte_at sectors (position + k * size_of_item) ≢ 0x00)
    → count_items fuel sectors position i ≡ some (ok (i + items_in_use sectors n position))
count_items_lem n zero sectors position i h small last before = absurd (omega arith)
count_items_lem zero (suc fuel) sectors position i h small last before =
    let at : byte_at sectors position ≡ 0 = ap (byte_at sectors) (omega arith) ∙ last in
    count_items-step fuel sectors position i (omega arith)
    ∙ rw (eq→== (byte_at sectors position) 0 at) (ap (λ j. some (ok j)) (omega arith))
count_items_lem (suc n) (suc fuel) sectors position i h small last before =
    let first : byte_at sectors position ≢ 0 =
      λ e. before 0 (omega arith) (ap (byte_at sectors) (omega arith) ∙ e) in
    let ih =
      count_items_lem n fuel sectors (position + size_of_item)
        (if byte_at sectors position == 0xE5 then i else i + 1) (omega arith) (omega arith)
        (ap (byte_at sectors) (omega arith) ∙ last)
        (λ k lt e. before (suc k) (omega arith) (ap (byte_at sectors) (omega arith) ∙ e)) in
    count_items-step fuel sectors position i (omega arith)
    ∙ rw (ne→== (byte_at sectors position) 0 first) (ih ∙ ground arith)

-- In a directory whose first item with a 0 is that at index `n` and ends at a position below 2^31, the scan ends, with fuel for the items,
-- and counts those of them that are in use.
pub fat16_get_total_items_lem :
    (n fuel : ℕ) (sectors : ℕ → List ℕ) (sector : ℕ)
    → n < fuel
    → sector * sector_size + n * size_of_item + size_of_item < int_end
    → byte_at sectors (sector * sector_size + n * size_of_item) ≡ 0x00
    → ((k : ℕ) → k < n → byte_at sectors (sector * sector_size + k * size_of_item) ≢ 0x00)
    → fat16_get_total_items_for_directory fuel sectors sector
      ≡ some (ok (items_in_use sectors n (sector * sector_size)))
unfolding fat16_get_total_items_for_directory
fat16_get_total_items_lem n fuel sectors sector h small last before =
    ap (λ p. count_items fuel sectors p 0)
      (mod-eq_of_lt {n = sector * sector_size} {m = 2 ^ 32} (omega arith))
    ∙ count_items_lem n fuel sectors (sector * sector_size) 0 h small last before
    ∙ ap (λ j. some (ok j)) (omega arith)
