-- ===== src/Fat16/Chain.antt =====
-- The chains of clusters that src/fs/fat/fat16.c follows.
use ras_os.Base.{
  ◌∙◌, ap, ◌≡◌, get_or, length, ◌*◌, ◌<◌, ◌+◌, ◌/◌, List, ℕ, arith, ok, false, suc, zero,
}
use ras_os.Disk.{sector_size}
use ras_os.Fat16.{FatPrivate, fat16_get_fat_entry, is_stop, follow, fat16_get_cluster_for_offset}

-- The table leads from each of the clusters to the next, by an entry that is not the mark of an end, of
-- a bad or reserved cluster or of an unused one.
abbrev pub IsLinked : (ℕ → List ℕ) → FatPrivate → List ℕ → Type 0
IsLinked sectors private clusters =
    (i : ℕ)
    → i + 1 < length clusters
    → (fat16_get_fat_entry sectors private (get_or clusters i 0) ≡ get_or clusters (i + 1) 0)
      × (is_stop (get_or clusters (i + 1) 0) ≡ false)

follow-IsLinked :
    (rounds i : ℕ) (sectors : ℕ → List ℕ) (private : FatPrivate) (clusters : List ℕ)
    → IsLinked sectors private clusters
    → i + rounds < length clusters
    → follow rounds sectors private (get_or clusters i 0) ≡ ok (get_or clusters (i + rounds) 0)
unfolding follow
follow-IsLinked zero i sectors private clusters linked h =
    ap (λ k. ok (get_or clusters k 0)) {x = i} (omega arith)
follow-IsLinked (suc rounds) i sectors private clusters linked h =
    let (e, go) = linked i (omega arith) in
    let ih = follow-IsLinked rounds (i + 1) sectors private clusters linked (omega arith) in
    rw (e, go, follow) (ih ∙ ap (λ k. ok (get_or clusters k 0)) {x = i + 1 + rounds} (omega arith))

-- In a file whose clusters are linked in this order, an offset inside of them is found in the cluster
-- that holds it.
pub fat16_get_cluster_for_offset_lem :
    (sectors : ℕ → List ℕ) (private : FatPrivate) (clusters : List ℕ) (offset : ℕ)
    → IsLinked sectors private clusters
    → offset / (private.sectors_per_cluster * sector_size) < length clusters
    → fat16_get_cluster_for_offset sectors private (get_or clusters 0 0) offset
      ≡ ok (get_or clusters (offset / (private.sectors_per_cluster * sector_size)) 0)
unfolding fat16_get_cluster_for_offset
fat16_get_cluster_for_offset_lem sectors private clusters offset linked h =
    let n = offset / (private.sectors_per_cluster * sector_size) in
    follow-IsLinked n 0 sectors private clusters linked (omega arith)
    ∙ ap (λ k. ok (get_or clusters k 0)) {x = 0 + n} (omega arith)
