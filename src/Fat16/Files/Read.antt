-- ===== src/Fat16/Files/Read.antt =====
-- Reading an open file of FAT16 (fat16_read of src/fs/fat/fat16.c).
use ras_os.Base.{
  tabulate-add, sym, subst, ap, ◌⊎◌, ◌≤◌, ◌%◌, ◌*◌, get_or, ◌+◌, length, ◌≡◌, ◌<◌, List, ℕ, arith,
  ok, some, suc, zero,
}
use ras_os.Fat16.{FatPrivate, size_of_cluster_bytes}
use ras_os.Fat16.Chain.{IsLinked}
use ras_os.Disk.{int_end}
use ras_os.Fat16.Contents.{AreData, file_byte, file_bytes, fat16_read_internal_lem}
use ras_os.Fat16.Directory.{file_item, fat16_get_first_cluster}
use ras_os.Fat16.Files.{read_elements, fat16_read}

-- Each element starts at the start of a cluster, or lies within one.
abbrev pub AreWithin : FatPrivate → (offset size nmemb : ℕ) → Type 0
AreWithin private offset size nmemb =
    (i : ℕ)
    → i < nmemb
    → ((offset + i * size) % size_of_cluster_bytes private ≡ 0)
      ⊎ ((offset + i * size) % size_of_cluster_bytes private + size ≤ size_of_cluster_bytes private)

module _ (sectors : ℕ → List ℕ) (private : FatPrivate) (clusters : List ℕ)
    (linked : IsLinked sectors private clusters) (on_disk : AreData private clusters)
    (positive : 0 < private.sectors_per_cluster) where
  abbrev size_of_clusters : ℕ
  size_of_clusters = length clusters * size_of_cluster_bytes private

  read_elements_lem :
      (nmemb offset size : ℕ)
      → 0 < size
      → offset + nmemb * size ≤ size_of_clusters
      → offset + nmemb * size < int_end
      → AreWithin private offset size nmemb
      → read_elements sectors private nmemb (get_or clusters 0 0) offset size
        ≡ some (ok tt, file_bytes sectors private clusters (nmemb * size) offset)
  unfolding read_elements
  read_elements_lem zero offset size some_size fits below way =
      ap (λ n. some (ok tt, file_bytes sectors private clusters n offset)) {x = 0} (omega arith)
  read_elements_lem (suc nmemb) offset size some_size fits below way =
      let all : suc nmemb * size ≡ nmemb * size + size = grind arith in
      let first =
        fat16_read_internal_lem sectors private clusters linked on_disk positive offset size
          (omega arith) (omega arith)
          (subst
            (λ o.
              (o % size_of_cluster_bytes private ≡ 0)
              ⊎ (o % size_of_cluster_bytes private + size ≤ size_of_cluster_bytes private))
            {x = offset + 0 * size} (omega arith) (way 0 (omega arith)))
          (omega arith) in
      let ih =
        read_elements_lem nmemb (offset + size) size some_size (omega arith) (omega arith) (λ i lt.
          subst
            (λ o.
              (o % size_of_cluster_bytes private ≡ 0)
              ⊎ (o % size_of_cluster_bytes private + size ≤ size_of_cluster_bytes private))
            {x = offset + suc i * size} (grind arith) (way (suc i) (omega arith))) in
      rw (first, ih, read_elements)
        (ap (λ b. some (ok tt, b))
          (sym (
            tabulate-add (file_byte sectors private clusters) size (nmemb * size) offset
              (suc nmemb * size) (omega arith))))

  -- Reading `nmemb` elements of a file with these clusters, up to a position below 2^31, each of which starts at the start of a cluster
  -- or lies within one, gives the bytes of the file from the descriptor's position on.
  pub fat16_read_lem :
      (item : List ℕ) (pos size nmemb : ℕ)
      → fat16_get_first_cluster item ≡ get_or clusters 0 0
      → 0 < size
      → pos + nmemb * size ≤ size_of_clusters
      → pos + nmemb * size < int_end
      → AreWithin private pos size nmemb
      → fat16_read sectors private (record { item = file_item item; pos = pos }) size nmemb
        ≡ some (ok nmemb, file_bytes sectors private clusters (nmemb * size) pos)
  unfolding fat16_read
  fat16_read_lem item pos size nmemb start some_size fits below way =
      rw (start, read_elements_lem nmemb pos size some_size fits below way, fat16_read)
