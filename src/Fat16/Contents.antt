-- ===== src/Fat16/Contents.antt =====
-- The contents of a file of FAT16, as src/fs/fat/fat16.c reads them.
use ras_os.Base.{
  ◌^◌, leb, false, tabulate-add, lt→ltb, dec_lt, ge→ltb, ◌-◌, ◌⊎◌, sym, length, ◌∙◌, ◌<◌, inr, inl,
  suc, zero, tabulate_cong, ◌%◌, ◌*◌, ap, ◌≤◌, ◌/◌, ◌+◌, get_or, ◌≡◌, tabulate, List, ℕ, arith,
  refl, ok, some,
}
use native.Mathlib.Nat.{
  add-mul, add-mul-mod_self_right, mul-add-div_right, mul-add-mod_self_right, mod-eq_of_lt,
  div-eq_of_lt, div-lt_iff_lt-mul, div-add-mod', mod-lt,
}
use ras_os.Disk.{int_end, ReadOutcome, sector_size}
use ras_os.Disk.Stream.{byte_at, bytes_from, diskstreamer_read_lem}
use ras_os.Fat16.{
  FatPrivate, size_of_cluster_bytes, fat16_cluster_to_sector, fat16_get_cluster_for_offset, read_at,
  behind, fat16_read_internal_from_stream, fat16_read_internal,
}
use ras_os.Fat16.Chain.{IsLinked, fat16_get_cluster_for_offset_lem}

-- Division by the size of a cluster.
quotient_of : (q c r : ℕ) → r < c → ((q * c + r) / c ≡ q) × ((q * c + r) % c ≡ r)
quotient_of q c r h = (
  mul-add-div_right {m = c} (omega arith) q r ∙ omega (arith, div-eq_of_lt {n = r} {m = c} h),
  mul-add-mod_self_right q c r ∙ mod-eq_of_lt h,
)

-- Where a cluster starts on the disk: the data area starts behind the root directory, with cluster 2, and
-- has the clusters one behind the other.
abbrev pub cluster_position : FatPrivate → (cluster : ℕ) → ℕ
cluster_position private cluster =
    private.ending_sector_pos * sector_size + (cluster - 2) * size_of_cluster_bytes private

-- The clusters are those of the data area, and end at positions that are an `int`.
abbrev pub AreData : FatPrivate → List ℕ → Type 0
AreData private clusters =
    (i : ℕ)
    → i < length clusters
    → (2 ≤ get_or clusters i 0)
      × (cluster_position private (get_or clusters i 0) + size_of_cluster_bytes private < int_end)

-- There the code finds the cluster.
pub fat16_cluster_to_sector_lem :
    (private : FatPrivate) (cluster : ℕ)
    → 2 ≤ cluster
    → cluster_position private cluster + size_of_cluster_bytes private < int_end
    → fat16_cluster_to_sector private cluster * sector_size ≡ cluster_position private cluster
unfolding fat16_cluster_to_sector
fat16_cluster_to_sector_lem private cluster from_two h =
    let spc = private.sectors_per_cluster in
    let start = private.ending_sector_pos + (cluster - 2) * spc in
    let all : start * sector_size ≡ cluster_position private cluster = grind arith in
    let small : start < 2 ^ 32 = omega (arith, all) in
    let split : cluster * spc ≡ (cluster - 2) * spc + 2 * spc =
      ap (λ n. n * spc) {x = cluster} {y = cluster - 2 + 2} (omega arith)
      ∙ add-mul (cluster - 2) 2 spc in
    let wrapped : private.ending_sector_pos + cluster * spc + (2 ^ 32 - 2 * spc)
        ≡ start + 1 * 2 ^ 32 =
      omega (arith, split) in
    ap (λ n. n % 2 ^ 32 * sector_size) wrapped
    ∙ ap (λ n. n * sector_size)
        (add-mul-mod_self_right start 1 (2 ^ 32) ∙ mod-eq_of_lt {n = start} {m = 2 ^ 32} small)
    ∙ all

module _ (sectors : ℕ → List ℕ) (private : FatPrivate) (clusters : List ℕ) where
  -- Where the byte of a file at an offset stands on the disk, for a file with these clusters.
  abbrev pub position_of : ℕ → ℕ
  position_of offset =
      cluster_position private (get_or clusters (offset / size_of_cluster_bytes private) 0)
      + offset % size_of_cluster_bytes private

  -- The bytes of the file.
  unfoldable pub file_byte : ℕ → ℕ
  file_byte offset = byte_at sectors (position_of offset)

  abbrev pub file_bytes : (n offset : ℕ) → List ℕ
  file_bytes = tabulate file_byte

  -- Within a cluster they are those of the disk, one behind the other.
  file_bytes-in_cluster :
      (n q r : ℕ)
      → r + n ≤ size_of_cluster_bytes private
      → file_bytes n (q * size_of_cluster_bytes private + r)
        ≡ bytes_from sectors n (cluster_position private (get_or clusters q 0) + r)
  unfolding file_byte
  file_bytes-in_cluster n q r h = tabulate_cong file_byte (byte_at sectors) n _ _ (λ i lt.
      let (d, m) = quotient_of q (size_of_cluster_bytes private) (r + i) (omega arith) in
      let at : q * size_of_cluster_bytes private + r + i
          ≡ q * size_of_cluster_bytes private + (r + i) =
        omega arith in
      rw (at, d, m) (ap (byte_at sectors) (omega arith)))

-- A read by a stream at positions that are an `int` gives the bytes of the disk.
pub read_at_lem :
    (sectors : ℕ → List ℕ) (position total : ℕ)
    → position + total < int_end
    → ((read_at sectors position total).status ≡ some (ok tt))
      × ((read_at sectors position total).out ≡ bytes_from sectors total position)
unfolding read_at
read_at_lem sectors position total small =
    let r =
      diskstreamer_read_lem (total / sector_size + 2) sectors
        (record { position = position; disk = 0 }) total refl (omega arith) small in
    (ap (λ (o : ReadOutcome). o.status) r, ap (λ (o : ReadOutcome). o.out) r)

-- One call, for a file with these clusters.
module _ (sectors : ℕ → List ℕ) (private : FatPrivate) (clusters : List ℕ)
    (linked : IsLinked sectors private clusters) (on_disk : AreData private clusters)
    (positive : 0 < private.sectors_per_cluster) where
  abbrev pub size : ℕ
  size = size_of_cluster_bytes private

  abbrev start : ℕ
  start = get_or clusters 0 0

  -- What the read of the first part stores.
  first_part :
      (offset n : ℕ)
      → offset % size + n ≤ size
      → bytes_from sectors n (position_of sectors private clusters offset)
        ≡ file_bytes sectors private clusters n offset
  first_part offset n h =
      let at = div-add-mod' offset size in
      sym (
        ap (file_bytes sectors private clusters n) (sym at)
        ∙ file_bytes-in_cluster sectors private clusters n (offset / size) (offset % size) h)

  cluster_found :
      (offset : ℕ)
      → offset < length clusters * size
      → fat16_get_cluster_for_offset sectors private start offset
        ≡ ok (get_or clusters (offset / size) 0)
  cluster_found offset h =
      fat16_get_cluster_for_offset_lem sectors private clusters offset linked
        ((div-lt_iff_lt-mul {k = size} {x = offset} {y = length clusters} (omega arith)).1 h)

  data_at :
      (offset : ℕ)
      → offset < length clusters * size
      → (fat16_cluster_to_sector private (get_or clusters (offset / size) 0) * sector_size
          ≡ cluster_position private (get_or clusters (offset / size) 0))
        × (cluster_position private (get_or clusters (offset / size) 0) + size < int_end)
  data_at offset h =
      let (from_two, small) =
        on_disk (offset / size)
          ((div-lt_iff_lt-mul {k = size} {x = offset} {y = length clusters} (omega arith)).1 h) in
      (
        fat16_cluster_to_sector_lem private (get_or clusters (offset / size) 0) from_two small,
        small,
      )

  -- A call that reads all, and a call that reads a cluster's bytes and goes on.
  read_last :
      (fuel offset total : ℕ)
      → offset < length clusters * size
      → offset % size + total ≤ size
      → offset + total < int_end
      → fat16_read_internal_from_stream (suc fuel) sectors private start offset total
        ≡ some (ok tt, file_bytes sectors private clusters total offset)
  unfolding fat16_read_internal_from_stream
  read_last fuel offset total inside h below =
      let fits : leb int_end (offset + total) ≡ false = ground arith in
      let (at, small) = data_at offset inside in
      let e = ge→ltb size total (omega arith) in
      let z = ge→ltb 0 (total - total) (omega arith) in
      let (st, out) =
        read_at_lem sectors (position_of sectors private clusters offset) total (omega arith) in
      rw (
        fits,
        cluster_found offset inside,
        at,
        e,
        z,
        st,
        out,
        first_part offset total h,
        fat16_read_internal_from_stream,
      )

  read_more :
      (fuel offset total : ℕ)
      → offset < length clusters * size
      → offset % size ≡ 0
      → size < total
      → offset + total < int_end
      → fat16_read_internal_from_stream (suc fuel) sectors private start offset total
        ≡ behind (file_bytes sectors private clusters size offset) (
            fat16_read_internal_from_stream fuel sectors private start
              (offset + size)
              (total - size))
  unfolding fat16_read_internal_from_stream
  read_more fuel offset total inside a h below =
      let fits : leb int_end (offset + total) ≡ false = ground arith in
      let (at, small) = data_at offset inside in
      let e = lt→ltb size total h in
      let z = lt→ltb 0 (total - size) (omega arith) in
      let (st, out) =
        read_at_lem sectors (position_of sectors private clusters offset) size (omega arith) in
      rw (
        fits,
        cluster_found offset inside,
        at,
        e,
        z,
        st,
        out,
        first_part offset size (omega arith),
        fat16_read_internal_from_stream,
      )

  -- A read that starts at the start of a cluster, or stays within one, gives the bytes of the file,
  -- with fuel for the clusters.
  read_from_stream :
      (fuel offset total : ℕ)
      → offset < length clusters * size
      → offset + total ≤ length clusters * size
      → (offset % size ≡ 0) ⊎ (offset % size + total ≤ size)
      → total < fuel * size
      → offset + total < int_end
      → fat16_read_internal_from_stream fuel sectors private start offset total
        ≡ some (ok tt, file_bytes sectors private clusters total offset)
  read_from_stream zero offset total inside fits way h below = absurd (omega arith)
  read_from_stream (suc fuel) offset total inside fits way h below = elim (dec_lt size total) [
    | no le ↦
        read_last fuel offset total inside (elim way [ inl a ↦ omega arith | inr b ↦ b ]) below
    | yes more ↦
        let a : offset % size ≡ 0 = elim way [ inl a ↦ a | inr b ↦ absurd (omega arith) ] in
        let less : total - size < fuel * size = grind arith in
        let next : (offset + size) % size ≡ 0 =
          ap (λ n. (offset + n) % size) {y = 1 * size} (omega arith)
          ∙ add-mul-mod_self_right offset 1 size
          ∙ a in
        read_more fuel offset total inside a more below
        ∙ ap (behind (file_bytes sectors private clusters size offset)) (
            read_from_stream fuel (offset + size) (total - size) (omega arith) (omega arith)
              (inl next) less (omega arith))
        ∙ ap (λ b. some (ok tt, b))
            (sym (
              tabulate-add (file_byte sectors private clusters) size (total - size) offset total
                (omega arith)))
  ]

  -- In a file whose clusters are linked in this order, of at least a sector each, and in the data area at
  -- positions below 2^31, a read inside of the clusters that ends at an offset below 2^31 and starts at the start of a cluster, or stays within one, succeeds and gives the bytes of
  -- the file, across the clusters.
  pub fat16_read_internal_lem :
      (offset total : ℕ)
      → offset < length clusters * size
      → offset + total ≤ length clusters * size
      → (offset % size ≡ 0) ⊎ (offset % size + total ≤ size)
      → offset + total < int_end
      → fat16_read_internal sectors private start offset total
        ≡ some (ok tt, file_bytes sectors private clusters total offset)
  unfolding fat16_read_internal
  fat16_read_internal_lem offset total inside fits way below =
      let at = div-add-mod' total size in
      let small = mod-lt total {m = size} (omega arith) in
      let enough : total < suc (total / size) * size = grind arith in
      read_from_stream (suc (total / size)) offset total inside fits way enough below

  -- At positions that are an `int`, a read of at most a cluster's bytes takes them from the disk in one piece, also where it goes past
  -- the end of its cluster: what is behind that is not the file's next cluster, but the next on the disk.
  pub fat16_read_internal_runs_over :
      (offset total : ℕ)
      → offset < length clusters * size
      → total ≤ size
      → offset + total < int_end
      → position_of sectors private clusters offset + total < int_end
      → fat16_read_internal sectors private start offset total
        ≡ some (ok tt, bytes_from sectors total (position_of sectors private clusters offset))
  unfolding fat16_read_internal fat16_read_internal_from_stream
  fat16_read_internal_runs_over offset total inside h below small =
      let fits : leb int_end (offset + total) ≡ false = ground arith in
      let (at, ends) = data_at offset inside in
      let e = ge→ltb size total h in
      let z = ge→ltb 0 (total - total) (omega arith) in
      let (st, out) =
        read_at_lem sectors (position_of sectors private clusters offset) total small in
      rw (fits, cluster_found offset inside, at, e, z, st, out, fat16_read_internal_from_stream)
