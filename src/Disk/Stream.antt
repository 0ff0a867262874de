-- ===== src/Disk/Stream.antt =====
-- diskstreamer_read of src/disk/streamer.c reads the bytes of the disk.
use ras_os.Base.{
  tabulate, tabulate-add, sym, ◌-◌, eq→==, Bool-cases, leb, inr, inl, false, true, ◌∙◌, ◌≤◌, ap₂,
  ◌<◌, ne→==, ◌/◌, eio, ◌%◌, ap, ◌*◌, get_or, ◌∷◌, ◌+◌, ◌≡◌, ◌≢◌, List, ℕ, arith, [], refl, err, ok,
  some, suc, zero,
}
use ras_os.Disk.{
  int_end, sector_size, disk_read_block, DiskStream, ReadOutcome, copy_bytes, then_read,
  diskstreamer_read,
}

-- The byte of the disk at a position.
unfoldable pub byte_at : (ℕ → List ℕ) → ℕ → ℕ
byte_at sectors p = get_or (sectors (p / sector_size)) (p % sector_size) 0

-- The `n` bytes from a position on.
abbrev pub bytes_from : (ℕ → List ℕ) → (n position : ℕ) → List ℕ
bytes_from sectors = tabulate (byte_at sectors)

-- Within a sector, the copy from the buffer is the bytes of the disk.
copy_bytes-bytes_from :
    (sectors : ℕ → List ℕ) (n s offset p : ℕ)
    → p ≡ s * sector_size + offset
    → offset + n ≤ sector_size
    → copy_bytes n offset (sectors s) ≡ bytes_from sectors n p
unfolding copy_bytes byte_at
copy_bytes-bytes_from sectors zero s offset p e h = refl
copy_bytes-bytes_from sectors (suc n) s offset p e h =
    let at : p / sector_size ≡ s = omega arith in
    let off : p % sector_size ≡ offset = omega arith in
    ap₂ ◌∷◌ (rw (at, off) refl)
      (copy_bytes-bytes_from sectors n s (offset + 1) (p + 1) (omega arith) (omega arith))

abbrev succeeded : List ℕ → DiskStream → ReadOutcome
succeeded bytes stream = record { status = some (ok tt); out = bytes; stream = stream }

abbrev moved_by : DiskStream → ℕ → DiskStream
moved_by stream n = record stream { position = stream.position + n }

-- A read of `n` bytes, and of the rest behind them.
join_reads :
    (sectors : ℕ → List ℕ) (stream : DiskStream) (n total : ℕ)
    → n ≤ total
    → then_read (bytes_from sectors n stream.position) (
        succeeded
          (bytes_from sectors (total - n) (stream.position + n))
          (moved_by (moved_by stream n) (total - n)))
      ≡ succeeded (bytes_from sectors total stream.position) (moved_by stream total)
join_reads sectors stream n total le =
    let at : stream.position + n + (total - n) ≡ stream.position + total = omega arith in
    let all =
      sym (tabulate-add (byte_at sectors) n (total - n) stream.position total (omega arith)) in
    λ i. succeeded (all i) (record stream { position = at i })

-- One call, in its two cases.
module _ (fuel : ℕ) (sectors : ℕ → List ℕ) (stream : DiskStream) (total : ℕ)
    (d : stream.disk ≡ 0) where
  abbrev offset : ℕ
  offset = stream.position % sector_size

  abbrev buffer : List ℕ
  buffer = sectors (stream.position / sector_size)

  read-within :
      leb int_end (stream.position + total) ≡ false
      → leb sector_size (offset + total) ≡ false
      → diskstreamer_read (suc fuel) sectors stream total
        ≡ succeeded (copy_bytes total offset buffer) (moved_by stream total)
  unfolding diskstreamer_read
  read-within fits w = rw (eq→== stream.disk 0 d, fits, w, diskstreamer_read)

  read-across :
      leb int_end (stream.position + total) ≡ false
      → leb sector_size (offset + total) ≡ true
      → diskstreamer_read (suc fuel) sectors stream total
        ≡ then_read (copy_bytes (sector_size - offset) offset buffer) (
            diskstreamer_read fuel sectors
              (moved_by stream (sector_size - offset))
              (total - (sector_size - offset)))
  unfolding diskstreamer_read
  read-across fits w = rw (eq→== stream.disk 0 d, fits, w, diskstreamer_read)

-- With fuel for each sector that is touched, a read of the disk of the kernel that ends at a position
-- below 2^31 succeeds, gives the
-- `total` bytes of the disk from the position on, across the sectors, and moves the position behind
-- them.
pub diskstreamer_read_lem :
    (fuel : ℕ) (sectors : ℕ → List ℕ) (stream : DiskStream) (total : ℕ)
    → stream.disk ≡ 0
    → stream.position % sector_size + total < fuel * sector_size
    → stream.position + total < int_end
    → diskstreamer_read fuel sectors stream total ≡ record {
      status = some (ok tt);
      out = bytes_from sectors total stream.position;
      stream = record stream { position = stream.position + total };
    }
diskstreamer_read_lem zero sectors stream total d h small = absurd (omega arith)
diskstreamer_read_lem (suc fuel) sectors stream total d h small =
    let fits : leb int_end (stream.position + total) ≡ false = ground arith in
    elim (Bool-cases (leb sector_size (stream.position % sector_size + total))) [
      | inr within ↦
          read-within fuel sectors stream total d fits within
          ∙ ap (λ b. succeeded b (moved_by stream total))
              (copy_bytes-bytes_from sectors total (stream.position / sector_size)
                (stream.position % sector_size) stream.position (omega arith) (ground arith))
      | inl across ↦
          let n = sector_size - stream.position % sector_size in
          let le : n ≤ total = ground arith in
          read-across fuel sectors stream total d fits across
          ∙ ap₂ then_read
              (copy_bytes-bytes_from sectors n (stream.position / sector_size)
                (stream.position % sector_size) stream.position (omega arith) (omega arith))
              (diskstreamer_read_lem fuel sectors (moved_by stream n) (total - n) d (omega arith)
                (omega arith))
          ∙ join_reads sectors stream n total le
    ]

-- A read of another disk fails and moves nothing.
pub diskstreamer_read-eio :
    (fuel : ℕ) (sectors : ℕ → List ℕ) (stream : DiskStream) (total : ℕ)
    → stream.disk ≢ 0
    → diskstreamer_read (suc fuel) sectors stream total
      ≡ record { status = some (err eio); out = []; stream = stream }
unfolding diskstreamer_read disk_read_block
diskstreamer_read-eio fuel sectors stream total ne = rw (ne→== stream.disk 0 ne, diskstreamer_read)
