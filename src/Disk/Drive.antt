-- ===== src/Disk/Drive.antt =====
-- disk_read_sector of src/disk/disk.c against the behaviour of an ATA drive that is read by 28-bit
-- addresses (https://wiki.osdev.org/ATA_PIO_Mode#28_bit_PIO).
use ras_os.Disk.{disk_read_block}
use ras_os.Base.Bits.{bit_and_mask, bit_or_under}
use ras_os.Disk.Stream.{bytes_from, byte_at}
use ras_os.Base.{
  tabulate-get_or, ◌==◌, if◌then◌else◌, false, tabulate-add, sym, tabulate_cong, bit_or, ◌++◌,
  arith, refl, ok, some, suc, zero, ap, ap₂, ◌∙◌, ◌/◌, bit_and, ◌≢◌, ◌≤◌, ne→==, tabulate, get_or,
  ◌∷◌, ◌<◌, ◌≡◌, length, List, [], arith, refl, some, zero, ◌%◌, ◌^◌, ◌*◌, ◌+◌, ℕ, suc, ok,
}
use ras_os.Disk.Ports.{
  Ports, disk_read_sector, address_sectors, wait_data, copy_words, copy_sectors,
}

-- A transfer under way: the reads of the status until the data is there, the sector, the sectors that
-- are left, and the words of this one that were read.
pub record Transfer : Type 0 where
  pub delay : ℕ
  pub sector : ℕ
  pub left : ℕ
  pub given : ℕ

-- The 28 bits of the address that stand in the registers.
abbrev address_in : (ℕ → ℕ) → ℕ
address_in r = r 0x1F3 + r 0x1F4 * 2 ^ 8 + r 0x1F5 * 2 ^ 16 + r 0x1F6 % 16 * 2 ^ 24

-- What the code relies on.
pub record AtaDrive {D : Type 0} (ports : Ports D) (sectors : ℕ → List ℕ) : Type 0 where
  -- Sectors are 512 bytes.
  pub length-sectors : (lba : ℕ) → length (sectors lba) ≡ 512
  pub sectors-lt : (lba i : ℕ) → get_or (sectors lba) i 0 < 256
  -- The registers hold what was written last.
  pub registers : D → ℕ → ℕ
  pub outb_register :
      (d : D) (p v q : ℕ)
      → (p == 0x1F7) ≡ false
      → registers (ports.outb d p v) q ≡ (if q == p then v else registers d q)
  -- The drive is busy for a bounded number of reads of its status.
  pub patience : ℕ
  pub transfer : D → Transfer
  -- The command to read, with the mode of 28 bits selected.
  pub outb_command :
      (d : D)
      → registers d 0x1F6 / 16 ≡ 0xE
      → 0 < registers d 0x1F2
      → (k : ℕ) × (k ≤ patience)
        × (transfer (ports.outb d 0x1F7 0x20) ≡ record {
          delay = k;
          sector = address_in (registers d);
          left = registers d 0x1F2;
          given = 0;
        })
  -- The status has bit 3 set exactly if there is data.
  pub insb_busy :
      (d : D) (k s n : ℕ)
      → transfer d ≡ record { delay = suc k; sector = s; left = suc n; given = 0 }
      → (bit_and (ports.insb d 0x1F7).0 0x08 ≡ 0)
        × (transfer (ports.insb d 0x1F7).1
            ≡ record { delay = k; sector = s; left = suc n; given = 0 })
  pub insb_ready :
      (d : D) (s n : ℕ)
      → transfer d ≡ record { delay = 0; sector = s; left = suc n; given = 0 }
      → (bit_and (ports.insb d 0x1F7).0 0x08 ≢ 0) × (transfer (ports.insb d 0x1F7).1 ≡ transfer d)
  -- The data register gives the next word of the sector, and behind its last turns to the next one.
  pub insw_word :
      (d : D) (s n g : ℕ)
      → transfer d ≡ record { delay = 0; sector = s; left = suc n; given = g }
      → g < 256
      → (ports.insw d 0x1F0).0
        ≡ get_or (sectors s) (2 * g) 0 + get_or (sectors s) (2 * g + 1) 0 * 256
  pub insw_next :
      (d : D) (s n g : ℕ)
      → transfer d ≡ record { delay = 0; sector = s; left = suc n; given = g }
      → g < 255
      → transfer (ports.insw d 0x1F0).1
        ≡ record { delay = 0; sector = s; left = suc n; given = suc g }
  pub insw_last :
      (d : D) (s n : ℕ)
      → transfer d ≡ record { delay = 0; sector = s; left = suc n; given = 255 }
      → (k : ℕ) × (k ≤ patience)
        × (transfer (ports.insw d 0x1F0).1
            ≡ record { delay = k; sector = suc s; left = n; given = 0 })

module _ {D : Type 0} {ports : Ports D} {sectors : ℕ → List ℕ} (ata : AtaDrive ports sectors) where
  abbrev IsReading : D → (delay sector left given : ℕ) → Type 0
  IsReading d delay sector left given =
      ata.transfer d ≡ record { delay = delay; sector = sector; left = left; given = given }

  -- The two bytes of a word.
  stored :
      (d : D) (s n g : ℕ)
      → g < 256
      → IsReading d 0 s (suc n) g
      → (rest : List ℕ)
      → (ports.insw d 0x1F0).0 % 256 ∷ (ports.insw d 0x1F0).0 / 256 ∷ rest
        ≡ get_or (sectors s) (2 * g) 0 ∷ get_or (sectors s) (2 * g + 1) 0 ∷ rest
  stored d s n g lt h rest =
      let word = ata.insw_word d s n g h lt in
      let low = ata.sectors-lt s (2 * g) in
      let high = ata.sectors-lt s (2 * g + 1) in
      ap₂ (λ a b. a ∷ b ∷ rest) (omega arith) (omega arith)

  -- The words behind the first `g` of a sector.
  copy_words_lem :
      (rounds g : ℕ) (d : D) (s n : ℕ)
      → g + suc rounds ≡ 256
      → IsReading d 0 s (suc n) g
      → ((copy_words ports (suc rounds) d).0
          ≡ tabulate (λ i. get_or (sectors s) i 0) (suc rounds * 2) (2 * g))
        × ((k : ℕ) × (k ≤ ata.patience)
            × IsReading (copy_words ports (suc rounds) d).1 k (suc s) n 0)
  unfolding copy_words
  copy_words_lem zero g d s n e h =
      let last : g ≡ 255 = omega arith in
      let (k, small, next) =
        ata.insw_last d s n
          (h ∙ ap (λ x. record { delay = 0; sector = s; left = suc n; given = x }) last) in
      (stored d s n g (omega arith) h [], (k, small, next))
  copy_words_lem (suc rounds) g d s n e h =
      let next = ata.insw_next d s n g h (omega arith) in
      let (bytes, (k, small, end)) =
        copy_words_lem rounds (suc g) (ports.insw d 0x1F0).1 s n (omega arith) next in
      (
        stored d s n g (omega arith) h (copy_words ports (suc rounds) (ports.insw d 0x1F0).1).0
            ∙ ap (λ rest. get_or (sectors s) (2 * g) 0 ∷ get_or (sectors s) (2 * g + 1) 0 ∷ rest)
                bytes
            ∙ ap
                (λ p.
                  tabulate (λ i. get_or (sectors s) i 0) 2 (2 * g)
                  ++ tabulate (λ i. get_or (sectors s) i 0) (suc rounds * 2) p)
                {x = 2 * suc g} {y = 2 * g + 2} (omega arith)
            ∙ sym (
                tabulate-add (λ i. get_or (sectors s) i 0) 2 (suc rounds * 2) (2 * g)
                  (suc (suc rounds) * 2) (omega arith)),
        (k, small, end),
      )

  wait_data_lem :
      (fuel k : ℕ) (d : D) (s n : ℕ)
      → k < fuel
      → IsReading d k s (suc n) 0
      → (ready : D) × (wait_data ports fuel d ≡ some ready) × IsReading ready 0 s (suc n) 0
  unfolding wait_data
  wait_data_lem zero k d s n lt h = absurd (omega arith)
  wait_data_lem (suc fuel) zero d s n lt h =
      let (data_bit, same) = ata.insb_ready d s n h in
      (
        (ports.insb d 0x1F7).1,
        (rw (ne→== (bit_and (ports.insb d 0x1F7).0 0x08) 0 data_bit) refl),
        same ∙ h,
      )
  wait_data_lem (suc fuel) (suc k) d s n lt h =
      let (busy, next) = ata.insb_busy d k s n h in
      let (ready, found, reading) =
        wait_data_lem fuel k (ports.insb d 0x1F7).1 s n (omega arith) next in
      (ready, (rw (busy) found), reading)

  sector-bytes_from :
      (s : ℕ) → tabulate (λ i. get_or (sectors s) i 0) 512 0 ≡ bytes_from sectors 512 (s * 512)
  unfolding byte_at
  sector-bytes_from s =
      tabulate_cong (λ i. get_or (sectors s) i 0) (byte_at sectors) 512 0 (s * 512)
        (λ i lt.
          let at : (s * 512 + i) / 512 ≡ s = omega arith in
          let off : (s * 512 + i) % 512 ≡ i = omega arith in
          rw (at, off) (ap (λ j. get_or (sectors s) j 0) {x = 0 + i} (omega arith)))

  copy_sectors-suc :
      (fuel n : ℕ) (d ready d' : D) (bytes rest : List ℕ)
      → wait_data ports fuel d ≡ some ready
      → (copy_words ports 256 ready).0 ≡ bytes
      → copy_sectors ports fuel n (copy_words ports 256 ready).1 ≡ some (rest, d')
      → copy_sectors ports fuel (suc n) d ≡ some (bytes ++ rest, d')
  unfolding copy_sectors
  copy_sectors-suc fuel n d ready d' bytes rest found sector later =
      rw (found, later, copy_sectors) (ap (λ b. some (b ++ rest, d')) sector)

  pub copy_sectors_lem :
      (fuel k : ℕ) (d : D) (s n : ℕ)
      → k < fuel
      → ata.patience < fuel
      → IsReading d k s n 0
      → (d' : D) × (copy_sectors ports fuel n d ≡ some (bytes_from sectors (n * 512) (s * 512), d'))
  unfolding copy_sectors
  copy_sectors_lem fuel k d s zero lt patient h = (d, refl)
  copy_sectors_lem fuel k d s (suc n) lt patient h =
      let (ready, found, reading) = wait_data_lem fuel k d s n lt h in
      let (sector, (k', small, next)) = copy_words_lem 255 0 ready s n refl reading in
      let (d', rest) =
        copy_sectors_lem fuel k' (copy_words ports 256 ready).1 (suc s) n (omega arith) patient
          next in
      (
        d',
        copy_sectors-suc fuel n d ready d' (bytes_from sectors 512 (s * 512))
              (bytes_from sectors (n * 512) (suc s * 512)) found (sector ∙ sector-bytes_from s) rest
            ∙ ap
                (λ p. some (bytes_from sectors 512 (s * 512) ++ bytes_from sectors (n * 512) p, d'))
                {x = suc s * 512} {y = s * 512 + 512} (omega arith)
            ∙ ap (λ bytes. some (bytes, d'))
                (sym (
                  tabulate-add (byte_at sectors) 512 (n * 512) (s * 512) (suc n * 512)
                    (omega arith))),
      )

  -- What the registers hold when the command is given.
  registers-address_sectors :
      (d : D) (lba total q : ℕ)
      → ata.registers (address_sectors ports d lba total) q ≡ (
          if q == 0x1F5
          then lba / 2 ^ 16 % 256
          else if q == 0x1F4
          then lba / 2 ^ 8 % 256
          else if q == 0x1F3
          then bit_and lba 0xFF % 256
          else if q == 0x1F2
          then total % 256
          else if q == 0x1F6
          then bit_or (lba / 2 ^ 24) 0xE0 % 256
          else ata.registers d q)
  registers-address_sectors d lba total q =
      let head = ports.outb d 0x1F6 (bit_or (lba / 2 ^ 24) 0xE0 % 256) in
      let count = ports.outb head 0x1F2 (total % 256) in
      let low = ports.outb count 0x1F3 (bit_and lba 0xFF % 256) in
      let middle = ports.outb low 0x1F4 (lba / 2 ^ 8 % 256) in
      rw
        (
          ata.outb_register middle 0x1F5 (lba / 2 ^ 16 % 256) q refl,
          ata.outb_register low 0x1F4 (lba / 2 ^ 8 % 256) q refl,
          ata.outb_register count 0x1F3 (bit_and lba 0xFF % 256) q refl,
          ata.outb_register head 0x1F2 (total % 256) q refl,
          ata.outb_register d 0x1F6 (bit_or (lba / 2 ^ 24) 0xE0 % 256) q refl,
        )
        refl

  address_in-address_sectors :
      (d : D) (lba total : ℕ)
      → lba < 2 ^ 28
      → (ata.registers (address_sectors ports d lba total) 0x1F6 / 16 ≡ 0xE)
        × (address_in (ata.registers (address_sectors ports d lba total)) ≡ lba)
  address_in-address_sectors d lba total small =
      let r = registers-address_sectors d lba total in
      let mask = bit_and_mask 8 lba 0xFF refl in
      let mode = bit_or_under 5 7 (lba / 2 ^ 24) (omega arith) in
      rw (r 0x1F6, r 0x1F5, r 0x1F4, r 0x1F3, mask, mode) (omega arith, omega arith)

  -- A drive that does what is documented gives the bytes of the sectors that are asked for, in order, and
  -- the loops end if they may read the status once more than the drive is ever busy.
  pub disk_read_sector_lem :
      (fuel : ℕ) (d : D) (lba total : ℕ)
      → ata.patience < fuel
      → lba < 2 ^ 28
      → 0 < total
      → total < 256
      → (d' : D) × (disk_read_sector ports fuel d lba total
          ≡ some (ok (bytes_from sectors (total * 512) (lba * 512)), d'))
  unfolding disk_read_sector
  disk_read_sector_lem fuel d lba total patient small some_total few =
      let (mode, address) = address_in-address_sectors d lba total small in
      let count : ata.registers (address_sectors ports d lba total) 0x1F2 ≡ total =
        registers-address_sectors d lba total 0x1F2 ∙ omega arith in
      let (k, waits, reading) =
        ata.outb_command (address_sectors ports d lba total) mode (omega arith) in
      let (d', read) =
        copy_sectors_lem fuel k (ports.outb (address_sectors ports d lba total) 0x1F7 0x20) lba
          total (omega arith) patient
          (reading
            ∙ ap₂ (λ s n. record { delay = k; sector = s; left = n; given = 0 }) address count) in
      (d', rw (read, disk_read_sector) refl)

  -- So one sector is what the streamer is given for `sectors`.
  pub disk_read_sector-disk_read_block :
      (fuel : ℕ) (d : D) (lba : ℕ)
      → ata.patience < fuel
      → lba < 2 ^ 28
      → (d' : D) × (disk_read_sector ports fuel d lba 1 ≡ some (disk_read_block sectors 0 lba, d'))
  unfolding disk_read_block
  disk_read_sector-disk_read_block fuel d lba patient small =
      let (d', read) =
        disk_read_sector_lem fuel d lba 1 patient small (omega arith) (omega arith) in
      (
        d',
        read
            ∙ ap (λ bytes. some (ok bytes, d'))
                (sym (sector-bytes_from lba)
                  ∙ ap (λ n. tabulate (λ i. get_or (sectors lba) i 0) n 0)
                      (sym (ata.length-sectors lba))
                  ∙ tabulate-get_or (sectors lba) 0),
      )
