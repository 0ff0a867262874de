-- ===== src/Disk/Ports.antt =====
-- disk_read_sector of src/disk/disk.c. The instructions that read and write the ports of the drive are
-- a record of operations on its state.
use ras_os.Base.{
  ◌==◌, ◌∷◌, bit_and, ◌^◌, if◌then◌else◌, Result, ◌/◌, ◌++◌, ◌%◌, Option, List, bit_or, ℕ, [], some,
  none, suc, zero, ok,
}

pub record Ports (D : Type 0) : Type 0 where
  pub outb : D → (port value : ℕ) → D
  pub insb : D → (port : ℕ) → ℕ × D
  pub insw : D → (port : ℕ) → ℕ × D

module _ {D : Type 0} (ports : Ports D) where
  -- What the code writes before it reads: the four parts of the address, the number of sectors and
  -- the command. A port takes a byte.
  abbrev pub address_sectors : D → (lba total : ℕ) → D
  address_sectors d lba total =
      let head = ports.outb d 0x1F6 (bit_or (lba / 2 ^ 24) 0xE0 % 256) in
      let count = ports.outb head 0x1F2 (total % 256) in
      let low = ports.outb count 0x1F3 (bit_and lba 0xFF % 256) in
      let middle = ports.outb low 0x1F4 (lba / 2 ^ 8 % 256) in
      ports.outb middle 0x1F5 (lba / 2 ^ 16 % 256)

  -- The loop that reads the status until the drive has data.
  unfoldable pub wait_data : (fuel : ℕ) → D → Option D
  wait_data zero d = none
  wait_data (suc fuel) d =
      let c = ports.insb d 0x1F7 in
      let rest = wait_data fuel c.1 in if bit_and c.0 0x08 == 0 then rest else some c.1

  -- The words of a sector, each stored with its low byte first.
  unfoldable pub copy_words : (rounds : ℕ) → D → List ℕ × D
  copy_words zero d = ([], d)
  copy_words (suc rounds) d =
      let word = ports.insw d 0x1F0 in
      let rest = copy_words rounds word.1 in (word.0 % 256 ∷ word.0 / 256 ∷ rest.0, rest.1)

  unfoldable pub copy_sectors : (fuel rounds : ℕ) → D → Option (List ℕ × D)
  unfolding wait_data copy_words
  copy_sectors fuel zero d = some ([], d)
  copy_sectors fuel (suc rounds) d = elim (wait_data fuel d) [
    | none ↦ none
    | some ready ↦
        let sector = copy_words 256 ready in
        elim (copy_sectors fuel rounds sector.1) [
          | none ↦ none
          | some rest ↦ some (sector.0 ++ rest.0, rest.1)
        ]
  ]

  -- `none` if a loop that waits ran out of fuel. The address is not negative.
  unfoldable pub disk_read_sector : (fuel : ℕ) → D → (lba total : ℕ) → Option (Result (List ℕ) × D)
  unfolding copy_sectors
  disk_read_sector fuel d lba total =
      elim (copy_sectors fuel total (ports.outb (address_sectors d lba total) 0x1F7 0x20)) [
        | none ↦ none
        | some r ↦ some (ok r.0, r.1)
      ]
