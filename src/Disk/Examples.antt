-- ===== src/Disk/Examples.antt =====
-- The stream of src/disk/streamer.c on a disk whose sectors repeat their number.
use ras_os.Disk.Ports.{Ports, disk_read_sector}
use ras_os.Disk.Drive.{Transfer, AtaDrive, disk_read_sector_lem}
use ras_os.Disk.{DiskStream, disk_read_block, diskstreamer_read}
use ras_os.Disk.Stream.{bytes_from, diskstreamer_read_lem}
use ras_os.Base.{
  ne→==, ap, ◌<◌, zero, ◌^◌, ◌-◌, ◌*◌, ◌==◌, if◌then◌else◌, get_or, ◌+◌, length-replicate, suc, ◌∷◌,
  ◌≡◌, ◌%◌, replicate, List, ℕ, arith, [], refl, ok, some,
}

abbrev numbered : ℕ → List ℕ
numbered lba = replicate 512 (lba % 256)

abbrev at_510 : DiskStream
at_510 = record { position = 510; disk = 0 }

read_across : (diskstreamer_read 2 numbered at_510 3).out ≡ (0 ∷ 0 ∷ 1 ∷ [])
unfolding diskstreamer_read disk_read_block
read_across = refl

diskstreamer_read_lem_example : diskstreamer_read 2 numbered at_510 3 ≡ record {
  status = some (ok tt);
  out = bytes_from numbered 3 510;
  stream = record { position = 513; disk = 0 };
}
diskstreamer_read_lem_example =
    diskstreamer_read_lem 2 numbered at_510 3 refl (omega arith) (omega arith)

-- A drive with these sectors that is busy for two reads of its status.
record Simulated : Type 0 where
  file : ℕ → ℕ
  now : Transfer

replicate-lt : (n v i : ℕ) → v < 256 → get_or (replicate n v) i 0 < 256
replicate-lt zero v i lt = omega arith
replicate-lt (suc n) v zero lt = lt
replicate-lt (suc n) v (suc i) lt = replicate-lt n v i lt

abbrev begin : (ℕ → ℕ) → Transfer
begin r = record {
  delay = 2;
  sector = r 0x1F3 + r 0x1F4 * 2 ^ 8 + r 0x1F5 * 2 ^ 16 + r 0x1F6 % 16 * 2 ^ 24;
  left = r 0x1F2;
  given = 0;
}

abbrev write_port : Simulated → (port value : ℕ) → Simulated
write_port d port value =
    if port == 0x1F7
    then record d { now = begin d.file }
    else record d { file = λ q. if q == port then value else d.file q }

-- Busy is bit 7, and data is bit 3.
abbrev read_status : Simulated → ℕ → ℕ × Simulated
read_status d port = elim d.now.delay [
  | zero ↦ (0x58, d)
  | suc k ↦ (0x80, record d { now = record d.now { delay = k } })
]

abbrev after_word : Transfer → Transfer
after_word t =
    if t.given == 255
    then record { delay = 1; sector = suc t.sector; left = t.left - 1; given = 0 }
    else record t { given = suc t.given }

abbrev read_data : Simulated → ℕ → ℕ × Simulated
read_data d port = (
  get_or (numbered d.now.sector) (2 * d.now.given) 0
      + get_or (numbered d.now.sector) (2 * d.now.given + 1) 0 * 256,
  record d { now = after_word d.now },
)

abbrev simulated_ports : Ports Simulated
simulated_ports = record { outb = write_port; insb = read_status; insw = read_data }

abbrev simulated : AtaDrive simulated_ports numbered
simulated = record {
  length-sectors = λ lba. length-replicate 512 (lba % 256);
  sectors-lt = λ lba i. replicate-lt 512 (lba % 256) i (omega arith);
  registers = λ d. d.file;
  outb_register = λ d p v q ne. rw ne refl;
  patience = 2;
  transfer = λ d. d.now;
  outb_command = λ d mode some_left. (2, omega arith, refl);
  insb_busy = λ d k s n h. rw h (refl, refl);
  insb_ready = λ d s n h. rw h ((λ e. absurd (omega arith)), refl);
  insw_word = λ d s n g h lt.
      ap
        (λ t.
          get_or (numbered t.sector) (2 * t.given) 0
          + get_or (numbered t.sector) (2 * t.given + 1) 0 * 256)
        h;
  insw_next = λ d s n g h lt. rw (h, ne→== g 255 (omega arith)) refl;
  insw_last = λ d s n h. (
    1,
    omega arith,
    rw h (ap (λ n. record { delay = 1; sector = suc s; left = n; given = 0 }) (omega arith)),
  );
}

abbrev idle : Simulated
idle = record { file = λ q. 0; now = record { delay = 0; sector = 0; left = 0; given = 0 } }

disk_read_sector_lem_example :
    (d' : Simulated) × (disk_read_sector simulated_ports 3 idle 70000 2
      ≡ some (ok (bytes_from numbered 1024 (70000 * 512)), d'))
disk_read_sector_lem_example =
    disk_read_sector_lem simulated 3 idle 70000 2 (omega arith) (omega arith) (omega arith)
      (omega arith)
