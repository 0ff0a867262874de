-- ===== src/Elf.antt =====
-- src/loader/formats/elfloader.c and src/loader/formats/elf.h: the loader of ELF files. The image of
-- the file is the list of its bytes, which stands at the address `elf_memory`; the fields of its
-- headers are read from the bytes, the lowest first. The allocations are taken to succeed.
pub mod Span
pub mod Load
pub mod Sections
mod Examples
use ras_os.Base.{
  ◌&&◌, ◌||◌, ◌+◌, ◌*◌, ◌%◌, ◌^◌, ◌==◌, leb, ltb, not, if◌then◌else◌, drop, get_or, einformat, ◌∷◌,
  Result, Bool, List, ℕ, Option, [], err, ok, some, none, false, suc, zero,
}
use ras_os.Base.Int.{is_zero, ℤ, pos, negsuc}
use ras_os.Memory.{memcmp}
use ras_os.FileTable.{Filesystem, fopen, fstat, fread, fclose}

pub record ElfFile : Type 0 where
  pub image : List ℕ
  pub elf_memory : ℕ
  pub virtual_base_address : ℕ
  pub virtual_end_address : ℕ
  pub physical_base_address : ℕ
  pub physical_end_address : ℕ

pub record Elf32Phdr : Type 0 where
  pub p_type : ℕ
  pub p_offset : ℕ
  pub p_vaddr : ℕ
  pub p_filesz : ℕ
  pub p_flags : ℕ

abbrev pub pt_load : ℕ
pt_load = 1

abbrev pub half_at : List ℕ → ℕ → ℕ
half_at image i = get_or image i 0 + 256 * get_or image (i + 1) 0

abbrev pub word_at : List ℕ → ℕ → ℕ
word_at image i = half_at image i + 65536 * half_at image (i + 2)

-- The fields of struct elf_header.
abbrev pub e_entry : List ℕ → ℕ
e_entry image = word_at image 24

abbrev pub e_phoff : List ℕ → ℕ
e_phoff image = word_at image 28

abbrev pub e_phnum : List ℕ → ℕ
e_phnum image = half_at image 44

abbrev elf_signature : List ℕ
elf_signature = 0x7f ∷ b'E' ∷ b'L' ∷ b'F' ∷ []

unfoldable pub elf_valid_signature : List ℕ → Bool
elf_valid_signature image = is_zero (memcmp image elf_signature 4)

unfoldable pub elf_valid_class : List ℕ → Bool
elf_valid_class image = (get_or image 4 0 == 0) || (get_or image 4 0 == 1)

unfoldable pub elf_valid_encoding : List ℕ → Bool
elf_valid_encoding image = (get_or image 5 0 == 0) || (get_or image 5 0 == 1)

unfoldable pub elf_has_program_header : List ℕ → Bool
elf_has_program_header image = not (e_phoff image == 0)

unfoldable pub elf_validate_loaded : List ℕ → Result (Unit {0})
elf_validate_loaded image =
    if elf_valid_signature image
      && elf_valid_class image
      && elf_valid_encoding image
      && elf_has_program_header image
    then ok tt
    else err einformat

-- The entry `index` of the table of program headers. The null that elf_pheader gives for an e_phoff of 0 is
-- not reached: elf_validate_loaded refuses such a file.
unfoldable pub elf_program_header : List ℕ → ℕ → Elf32Phdr
elf_program_header image index =
    let at = e_phoff image + 32 * index in
    record {
      p_type = word_at image at;
      p_offset = word_at image (at + 4);
      p_vaddr = word_at image (at + 8);
      p_filesz = word_at image (at + 16);
      p_flags = word_at image (at + 24);
    }

unfoldable pub elf_phdr_phys_address : ElfFile → Elf32Phdr → ℕ
elf_phdr_phys_address file phdr = (file.elf_memory + phdr.p_offset) % 2 ^ 32

-- The two updates, of the base and of the end.
unfoldable pub with_base : ElfFile → Elf32Phdr → ElfFile
with_base file phdr =
    if leb phdr.p_vaddr file.virtual_base_address || (file.virtual_base_address == 0)
    then record file {
      virtual_base_address = phdr.p_vaddr;
      physical_base_address = (file.elf_memory + phdr.p_offset) % 2 ^ 32;
    }
    else file

unfoldable pub with_end : ElfFile → Elf32Phdr → ElfFile
with_end file phdr =
    let end_virtual_address = (phdr.p_vaddr + phdr.p_filesz) % 2 ^ 32 in
    if leb file.virtual_end_address end_virtual_address || (file.virtual_end_address == 0)
    then record file {
      virtual_end_address = end_virtual_address;
      physical_end_address = (file.elf_memory + phdr.p_offset + phdr.p_filesz) % 2 ^ 32;
    }
    else file

unfoldable pub elf_process_phdr_pt_load : ElfFile → Elf32Phdr → ElfFile
unfolding with_base with_end
elf_process_phdr_pt_load file phdr = with_end (with_base file phdr) phdr

-- Its status is always 0.
unfoldable pub elf_process_pheader : ElfFile → Elf32Phdr → ElfFile
elf_process_pheader file phdr =
    if phdr.p_type == pt_load then elf_process_phdr_pt_load file phdr else file

-- The loop from header `i` on, with `rounds` headers left.
pub process_from : (rounds i : ℕ) → List ℕ → ElfFile → ElfFile
process_from zero i image file = file
process_from (suc rounds) i image file =
    process_from rounds (i + 1) image (elf_process_pheader file (elf_program_header image i))

unfoldable pub elf_process_pheaders : ElfFile → ElfFile
unfolding process_from
elf_process_pheaders file = process_from (e_phnum file.image) 0 file.image file

unfoldable pub elf_process_loaded : ElfFile → Result ElfFile
elf_process_loaded file = elim (elf_validate_loaded file.image) [
  | err e ↦ err e
  | ok u ↦ ok (elf_process_pheaders file)
]

-- The file as kzalloc leaves it, once the image is read.
abbrev pub loaded_at : ℕ → List ℕ → ElfFile
loaded_at address image = record {
  image = image;
  elf_memory = address;
  virtual_base_address = 0;
  virtual_end_address = 0;
  physical_base_address = 0;
  physical_end_address = 0;
}

module _ {D : Type 0} (fs : Filesystem D) where
  -- What is behind `out:`, where the status is returned and the status of fclose dropped.
  abbrev closing :
      List (Option D) → ℕ → Result (Option ElfFile) → Result (Option ElfFile) × List (Option D)
  closing table fd res = (res, (fclose fs table (pos fd)).1)

  -- `address` is where kzalloc puts the image. A status of 0 without a file is `ok none`: fopen
  -- returns 0 where it fails.
  unfoldable pub elf_load :
      List (Option D) → (address : ℕ) → List ℕ → Result (Option ElfFile) × List (Option D)
  elf_load table address filename =
      let (fd, table1) = fopen (some fs) table filename (b'r' ∷ 0 ∷ []) in
      if fd == 0 then closing table1 0 (ok none) else elim (fstat fs table1 (pos fd)) [
        | err e ↦ closing table1 fd (err e)
        | ok stat ↦
            let (res, image, table2) = fread fs table1 stat.filesize 1 (pos fd) in
            elim res [
              | err e ↦ closing table2 fd (err e)
              | ok n ↦ elim (elf_process_loaded (loaded_at address image)) [
                | err e ↦ closing table2 fd (err e)
                | ok file ↦ closing table2 fd (ok (some file))
              ]
            ]
      ]
