-- ===== src/Elf/Sections.antt =====
-- The parts of src/loader/formats/elfloader.c, elf.c and elf.h that process_load does not use: the sections
-- of an image, the test for an executable, the addresses of a file, and elf_close.
use ras_os.Task.{program_virtual_address}
use ras_os.KernelHeap.Blocks.{Blocks, free, free_lem}
use ras_os.Elf.{ElfFile, e_entry, word_at, half_at}
use ras_os.Base.{
  leb, ne→==, ◌&&◌, ◌^◌, ◌≡◌, ◌%◌, ◌==◌, ◌*◌, if◌then◌else◌, ◌+◌, ◌≢◌, Option, Bool, ℕ, List, refl,
  some, none, false, true,
}

pub record Elf32Shdr : Type 0 where
  pub sh_name : ℕ
  pub sh_type : ℕ
  pub sh_flags : ℕ
  pub sh_addr : ℕ
  pub sh_offset : ℕ
  pub sh_size : ℕ
  pub sh_link : ℕ
  pub sh_info : ℕ
  pub sh_addralign : ℕ
  pub sh_entsize : ℕ

abbrev et_exec : ℕ
et_exec = 2

-- More fields of struct elf_header.
abbrev e_type : List ℕ → ℕ
e_type image = half_at image 16

abbrev e_shoff : List ℕ → ℕ
e_shoff image = word_at image 32

abbrev e_shstrndx : List ℕ → ℕ
e_shstrndx image = half_at image 50

unfoldable pub elf_is_executable : List ℕ → Bool
elf_is_executable image = (e_type image == et_exec) && leb program_virtual_address (e_entry image)

unfoldable pub elf_get_entry : List ℕ → ℕ
elf_get_entry image = e_entry image

-- `header` is the address of the image.
unfoldable pub elf_sheader : (header : ℕ) → List ℕ → ℕ
elf_sheader header image = (header + e_shoff image) % 2 ^ 32

-- The entry `index` of the table of sections.
unfoldable pub elf_section : List ℕ → (index : ℕ) → Elf32Shdr
elf_section image index =
    let at = e_shoff image + 40 * index in
    record {
      sh_name = word_at image at;
      sh_type = word_at image (at + 4);
      sh_flags = word_at image (at + 8);
      sh_addr = word_at image (at + 12);
      sh_offset = word_at image (at + 16);
      sh_size = word_at image (at + 20);
      sh_link = word_at image (at + 24);
      sh_info = word_at image (at + 28);
      sh_addralign = word_at image (at + 32);
      sh_entsize = word_at image (at + 36);
    }

unfoldable pub elf_str_table : (header : ℕ) → List ℕ → ℕ
unfolding elf_section
elf_str_table header image = (header + (elf_section image (e_shstrndx image)).sh_offset) % 2 ^ 32

abbrev pub elf_virtual_base : ElfFile → ℕ
elf_virtual_base file = file.virtual_base_address

abbrev pub elf_virtual_end : ElfFile → ℕ
elf_virtual_end file = file.virtual_end_address

abbrev pub elf_phys_base : ElfFile → ℕ
elf_phys_base file = file.physical_base_address

abbrev pub elf_phys_end : ElfFile → ℕ
elf_phys_end file = file.physical_end_address

-- `file` is the block of the structure, or null, and `elf_memory` that of its image, which is taken to be of
-- one block of the heap: of a larger one kfree leaves the rest taken (Heap.Release).
unfoldable pub elf_close : Blocks → (file elf_memory : ℕ) → Option Blocks
elf_close blocks file elf_memory =
    if file == 0
    then some blocks
    else elim (free blocks elf_memory) [ none ↦ none | some b ↦ free b file ]

-- elf_close of a file with an image of one block frees its image and its structure, and nothing else.
pub elf_close_lem :
    (blocks : Blocks) (file elf_memory : ℕ)
    → file ≢ 0
    → file ≢ elf_memory
    → blocks.live file ≡ true
    → blocks.live elf_memory ≡ true
    → (b : Blocks) × (elf_close blocks file elf_memory ≡ some b)
      × ((a : ℕ)
          → b.live a
            ≡ (if a == file then false else if a == elf_memory then false else blocks.live a))
unfolding elf_close
elf_close_lem blocks file elf_memory some_file apart live_file live_image =
    let b1 : Blocks = record blocks {
      live = λ a. if a == elf_memory then false else blocks.live a;
    } in
    (
      record b1 { live = λ a. if a == file then false else b1.live a },
      rw
          (
            ne→== file 0 some_file,
            free_lem blocks elf_memory live_image,
            free_lem b1 file (rw (ne→== file elf_memory apart) live_file),
            elf_close,
          )
          refl,
      λ a. refl,
    )
