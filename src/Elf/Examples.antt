-- ===== src/Elf/Examples.antt =====
-- An ELF image with two segments, at 0x400000 and 0x401000.
use ras_os.Base.{
  false, set, eio, ◌∷◌, Option, ◌<◌, replicate, ◌≡◌, ℕ, List, arith, [], refl, err, ok, some, none,
  suc, zero,
}
use ras_os.PathParser.{is_valid_path}
use ras_os.PathParser.Print.{pathparser_parse_refused}
use ras_os.CString.{strlen, is_digit}
use ras_os.Memory.{memcmp}
use ras_os.Elf.{
  e_phnum, elf_process_phdr_pt_load, elf_process_pheader, elf_process_pheaders, elf_program_header,
  loaded_at, process_from, with_base, with_end,
}
use ras_os.Elf.Span.{Covers, IsLoad, IsPlaced, elf_process_pheaders-Covers}
use ras_os.FileTable.{Filesystem, fopen, fopen_status}

abbrev image : List ℕ
image =
    set
      (set
        (set
          (set (set (set (set (set (set (replicate 116 0) 28 52) 44 2) 52 1) 62 0x40) 68 16) 84 1)
          93 0x10)
        94 0x40)
      100 32

second_segment : (elf_program_header image 1).p_vaddr ≡ 0x401000
unfolding elf_program_header
second_segment = refl

span : (elf_process_pheaders (loaded_at 0x2000000 image)).virtual_end_address ≡ 0x401020
unfolding elf_process_pheaders process_from elf_process_pheader elf_process_phdr_pt_load with_base
    with_end elf_program_header
span = refl

segments-IsPlaced :
    (k : ℕ)
    → k < e_phnum image
    → IsLoad (elf_program_header image k)
    → IsPlaced (elf_program_header image k)
unfolding elf_program_header
segments-IsPlaced zero h l = (omega arith, omega arith)
segments-IsPlaced (suc zero) h l = (omega arith, omega arith)
segments-IsPlaced (suc (suc k)) h l = absurd (omega arith)

elf_process_pheaders-Covers_example :
    Covers
      (elf_process_pheaders (loaded_at 0x2000000 image))
      (elf_program_header image)
      (e_phnum image)
elf_process_pheaders-Covers_example = elf_process_pheaders-Covers 0x2000000 image segments-IsPlaced

-- A file system in which no file can be opened.
abbrev no_files : Filesystem ℕ
no_files = record {
  fs_open = λ path mode. err eio;
  fs_read = λ d size nmemb. (err eio, [], d);
  fs_seek = λ d offset whence. (err eio, d);
  fs_stat = λ d. err eio;
  fs_close = λ d. ok tt;
}

-- A path without a drive.
abbrev some_path : List ℕ
some_path = b'a' ∷ b':' ∷ b'/' ∷ b'a' ∷ []

no_drive : is_valid_path some_path ≡ false
unfolding is_valid_path strlen is_digit memcmp
no_drive = refl

unopened :
    (fopen (some no_files) (replicate {A = Option ℕ} 512 none) some_path (b'r' ∷ 0 ∷ [])).0 ≡ 0
unfolding fopen fopen_status
unopened = rw (pathparser_parse_refused some_path no_drive, fopen, fopen_status) refl
