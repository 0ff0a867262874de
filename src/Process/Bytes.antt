-- ===== src/Process/Bytes.antt =====
-- Where the bytes of an ELF file's segments are in the address space that process_map_elf of
-- src/task/process.c builds.
use ras_os.Elf.{ElfFile, Elf32Phdr, e_phnum, elf_program_header, elf_phdr_phys_address}
use ras_os.Paging.{
  Ram, page_size, paging_align_address, paging_align_to_lower_page, paging_get_table_entry,
}
use ras_os.Paging.Layout.{IsDirectory}
use ras_os.Paging.Set.{IsPage}
use ras_os.Process.{process_map_elf, segment_flags}
use ras_os.Process.Segments.{
  process_map_elf_lem, IsOf, IsSegment, segment_virt, segment_phys, segment_phys_end,
}
use ras_os.Base.{
  ap, ◌∙◌, ◌≢◌, ok, bit_and, ◌==◌, if◌then◌else◌, ◌%◌, ◌+◌, ◌-◌, ◌^◌, ◌≡◌, ◌≤◌, ◌<◌, ℕ, arith, refl,
}

-- The page that holds an address.
abbrev pub page_of : ℕ → ℕ
page_of v = v - v % page_size

-- The access that a segment asks for: its pages are present and the user's, which is 1 and 4, and can be
-- written to, which is 2, if the flags of the segment have bit 1.
abbrev pub access_of : (p_flags : ℕ) → ℕ
access_of p_flags = if bit_and p_flags 0x2 == 0 then 0x5 else 0x7

segment_flags_lem : (phdr : Elf32Phdr) → segment_flags phdr ≡ access_of phdr.p_flags
unfolding segment_flags
segment_flags_lem phdr = ground arith

module _ (file : ElfFile) where
  abbrev phdr_of : ℕ → Elf32Phdr
  phdr_of i = elf_program_header file.image i

  -- A page holds bytes of a segment of the file.
  abbrev pub Touches : (w i : ℕ) → Type 0
  Touches w i =
      ((phdr_of i).p_vaddr < w + page_size) × (w < (phdr_of i).p_vaddr + (phdr_of i).p_filesz)

  -- A segment stands at the same place in its pages in the address space and in the file's memory, as ELF has
  -- it, and at no end of either.
  pub record IsLoadable (i : ℕ) : Type 0 where
    pub congruent :
        (phdr_of i).p_vaddr % page_size ≡ (file.elf_memory + (phdr_of i).p_offset) % page_size
    pub in_space : (phdr_of i).p_vaddr + (phdr_of i).p_filesz + page_size ≤ 2 ^ 32
    pub in_memory :
        file.elf_memory + (phdr_of i).p_offset + (phdr_of i).p_filesz + page_size ≤ 2 ^ 32

  -- Each byte of the segments leads to its byte of the file, with the access that the segment asks for, and
  -- every page that holds no byte of them leads where it led.
  pub record AreLoaded (ram ram' : Ram) (directory : ℕ) : Type 0 where
    pub directory_kept : IsDirectory ram' directory
    pub loaded :
        (i o : ℕ)
        → i < e_phnum file.image
        → o < (phdr_of i).p_filesz
        → paging_get_table_entry ram' directory (page_of ((phdr_of i).p_vaddr + o))
          ≡ page_of (file.elf_memory + (phdr_of i).p_offset + o) + access_of (phdr_of i).p_flags
    pub elsewhere :
        (w : ℕ)
        → IsPage w
        → ((i : ℕ) → i < e_phnum file.image → ¬ Touches w i)
        → paging_get_table_entry ram' directory w ≡ paging_get_table_entry ram directory w

  -- Where the pages of a segment start and how long they are, in numbers.
  record IsSpan (i : ℕ) : Type 0 where
    starts : segment_virt file i ≡ (phdr_of i).p_vaddr - (phdr_of i).p_vaddr % page_size
    starts_in_file :
        segment_phys file i
        ≡ file.elf_memory
          + (phdr_of i).p_offset
          - (file.elf_memory + (phdr_of i).p_offset) % page_size
    ends_aligned : segment_phys_end file i % page_size ≡ 0
    ends_behind :
        file.elf_memory + (phdr_of i).p_offset + (phdr_of i).p_filesz ≤ segment_phys_end file i
    ends_soon :
        segment_phys_end file i
        < file.elf_memory + (phdr_of i).p_offset + (phdr_of i).p_filesz + page_size

  segment-IsSpan : (i : ℕ) → IsLoadable i → IsSpan i
  unfolding paging_align_to_lower_page paging_align_address elf_phdr_phys_address
  segment-IsSpan i h = record {
    starts = refl;
    starts_in_file = omega arith;
    ends_aligned = ground arith;
    ends_behind = ground arith;
    ends_soon = ground arith;
  }

  IsLoadable-IsSegment : (i : ℕ) → IsLoadable i → IsSegment file i
  IsLoadable-IsSegment i h =
      let s = segment-IsSpan i h in
      record { bounded = omega arith; ends = omega arith; fits = omega arith }

  -- The pages of a segment are those that hold its bytes.
  page_of-Touches : (i w : ℕ) → IsLoadable i → IsOf file w i → Touches (page_of w) i
  page_of-Touches i w h of =
      let s = segment-IsSpan i h in let v = (phdr_of i).p_vaddr in (omega arith, omega arith)

  page_of-IsOf :
      (i o : ℕ)
      → IsLoadable i
      → o < (phdr_of i).p_filesz
      → IsOf file (page_of ((phdr_of i).p_vaddr + o)) i
  page_of-IsOf i o h lt = let s = segment-IsSpan i h in (omega arith, omega arith)

  place_in_file :
      (i o : ℕ)
      → IsLoadable i
      → o < (phdr_of i).p_filesz
      → segment_phys file i + (page_of ((phdr_of i).p_vaddr + o) - segment_virt file i)
        ≡ page_of (file.elf_memory + (phdr_of i).p_offset + o)
  place_in_file i o h lt = let s = segment-IsSpan i h in omega arith

  IsOf-Touches : (i w : ℕ) → IsLoadable i → IsPage w → IsOf file w i → Touches w i
  IsOf-Touches i w h p of = let s = segment-IsSpan i h in (omega arith, omega arith)

  -- If the segments of the file keep their place in a page, wrap around at no end, and no page holds bytes of
  -- two of them, process_map_elf succeeds. Each byte of a segment that is in the file, which are its first
  -- p_filesz, then leads to its place in the file's memory, in a page that is present and the user's, and can
  -- be written to exactly if the flags of the segment have bit 1; every page that holds no such byte leads
  -- where it led.
  pub process_map_elf-AreLoaded :
      (ram : Ram) (directory : ℕ)
      → ((i : ℕ) → i < e_phnum file.image → IsLoadable i)
      → ((j k w : ℕ)
          → j < e_phnum file.image
          → k < e_phnum file.image
          → j ≢ k
          → Touches w j
          → ¬ Touches w k)
      → IsDirectory ram directory
      → (ram' : Ram) × (process_map_elf ram directory file ≡ (ok tt, ram'))
        × AreLoaded ram ram' directory
  process_map_elf-AreLoaded ram directory all apart d =
      let (ram', e, m) =
        process_map_elf_lem file ram directory (λ i h. IsLoadable-IsSegment i (all i h))
          (λ j k w hj hk ne at also.
            apart j k (page_of w) hj hk ne (page_of-Touches j w (all j hj) at)
              (page_of-Touches k w (all k hk) also))
          d in
      (
        ram',
        e,
        record {
          directory_kept = m.directory_kept;
          loaded = λ i o h lt.
              let p = page_of-IsOf i o (all i h) lt in
              m.inside i (page_of ((phdr_of i).p_vaddr + o)) (omega arith) (omega arith)
                (omega arith, (let q = (all i h).in_space in omega arith)) p
              ∙ ap (λ a. a + segment_flags (phdr_of i)) (place_in_file i o (all i h) lt)
              ∙ ap (λ f. page_of (file.elf_memory + (phdr_of i).p_offset + o) + f)
                  (segment_flags_lem (phdr_of i));
          elsewhere = λ w p out.
              m.outside w p
                (λ j lo hi at. out j (omega arith) (IsOf-Touches j w (all j (omega arith)) p at));
        },
      )
