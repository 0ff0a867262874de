-- ===== src/Process/Segments.antt =====
-- Where the segments of an ELF file are mapped (process_map_elf of src/task/process.c).
use ras_os.Elf.{Elf32Phdr, ElfFile, e_phnum, elf_phdr_phys_address, elf_program_header}
use ras_os.Paging.{
  Ram, page_size, paging_align_address, paging_align_to_lower_page, paging_get_table_entry,
}
use ras_os.Paging.Layout.{IsDirectory}
use ras_os.Paging.Map.{IsMapped, paging_map_to-IsMapped}
use ras_os.Paging.Set.{IsPage}
use ras_os.Process.{map_segment, map_segments, process_map_elf, segment_flags}
use ras_os.Base.{
  ◌∙◌, dec_lt, subst, ap, ℕ_discrete, Result, ◌*◌, ◌⊎◌, inr, inl, err, ◌%◌, ◌/◌, ◌+◌, ◌-◌, ◌≢◌, ◌^◌,
  ◌≡◌, ◌≤◌, ◌<◌, ℕ, arith, refl, suc, zero, ok,
}

align_lower-IsPage : (v : ℕ) → v < 2 ^ 32 → IsPage (paging_align_to_lower_page v)
unfolding paging_align_to_lower_page
align_lower-IsPage v h = (omega arith, omega arith)

align-IsPage : (v : ℕ) → v < 2 ^ 32 → IsPage (paging_align_address v)
unfolding paging_align_address
align-IsPage v h = ground arith

module _ (file : ElfFile) where
  abbrev phdr_of : ℕ → Elf32Phdr
  phdr_of i = elf_program_header file.image i

  -- The pages of a segment, where they stand in memory, and their end there.
  abbrev pub segment_virt : ℕ → ℕ
  segment_virt i = paging_align_to_lower_page (phdr_of i).p_vaddr

  abbrev pub segment_phys : ℕ → ℕ
  segment_phys i = paging_align_to_lower_page (elf_phdr_phys_address file (phdr_of i))

  abbrev pub segment_phys_end : ℕ → ℕ
  segment_phys_end i =
      paging_align_address
        ((elf_phdr_phys_address file (phdr_of i) + (phdr_of i).p_filesz) % 2 ^ 32)

  abbrev pub segment_length : ℕ → ℕ
  segment_length i = segment_phys_end i - segment_phys i

  -- A page is one of a segment's.
  abbrev pub IsOf : ℕ → ℕ → Type 0
  IsOf w i = (segment_virt i ≤ w) × (w < segment_virt i + segment_length i)

  -- The segment does not wrap around, in memory or in the address space.
  pub record IsSegment (i : ℕ) : Type 0 where
    pub bounded : (phdr_of i).p_vaddr < 2 ^ 32
    pub ends : segment_phys i ≤ segment_phys_end i
    pub fits : segment_virt i + segment_length i ≤ 2 ^ 32

  -- The pages of the segments from `i` on, `rounds` of them, lead to the file; every other leads where it
  -- led.
  pub record AreMapped (ram ram' : Ram) (directory rounds i : ℕ) : Type 0 where
    pub directory_kept : IsDirectory ram' directory
    pub inside :
        (j w : ℕ)
        → i ≤ j
        → j < i + rounds
        → IsPage w
        → IsOf w j
        → paging_get_table_entry ram' directory w
          ≡ segment_phys j + (w - segment_virt j) + segment_flags (phdr_of j)
    pub outside :
        (w : ℕ)
        → IsPage w
        → ((j : ℕ) → i ≤ j → j < i + rounds → ¬ IsOf w j)
        → paging_get_table_entry ram' directory w ≡ paging_get_table_entry ram directory w

  flags_small : (phdr : Elf32Phdr) → segment_flags phdr < page_size
  unfolding segment_flags
  flags_small phdr = ground arith

  phys_small : (phdr : Elf32Phdr) → elf_phdr_phys_address file phdr < 2 ^ 32
  unfolding elf_phdr_phys_address
  phys_small phdr = omega arith

  whole_pages : (i : ℕ) → page_size * (segment_length i / page_size) ≡ segment_length i
  whole_pages i =
      let p = align_lower-IsPage _ (phys_small (phdr_of i)) in
      let q =
        align-IsPage ((elf_phdr_phys_address file (phdr_of i) + (phdr_of i).p_filesz) % 2 ^ 32)
          (omega arith) in
      omega (arith, p.0, q.0)

  outside_one :
      (w i : ℕ)
      → ¬ IsOf w i
      → (w < segment_virt i) ⊎ (segment_virt i + page_size * (segment_length i / page_size) ≤ w)
  outside_one w i out = elim (dec_lt w (segment_virt i)) [
    | yes lt ↦ inl lt
    | no ge ↦ elim (dec_lt w (segment_virt i + segment_length i)) [
      | yes less ↦ absurd (out (omega arith, less))
      | no more ↦ inr (omega (arith, whole_pages i))
    ]
  ]

  map_segments-step :
      (rounds i : ℕ) (ram ram1 : Ram) (directory : ℕ) (r : Result (Unit {0}) × Ram)
      → map_segment ram directory file (phdr_of i) ≡ (ok tt, ram1)
      → map_segments rounds (i + 1) ram1 directory file ≡ r
      → map_segments (suc rounds) i ram directory file ≡ r
  unfolding map_segments
  map_segments-step rounds i ram ram1 directory r e next = ap behind e ∙ next
    where
      behind : Result (Unit {0}) × Ram → Result (Unit {0}) × Ram
      behind r = elim r.0 [
        | err e ↦ (err e, r.1)
        | ok u ↦ map_segments rounds (i + 1) r.1 directory file
      ]

  map_segment_lem :
      (ram : Ram) (directory i : ℕ)
      → IsSegment i
      → IsDirectory ram directory
      → (ram' : Ram) × (map_segment ram directory file (phdr_of i) ≡ (ok tt, ram'))
        × IsMapped ram ram' directory
            (segment_virt i)
            (segment_phys i)
            (segment_length i / page_size)
            (segment_flags (phdr_of i))
  unfolding map_segment
  map_segment_lem ram directory i h d =
      paging_map_to-IsMapped ram directory (segment_virt i) (segment_phys i) (segment_phys_end i)
        (segment_flags (phdr_of i)) d (align_lower-IsPage _ h.bounded)
        (align_lower-IsPage _ (phys_small (phdr_of i))) (align-IsPage _ (omega arith)) h.ends h.fits
        (flags_small (phdr_of i))

  module _ (n : ℕ) (apart : (j k w : ℕ) → j < n → k < n → j ≢ k → IsOf w j → ¬ IsOf w k) where
    -- One segment, and then those behind it.
    then_mapped :
        (rounds i : ℕ) (ram ram1 ram2 : Ram) (directory : ℕ)
        → IsMapped ram ram1 directory
            (segment_virt i)
            (segment_phys i)
            (segment_length i / page_size)
            (segment_flags (phdr_of i))
        → AreMapped ram1 ram2 directory rounds (i + 1)
        → i + suc rounds ≤ n
        → AreMapped ram ram2 directory (suc rounds) i
    then_mapped rounds i ram ram1 ram2 directory m ms few = record {
      directory_kept = ms.directory_kept;
      inside = λ j w lo hi p of. elim (ℕ_discrete i j) [
        | yes e ↦
            subst
              (λ k.
                IsOf w k
                → paging_get_table_entry ram2 directory w
                  ≡ segment_phys k + (w - segment_virt k) + segment_flags (phdr_of k))
              e
              (λ at.
                ms.outside w p (λ k l h. apart i k w (omega arith) (omega arith) (omega arith) at)
                ∙ m.inside w p at.0 (omega (arith, at.1, whole_pages i)))
              of
        | no ne ↦ ms.inside j w (omega arith) (omega arith) p of
      ];
      outside = λ w p out.
          ms.outside w p (λ j lo hi. out j (omega arith) (omega arith))
          ∙ m.outside w p (outside_one w i (out i (omega arith) (omega arith)));
    }

    map_segments_lem :
        (rounds i : ℕ) (ram : Ram) (directory : ℕ)
        → ((j : ℕ) → i ≤ j → j < i + rounds → IsSegment j)
        → i + rounds ≤ n
        → IsDirectory ram directory
        → (ram' : Ram) × (map_segments rounds i ram directory file ≡ (ok tt, ram'))
          × AreMapped ram ram' directory rounds i
    unfolding map_segments
    map_segments_lem zero i ram directory h few d = (
      ram,
      refl,
      record {
        directory_kept = d;
        inside = λ j w lo hi. absurd (omega arith);
        outside = λ w p out. refl;
      },
    )
    map_segments_lem (suc rounds) i ram directory h few d =
        let (ram1, e, m) = map_segment_lem ram directory i (h i (omega arith) (omega arith)) d in
        let (ram2, e2, ms) =
          map_segments_lem rounds (i + 1) ram1 directory
            (λ j lo hi. h j (omega arith) (omega arith)) (omega arith) m.directory_kept in
        (
          ram2,
          map_segments-step rounds i ram ram1 directory _ e e2,
          then_mapped rounds i ram ram1 ram2 directory m ms few,
        )

  -- If no segment of the file wraps around, and no two of them share a page, process_map_elf succeeds, each
  -- page of a segment then leads to the file with the flags of the segment, and every other page leads
  -- where it led.
  pub process_map_elf_lem :
      (ram : Ram) (directory : ℕ)
      → ((j : ℕ) → j < e_phnum file.image → IsSegment j)
      → ((j k w : ℕ)
          → j < e_phnum file.image
          → k < e_phnum file.image
          → j ≢ k
          → IsOf w j
          → ¬ IsOf w k)
      → IsDirectory ram directory
      → (ram' : Ram) × (process_map_elf ram directory file ≡ (ok tt, ram'))
        × AreMapped ram ram' directory (e_phnum file.image) 0
  unfolding process_map_elf
  process_map_elf_lem ram directory h apart d =
      map_segments_lem (e_phnum file.image) apart (e_phnum file.image) 0 ram directory
        (λ j lo hi. h j (omega arith)) (omega arith) d
