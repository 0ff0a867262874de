-- ===== src/Elf/Span.antt =====
-- The span of the loaded segments, as src/loader/formats/elfloader.c computes it.
use ras_os.Base.{
  ne→==, ◌∙◌, List, eq→==, refl, suc, zero, subst, ◌%◌, ◌⊎◌, ℕ_discrete, ◌^◌, ◌+◌, ◌≢◌, ◌≤◌, ℕ, ◌<◌,
  ◌≡◌, arith, inr, inl,
}
use ras_os.Elf.{
  loaded_at, elf_process_pheader, elf_process_pheaders, process_from, e_phnum, elf_program_header,
  ElfFile, Elf32Phdr, pt_load, elf_process_phdr_pt_load, with_base, with_end,
}

-- A program header of a loaded segment.
abbrev pub IsLoad : Elf32Phdr → Type 0
IsLoad p = p.p_type ≡ pt_load

-- The base and the end of a file are the lowest address and the highest end of the segments that the
-- first `n` headers load, with the places of those segments in the image; they are 0 without one.
pub record Covers (file : ElfFile) (ph : ℕ → Elf32Phdr) (n : ℕ) : Type 0 where
  pub base_low : (k : ℕ) → k < n → IsLoad (ph k) → file.virtual_base_address ≤ (ph k).p_vaddr
  pub end_high :
      (k : ℕ) → k < n → IsLoad (ph k) → (ph k).p_vaddr + (ph k).p_filesz ≤ file.virtual_end_address
  pub base_is :
      (file.virtual_base_address ≡ 0 × ((k : ℕ) → k < n → (ph k).p_type ≢ pt_load))
      ⊎ ((k : ℕ) × (k < n)
          × IsLoad (ph k)
          × (file.virtual_base_address ≡ (ph k).p_vaddr)
          × (file.physical_base_address ≡ (file.elf_memory + (ph k).p_offset) % 2 ^ 32))
  pub end_is :
      (file.virtual_end_address ≡ 0 × ((k : ℕ) → k < n → (ph k).p_type ≢ pt_load))
      ⊎ ((k : ℕ) × (k < n)
          × IsLoad (ph k)
          × (file.virtual_end_address ≡ (ph k).p_vaddr + (ph k).p_filesz)
          × (file.physical_end_address
              ≡ (file.elf_memory + (ph k).p_offset + (ph k).p_filesz) % 2 ^ 32))

-- A loaded segment does not start at 0 and ends in the address space.
abbrev pub IsPlaced : Elf32Phdr → Type 0
IsPlaced p = (0 < p.p_vaddr) × (p.p_vaddr + p.p_filesz < 2 ^ 32)

-- What one segment does to the base and to the end.
load_base :
    (file : ElfFile) (p : Elf32Phdr)
    → let file' = elf_process_phdr_pt_load file p in
      (file'.virtual_base_address ≡ p.p_vaddr
        × (file'.physical_base_address ≡ (file.elf_memory + p.p_offset) % 2 ^ 32)
        × ((p.p_vaddr ≤ file.virtual_base_address) ⊎ (file.virtual_base_address ≡ 0)))
      ⊎ ((file'.virtual_base_address ≡ file.virtual_base_address)
          × (file'.physical_base_address ≡ file.physical_base_address)
          × (file.virtual_base_address < p.p_vaddr)
          × (0 < file.virtual_base_address))
unfolding elf_process_phdr_pt_load with_base with_end
load_base file p = ground arith

load_end :
    (file : ElfFile) (p : Elf32Phdr)
    → p.p_vaddr + p.p_filesz < 2 ^ 32
    → let file' = elf_process_phdr_pt_load file p in
      (file'.virtual_end_address ≡ p.p_vaddr + p.p_filesz
        × (file'.physical_end_address ≡ (file.elf_memory + p.p_offset + p.p_filesz) % 2 ^ 32)
        × ((file.virtual_end_address ≤ p.p_vaddr + p.p_filesz) ⊎ (file.virtual_end_address ≡ 0)))
      ⊎ ((file'.virtual_end_address ≡ file.virtual_end_address)
          × (file'.physical_end_address ≡ file.physical_end_address)
          × (p.p_vaddr + p.p_filesz < file.virtual_end_address)
          × (0 < file.virtual_end_address))
unfolding elf_process_phdr_pt_load with_base with_end
load_end file p h = ground arith

load_memory :
    (file : ElfFile) (p : Elf32Phdr)
    → (elf_process_phdr_pt_load file p).elf_memory ≡ file.elf_memory
unfolding elf_process_phdr_pt_load with_base with_end
load_memory file p = ground arith

module _ (file : ElfFile) (ph : ℕ → Elf32Phdr) (n : ℕ) (c : Covers file ph n) where
  skip : (ph n).p_type ≢ pt_load → Covers file ph (n + 1)
  skip ne = record {
    base_low = λ k h l. elim (ℕ_discrete k n) [
      | yes e ↦ absurd (ne (subst (λ j. IsLoad (ph j)) e l))
      | no d ↦ c.base_low k (omega arith) l
    ];
    end_high = λ k h l. elim (ℕ_discrete k n) [
      | yes e ↦ absurd (ne (subst (λ j. IsLoad (ph j)) e l))
      | no d ↦ c.end_high k (omega arith) l
    ];
    base_is = elim c.base_is [
      | inl (z, all) ↦ inl (z, none_of all)
      | inr (k, h, l, v, q) ↦ inr (k, omega arith, l, v, q)
    ];
    end_is = elim c.end_is [
      | inl (z, all) ↦ inl (z, none_of all)
      | inr (k, h, l, v, q) ↦ inr (k, omega arith, l, v, q)
    ];
  }
    where
      none_of :
          ((k : ℕ) → k < n → (ph k).p_type ≢ pt_load)
          → (k : ℕ) → k < n + 1
          → (ph k).p_type ≢ pt_load
      none_of all k h = elim (ℕ_discrete k n) [
        | yes e ↦ λ l. ne (subst (λ j. IsLoad (ph j)) e l)
        | no d ↦ all k (omega arith)
      ]

  -- The base is 0 only if no segment has been loaded.
  base_unset :
      ((k : ℕ) → k < n → IsLoad (ph k) → IsPlaced (ph k))
      → file.virtual_base_address ≡ 0
      → (k : ℕ) → k < n
      → (ph k).p_type ≢ pt_load
  base_unset placed z k h l = elim c.base_is [
    | inl (e, all) ↦ all k h l
    | inr (j, hj, lj, v, q) ↦ let w = (placed j hj lj).0 in absurd (omega arith)
  ]

  end_unset :
      ((k : ℕ) → k < n → IsLoad (ph k) → IsPlaced (ph k))
      → file.virtual_end_address ≡ 0
      → (k : ℕ) → k < n
      → (ph k).p_type ≢ pt_load
  end_unset placed z k h l = elim c.end_is [
    | inl (e, all) ↦ all k h l
    | inr (j, hj, lj, v, q) ↦ let w = (placed j hj lj).0 in absurd (omega arith)
  ]

  load :
      ((k : ℕ) → k < n + 1 → IsLoad (ph k) → IsPlaced (ph k))
      → IsLoad (ph n)
      → Covers (elf_process_phdr_pt_load file (ph n)) ph (n + 1)
  load placed l =
      let small = (placed n (omega arith) l).1 in
      let unset = base_unset (λ k h. placed k (omega arith)) in
      let unset' = end_unset (λ k h. placed k (omega arith)) in
      let m = load_memory file (ph n) in
      record {
        base_low = λ k h lk. elim (load_base file (ph n)) [
          | inl (b, q, lo) ↦ elim (ℕ_discrete k n) [
            | yes e ↦ rw e (omega arith)
            | no d ↦ elim lo [
              | inl le ↦ let i = c.base_low k (omega arith) lk in omega arith
              | inr z ↦ absurd (unset z k (omega arith) lk)
            ]
          ]
          | inr (b, q, lt, nz) ↦ elim (ℕ_discrete k n) [
            | yes e ↦ rw e (omega arith)
            | no d ↦ let i = c.base_low k (omega arith) lk in omega arith
          ]
        ];
        end_high = λ k h lk. elim (load_end file (ph n) small) [
          | inl (b, q, lo) ↦ elim (ℕ_discrete k n) [
            | yes e ↦ rw e (omega arith)
            | no d ↦ elim lo [
              | inl le ↦ let i = c.end_high k (omega arith) lk in omega arith
              | inr z ↦ absurd (unset' z k (omega arith) lk)
            ]
          ]
          | inr (b, q, lt, nz) ↦ elim (ℕ_discrete k n) [
            | yes e ↦ rw e (omega arith)
            | no d ↦ let i = c.end_high k (omega arith) lk in omega arith
          ]
        ];
        base_is = elim (load_base file (ph n)) [
          | inl (b, q, lo) ↦ inr (n, omega arith, l, b, rw m q)
          | inr (b, q, lt, nz) ↦ elim c.base_is [
            | inl (z, all) ↦ absurd (omega arith)
            | inr (j, hj, lj, v, r) ↦ inr (j, omega arith, lj, b ∙ v, rw m (q ∙ r))
          ]
        ];
        end_is = elim (load_end file (ph n) small) [
          | inl (b, q, lo) ↦ inr (n, omega arith, l, b, rw m q)
          | inr (b, q, lt, nz) ↦ elim c.end_is [
            | inl (z, all) ↦ absurd (omega arith)
            | inr (j, hj, lj, v, r) ↦ inr (j, omega arith, lj, b ∙ v, rw m (q ∙ r))
          ]
        ];
      }

  step :
      ((k : ℕ) → k < n + 1 → IsLoad (ph k) → IsPlaced (ph k))
      → Covers (elf_process_pheader file (ph n)) ph (n + 1)
  unfolding elf_process_pheader
  step placed = elim (ℕ_discrete (ph n).p_type pt_load) [
    | yes e ↦ rw (eq→== (ph n).p_type pt_load e, elf_process_pheader) (load placed e)
    | no ne ↦ rw (ne→== (ph n).p_type pt_load ne, elf_process_pheader) (skip ne)
  ]

process_from-Covers :
    (rounds i : ℕ) (image : List ℕ) (file : ElfFile)
    → ((k : ℕ)
        → k < i + rounds
        → IsLoad (elf_program_header image k)
        → IsPlaced (elf_program_header image k))
    → Covers file (elf_program_header image) i
    → Covers (process_from rounds i image file) (elf_program_header image) (i + rounds)
unfolding process_from
process_from-Covers zero i image file placed c =
    subst (Covers file (elf_program_header image)) {x = i} (omega arith) c
process_from-Covers (suc rounds) i image file placed c =
    let next = elf_process_pheader file (elf_program_header image i) in
    subst (Covers (process_from rounds (i + 1) image next) (elf_program_header image))
      {x = i + 1 + rounds} (omega arith)
      (process_from-Covers rounds (i + 1) image next (λ k h. placed k (omega arith))
        (step file (elf_program_header image) i c (λ k h. placed k (omega arith))))

-- Behind elf_process_pheaders of a new file, the base and the end are the lowest address and the
-- highest end of the loaded segments, if each starts behind 0 and ends in the address space.
pub elf_process_pheaders-Covers :
    (address : ℕ) (image : List ℕ)
    → ((k : ℕ)
        → k < e_phnum image
        → IsLoad (elf_program_header image k)
        → IsPlaced (elf_program_header image k))
    → Covers
        (elf_process_pheaders (loaded_at address image))
        (elf_program_header image)
        (e_phnum image)
unfolding elf_process_pheaders
elf_process_pheaders-Covers address image placed =
    subst
      (Covers (process_from (e_phnum image) 0 image (loaded_at address image))
        (elf_program_header image))
      {x = 0 + e_phnum image} (omega arith)
      (process_from-Covers (e_phnum image) 0 image (loaded_at address image)
        (λ k h. placed k (omega arith))
        (record {
          base_low = λ k h. absurd (omega arith);
          end_high = λ k h. absurd (omega arith);
          base_is = inl (refl, λ k h. absurd (omega arith));
          end_is = inl (refl, λ k h. absurd (omega arith));
        }))
