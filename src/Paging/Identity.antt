-- ===== src/Paging/Identity.antt =====
-- A chunk that paging_new_4gb of src/memory/paging/paging.c has made maps every page to itself, and
-- paging_free_4gb gives back what was allocated for it.
use ras_os.Base.{
  ◌/◌, bit_or, bit_and, ◌*◌, ◌∙◌, ap₂, ap, ◌^◌, ◌++◌, sym, ◌∷◌, ◌≡◌, ◌+◌, ◌<◌, List, ◌%◌, ℕ, arith,
  [], refl, suc, zero,
}
use ras_os.Base.Bits.{bit_or_low, bit_or-lt, bit_and_page}
use ras_os.Paging.{
  Ram, page_size, fill_directory, paging_new_4gb, table_of, paging_get_table_entry, tables_from,
  paging_free_4gb,
}
use ras_os.Paging.Layout.{IsDirectory, directory_index, table_index, paging_get_table_entry_lem}
use ras_os.Paging.Set.{IsPage}
use ras_os.Paging.Map.{bit_or_page}
use ras_os.Paging.Create.{IsPages, fill_directory-entry, fill_directory-table}

-- The pages from the `k`-th on, `rounds` of them.
pub pages_from : (rounds k : ℕ) → (ℕ → ℕ) → List ℕ
pages_from zero k page = []
pages_from (suc rounds) k page = page k ∷ pages_from rounds (k + 1) page

-- The flags of a directory entry do not reach its address.
page_of_entry :
    (a flags : ℕ)
    → a % page_size ≡ 0
    → a < 2 ^ 32
    → flags < 256
    → bit_and (bit_or (bit_or a flags) 2) 0xfffff000 ≡ a
page_of_entry a flags ha small hf =
    let low = bit_or-lt 12 flags 2 (omega arith) (omega arith) in
    let e : a + flags ≡ a / 4096 * 2 ^ 12 + flags = omega arith in
    ap (λ x. bit_and (bit_or x 2) 0xfffff000) (bit_or_page a flags ha (omega arith) ∙ e)
    ∙ ap (λ x. bit_and x 0xfffff000) (bit_or_low 12 (a / 4096) flags 2 (omega arith) (omega arith))
    ∙ bit_and_page (a / 4096 * 2 ^ 12 + bit_or flags 2)
    ∙ omega arith

module _ (ram : Ram) (page : ℕ → ℕ) (flags : ℕ) (p : IsPages page) (small : flags < 256) where
  -- The memory behind the call.
  abbrev made : Ram
  made = fill_directory 1024 0 ram page 0 flags

  table_of-made : (i : ℕ) → i < 1024 → table_of made (page 0) i ≡ page (i + 1)
  table_of-made i hi =
      ap (λ x. bit_and x 0xfffff000)
        (fill_directory-entry page flags p 1024 0 i ram 0 refl (omega arith) hi)
      ∙ page_of_entry (page (i + 1)) flags (p.aligned (i + 1) (omega arith))
          (p.bounded (i + 1) (omega arith)) small

  made-IsDirectory : IsDirectory made (page 0)
  made-IsDirectory = record {
    aligned = p.aligned 0 (omega arith);
    apart = λ i hi e. absurd (
        omega
          (arith, p.distinct (i + 1) 0 (omega arith) (omega arith) (sym (table_of-made i hi) ∙ e)));
    distinct = λ i j hi hj e. omega (
      arith,
      p.distinct (i + 1) (j + 1) (omega arith) (omega arith)
          (sym (table_of-made i hi) ∙ e ∙ table_of-made j hj),
    );
  }

  made-entry : (v : ℕ) → IsPage v → paging_get_table_entry made (page 0) v ≡ v + flags
  made-entry v pv =
      paging_get_table_entry_lem made (page 0) v pv.0
      ∙ ap (λ t. made (t + 4 * table_index v)) (table_of-made (directory_index v) (omega arith))
      ∙ fill_directory-table page flags p 1024 0 (directory_index v) (table_index v) ram 0 refl
          (omega arith) (omega arith) (omega arith) (omega arith)
      ∙ ap (λ x. bit_or x flags) (omega arith)
      ∙ bit_or_page v flags pv.0 (omega arith)

  tables_from-made :
      (rounds i : ℕ)
      → i + rounds ≡ 1024
      → tables_from rounds i made (page 0) ≡ pages_from rounds (i + 1) page
  unfolding tables_from pages_from
  tables_from-made zero i e = refl
  tables_from-made (suc rounds) i e =
      ap₂ ◌∷◌ (table_of-made i (omega arith)) (tables_from-made rounds (i + 1) (omega arith))

-- Given aligned and distinct pages by the allocator, and flags of 8 bits, paging_new_4gb makes a
-- directory with tables of its own, in which every page has an entry that leads to itself with the
-- flags.
pub paging_new_4gb-identity :
    (ram : Ram) (page : ℕ → ℕ) (flags : ℕ)
    → IsPages page
    → flags < 256
    → IsDirectory (paging_new_4gb ram page flags).1 (paging_new_4gb ram page flags).0
      × ((v : ℕ)
          → IsPage v
          → paging_get_table_entry
              (paging_new_4gb ram page flags).1
              (paging_new_4gb ram page flags).0
              v
            ≡ v + flags)
unfolding paging_new_4gb
paging_new_4gb-identity ram page flags p small =
    (made-IsDirectory ram page flags p small, made-entry ram page flags p small)

-- paging_free_4gb of a new chunk frees each of its 1024 tables once, then the directory, then the
-- chunk.
pub paging_free_4gb-paging_new_4gb :
    (ram : Ram) (page : ℕ → ℕ) (flags chunk : ℕ)
    → IsPages page
    → flags < 256
    → paging_free_4gb (paging_new_4gb ram page flags).1 (paging_new_4gb ram page flags).0 chunk
      ≡ pages_from 1024 1 page ++ (page 0 ∷ chunk ∷ [])
unfolding paging_new_4gb paging_free_4gb
paging_free_4gb-paging_new_4gb ram page flags chunk p small =
    ap (λ l. l ++ (page 0 ∷ chunk ∷ [])) (tables_from-made ram page flags p small 1024 0 refl)
