-- ===== src/Paging/Set.antt =====
-- paging_set and paging_get_table_entry of src/memory/paging/paging.c: a page table as a map.
use ras_os.Base.{
  eq→==, ℕ_discrete, ap, ◌∙◌, ◌≢◌, sym, ◌*◌, ◌==◌, ◌+◌, if◌then◌else◌, ne→==, ok, arith, ℕ, ◌%◌,
  ◌^◌, ◌<◌, ◌≡◌,
}
use ras_os.Paging.{Ram, page_size, table_of, write_word, paging_set, paging_get_table_entry}
use ras_os.Paging.Layout.{
  IsDirectory, directory_index, table_index, table_of-aligned, entry_address, paging_set_lem,
  paging_get_table_entry_lem,
}

-- The memory with the entry of `v` set.
abbrev pub with_entry : Ram → ℕ → ℕ → ℕ → Ram
with_entry ram directory v val = write_word ram (entry_address ram directory v) val

-- The address of a page.
abbrev pub IsPage : ℕ → Type 0
IsPage v = (v % page_size ≡ 0) × (v < 2 ^ 32)

module _ (ram : Ram) (directory : ℕ) (d : IsDirectory ram directory) where
  -- A word of a table is no word of the directory.
  table_word-ne :
      (i k j : ℕ)
      → i < 1024
      → k < 1024
      → j < 1024
      → table_of ram directory i + 4 * k ≢ directory + 4 * j
  table_word-ne i k j hi hk hj e =
      d.apart i hi (omega (arith, table_of-aligned ram directory i, d.aligned))

  -- Setting an entry leaves the directory.
  pub table_of-with_entry :
      (v val j : ℕ)
      → v < 2 ^ 32
      → j < 1024
      → table_of (with_entry ram directory v val) directory j ≡ table_of ram directory j
  unfolding write_word
  table_of-with_entry v val j hv hj =
      let ne = table_word-ne (directory_index v) (table_index v) j (omega arith) (omega arith) hj in
      rw (ne→== (directory + 4 * j) (entry_address ram directory v) (λ e. ne (sym e)))

  -- Setting an entry leaves a directory with tables of their own.
  pub with_entry-IsDirectory :
      (v val : ℕ) → v < 2 ^ 32 → IsDirectory (with_entry ram directory v val) directory
  with_entry-IsDirectory v val hv = record {
    aligned = d.aligned;
    apart = λ i hi. rw (table_of-with_entry v val i hv hi) (d.apart i hi);
    distinct = λ i j hi hj.
        rw (table_of-with_entry v val i hv hi, table_of-with_entry v val j hv hj)
          (d.distinct i j hi hj);
  }

  -- Two pages have their entries in two words.
  entry_address-injective :
      (v w : ℕ)
      → IsPage v
      → IsPage w
      → entry_address ram directory v ≡ entry_address ram directory w
      → v ≡ w
  entry_address-injective v w pv pw e =
      let same_table : table_of ram directory (directory_index v)
          ≡ table_of ram directory (directory_index w) =
        omega (
          arith,
          table_of-aligned ram directory (directory_index v),
          table_of-aligned ram directory (directory_index w),
        ) in
      let same =
        d.distinct (directory_index v) (directory_index w) (omega arith) (omega arith) same_table in
      omega arith

  -- Reading the entry of a page behind a write of the entry of a page.
  pub get-with_entry :
      (v val w : ℕ)
      → IsPage v
      → IsPage w
      → paging_get_table_entry (with_entry ram directory v val) directory w
        ≡ (if w == v then val else paging_get_table_entry ram directory w)
  unfolding write_word
  get-with_entry v val w pv pw =
      let after =
        paging_get_table_entry_lem (with_entry ram directory v val) directory w pw.0
        ∙ ap (λ t. with_entry ram directory v val (t + 4 * table_index w))
            (table_of-with_entry v val (directory_index w) pv.1 (omega arith)) in
      after ∙ (elim (ℕ_discrete w v) [
        | yes e ↦ rw (
          eq→== w v e,
          write_word,
          eq→== (entry_address ram directory w) (entry_address ram directory v)
              (ap (entry_address ram directory) e),
        )
        | no ne ↦ rw (
          ne→== w v ne,
          write_word,
          ne→== (entry_address ram directory w) (entry_address ram directory v)
              (λ q. ne (entry_address-injective w v pw pv q)),
          paging_get_table_entry_lem ram directory w pw.0,
        )
      ])

-- paging_set of a page succeeds; paging_get_table_entry then gives the value for that page and what
-- it gave before for every other page, and the tables are still pages of their own.
pub paging_get_table_entry-paging_set :
    (ram : Ram) (directory v val : ℕ)
    → IsDirectory ram directory
    → IsPage v
    → (ram' : Ram) × (paging_set ram directory v val ≡ ok ram')
      × IsDirectory ram' directory
      × ((w : ℕ)
          → IsPage w
          → paging_get_table_entry ram' directory w
            ≡ (if w == v then val else paging_get_table_entry ram directory w))
paging_get_table_entry-paging_set ram directory v val d pv = (
  with_entry ram directory v val,
  paging_set_lem ram directory v val pv.0,
  with_entry-IsDirectory ram directory d v val pv.1,
  λ w pw. get-with_entry ram directory d v val w pv pw,
)
