-- ===== src/Paging/Layout.antt =====
-- Where the words of a directory and of its tables lie (src/memory/paging/paging.c).
use ras_os.Base.{ℕ, ◌+◌, ◌*◌, ◌/◌, ◌%◌, ◌<◌, ◌≡◌, ◌≢◌, ok, arith}
use ras_os.Base.Bits.{bit_and_page}
use ras_os.Paging.{
  Ram, page_size, table_of, write_word, paging_get_indexes, paging_set, paging_get_table_entry,
}

abbrev pub directory_index : ℕ → ℕ
directory_index v = v / 4194304

abbrev pub table_index : ℕ → ℕ
table_index v = v / page_size % 1024

-- The tables of a directory are pages of their own: none is the page of the directory, and no two are
-- the same.
pub record IsDirectory (ram : Ram) (directory : ℕ) : Type 0 where
  pub aligned : directory % page_size ≡ 0
  pub apart : (i : ℕ) → i < 1024 → table_of ram directory i ≢ directory
  pub distinct :
      (i j : ℕ) → i < 1024 → j < 1024 → table_of ram directory i ≡ table_of ram directory j → i ≡ j

pub table_of-aligned : (ram : Ram) (directory i : ℕ) → table_of ram directory i % page_size ≡ 0
table_of-aligned ram directory i = rw (bit_and_page (ram (directory + 4 * i))) (omega arith)

-- The word that holds the entry of `v`.
abbrev pub entry_address : Ram → ℕ → ℕ → ℕ
entry_address ram directory v = table_of ram directory (directory_index v) + 4 * table_index v

pub paging_get_indexes_lem :
    (v : ℕ) → v % page_size ≡ 0 → paging_get_indexes v ≡ ok (directory_index v, table_index v)
unfolding paging_get_indexes
paging_get_indexes_lem v h = ground arith

pub paging_get_table_entry_lem :
    (ram : Ram) (directory v : ℕ)
    → v % page_size ≡ 0
    → paging_get_table_entry ram directory v ≡ ram (entry_address ram directory v)
unfolding paging_get_table_entry
paging_get_table_entry_lem ram directory v h =
    rw (paging_get_indexes_lem v h, paging_get_table_entry)

pub paging_set_lem :
    (ram : Ram) (directory v val : ℕ)
    → v % page_size ≡ 0
    → paging_set ram directory v val ≡ ok (write_word ram (entry_address ram directory v) val)
unfolding paging_set
paging_set_lem ram directory v val h = ground (arith, paging_get_indexes_lem v h)
