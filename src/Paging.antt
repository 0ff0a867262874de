-- ===== src/Paging.antt =====
-- src/memory/paging/paging.c: page directories and page tables. They live in a memory of 32-bit
-- words, read and written at their byte addresses. An address is a 32-bit word, and sums wrap.
mod Examples
pub mod Layout
pub mod Set
pub mod Map
pub mod Create
pub mod Identity
use ras_os.Base.{
  ℕ, zero, suc, ◌+◌, ◌-◌, ◌*◌, ◌/◌, ◌%◌, ◌^◌, Bool, true, false, not, Option, none, some, List, [],
  ◌∷◌, ◌++◌, bit_and, bit_or, Result, ok, err, einvarg, ◌==◌, ltb, if◌then◌else◌, ◌>>=◌,
}

abbrev pub page_size : ℕ
page_size = 4096

abbrev pub page_directory_total_entries : ℕ
page_directory_total_entries = 1024

abbrev pub page_table_total_entries : ℕ
page_table_total_entries = 1024

abbrev pub paging_access_by_all : ℕ
paging_access_by_all = 0x04

abbrev pub paging_is_writable : ℕ
paging_is_writable = 0x02

abbrev pub paging_is_present : ℕ
paging_is_present = 0x01

abbrev pub Ram : Type 0
Ram = ℕ → ℕ

unfoldable pub write_word : Ram → ℕ → ℕ → Ram
write_word ram a v b = if b == a then v else ram b

unfoldable pub paging_is_aligned : ℕ → Bool
paging_is_aligned address = address % page_size == 0

-- The indexes into the directory and into the table.
unfoldable pub paging_get_indexes : ℕ → Result (ℕ × ℕ)
unfolding paging_is_aligned
paging_get_indexes virtual_address =
    let page_number = virtual_address / page_size in
    let directory_index = page_number / page_table_total_entries in
    if paging_is_aligned virtual_address
    then ok (directory_index, page_number - directory_index * page_table_total_entries)
    else err einvarg

-- The table that an entry of a directory points to.
abbrev pub table_of : Ram → ℕ → ℕ → ℕ
table_of ram directory i = bit_and (ram (directory + 4 * i)) 0xfffff000

unfoldable pub paging_set : Ram → ℕ → ℕ → ℕ → Result Ram
unfolding paging_is_aligned
paging_set ram directory virtual_address val =
    if paging_is_aligned virtual_address
    then (do
      (directory_index, table_index) ← paging_get_indexes virtual_address
      ok (write_word ram (table_of ram directory directory_index + 4 * table_index) val))
    else err einvarg

-- The status of paging_get_indexes is dropped: without it both indexes are 0.
unfoldable pub paging_get_table_entry : Ram → ℕ → ℕ → ℕ
paging_get_table_entry ram directory virtual_address = elim (paging_get_indexes virtual_address) [
  | ok (directory_index, table_index) ↦
      ram (table_of ram directory directory_index + 4 * table_index)
  | err e ↦ ram (table_of ram directory 0)
]

unfoldable pub paging_map : Ram → ℕ → ℕ → ℕ → ℕ → Result Ram
paging_map ram directory virt phys flags =
    if (virt % page_size == 0)
    then (if phys % page_size == 0
        then paging_set ram directory virt (bit_or phys flags)
        else err einvarg)
    else err einvarg

-- The pages that were mapped before an error stay mapped: the memory is returned beside the status.
unfoldable pub paging_map_range : (count : ℕ) → Ram → ℕ → ℕ → ℕ → ℕ → Result (Unit {0}) × Ram
paging_map_range zero ram directory virt phys flags = (ok tt, ram)
paging_map_range (suc count) ram directory virt phys flags =
    elim (paging_map ram directory virt phys flags) [
      | err e ↦ (err e, ram)
      | ok ram' ↦
          paging_map_range count ram' directory ((virt + page_size) % 2 ^ 32)
            ((phys + page_size) % 2 ^ 32) flags
    ]

unfoldable pub paging_map_to : Ram → ℕ → ℕ → ℕ → ℕ → ℕ → Result (Unit {0}) × Ram
paging_map_to ram directory virt phys phys_end flags =
    if virt % page_size == 0
    then if phys % page_size == 0
      then if phys_end % page_size == 0
        then if ltb phys_end phys
          then (err einvarg, ram)
          else paging_map_range ((phys_end - phys) / page_size) ram directory virt phys flags
        else (err einvarg, ram)
      else (err einvarg, ram)
    else (err einvarg, ram)

unfoldable pub paging_align_address : ℕ → ℕ
paging_align_address ptr =
    if ptr % page_size == 0 then ptr else (ptr + page_size - ptr % page_size) % 2 ^ 32

unfoldable pub paging_align_to_lower_page : ℕ → ℕ
paging_align_to_lower_page addr = addr - addr % page_size

-- The inner loop of paging_new_4gb, from entry `j` on, with `rounds` entries left.
pub fill_table : (rounds j : ℕ) → Ram → (table offset flags : ℕ) → Ram
fill_table zero j ram table offset flags = ram
fill_table (suc rounds) j ram table offset flags =
    fill_table rounds (j + 1)
      (write_word ram (table + 4 * j) (bit_or ((offset + j * page_size) % 2 ^ 32) flags)) table
      offset flags

-- The outer loop, from directory entry `i` on. `page` gives the address of the zeroed page that each
-- successive kzalloc of the call returns; page 0 is the directory.
pub fill_directory : (rounds i : ℕ) → Ram → (page : ℕ → ℕ) → (offset flags : ℕ) → Ram
fill_directory zero i ram page offset flags = ram
fill_directory (suc rounds) i ram page offset flags =
    fill_directory rounds (i + 1)
      (write_word (fill_table page_table_total_entries 0 ram (page (i + 1)) offset flags)
        (page 0 + 4 * i) (bit_or (bit_or (page (i + 1)) flags) paging_is_writable))
      page ((offset + page_size * page_table_total_entries) % 2 ^ 32) flags

-- The address of the directory, and the memory.
unfoldable pub paging_new_4gb : Ram → (ℕ → ℕ) → ℕ → ℕ × Ram
unfolding fill_directory
paging_new_4gb ram page flags =
    (page 0, fill_directory page_directory_total_entries 0 ram page 0 flags)

-- The addresses that are given to kfree, in order: `rounds` tables from entry `i` on.
tables_from : (rounds i : ℕ) → Ram → ℕ → List ℕ
tables_from zero i ram directory = []
tables_from (suc rounds) i ram directory =
    table_of ram directory i ∷ tables_from rounds (i + 1) ram directory

pub paging_free_4gb : Ram → (directory chunk : ℕ) → List ℕ
paging_free_4gb ram directory chunk = tables_from 1024 0 ram directory ++ (directory ∷ chunk ∷ [])
