-- ===== src/Task/Memory.antt =====
-- The memory as src/task/task.c uses it: with the page tables of the kernel or of a task. The words of the
-- page tables and the bytes that programs and the kernel work with are kept apart; the segment registers
-- that kernel_page and user_registers load are not modelled.
use ras_os.Paging.{Ram, page_size, paging_get_table_entry, paging_map, paging_set}
use ras_os.Task.{Task}
use ras_os.Base.{
  eio, enomem, einvarg, leb, ◌==◌, ◌%◌, ◌*◌, ◌+◌, bit_and, ◌-◌, if◌then◌else◌, ℕ, Result, err, suc,
  zero, ok,
}

pub record Machine : Type 0 where
  pub ram : Ram
  pub bytes : ℕ → ℕ
  pub current_directory : ℕ

-- Where the processor finds a virtual address.
unfoldable pub translate : Ram → (directory v : ℕ) → ℕ
translate ram directory v =
    bit_and (paging_get_table_entry ram directory (v - v % page_size)) 0xfffff000 + v % page_size

unfoldable pub paging_switch : Machine → (directory : ℕ) → Machine
paging_switch m directory = record m { current_directory = directory }

-- `kernel_chunk` is the directory of the kernel.
unfoldable pub kernel_page : (kernel_chunk : ℕ) → Machine → Machine
unfolding paging_switch
kernel_page kernel_chunk m = paging_switch m kernel_chunk

unfoldable pub task_page_task : Machine → Task → Machine
unfolding paging_switch
task_page_task m task = paging_switch m task.page_directory

abbrev pub store_byte : (ℕ → ℕ) → ℕ → ℕ → ℕ → ℕ
store_byte bytes a c b = if b == a then c else bytes b

-- strncpy in a memory: the loop from the addresses `dest` and `src` on; what is left is the write of the
-- final 0.
unfoldable pub copy_text : (rounds : ℕ) → (ℕ → ℕ) → (ℕ → ℕ) → (dest src : ℕ) → ℕ → ℕ
copy_text zero at bytes dest src = store_byte bytes (at dest) 0
copy_text (suc rounds) at bytes dest src =
    let rest =
      copy_text rounds at (store_byte bytes (at dest) (bytes (at src))) (dest + 1) (src + 1) in
    if bytes (at src) == 0 then store_byte bytes (at dest) 0 else rest

unfoldable pub strncpy_in : Machine → (dest src count : ℕ) → Machine
strncpy_in m dest src count = record m {
  bytes = copy_text (count - 1) (translate m.ram m.current_directory) m.bytes dest src;
}

-- The memory after paging_map, whose status is dropped.
abbrev pub or_same : Ram → Result Ram → Ram
or_same ram (ok ram') = ram'
or_same ram (err e) = ram

-- The part behind paging_map, which has left the page tables `ram'`: the copy into the buffer with the
-- task's page tables, the entry put back, and the copy from the buffer with the kernel's.
unfoldable pub copy_through :
    (kernel_chunk : ℕ)
    → Machine
    → (directory virtual_addr phys_addr max string_cpy page_table_entry : ℕ) → Ram
    → Result (Unit {0}) × Machine
unfolding kernel_page paging_switch
copy_through kernel_chunk m directory virtual_addr phys_addr max string_cpy page_table_entry ram' =
    let copied = kernel_page kernel_chunk (
      strncpy_in (paging_switch (record m { ram = ram' }) directory) string_cpy virtual_addr max) in
    elim (paging_set copied.ram directory string_cpy page_table_entry) [
      | err e ↦ (err eio, copied)
      | ok restored ↦
          (ok tt, strncpy_in (record copied { ram = restored }) phys_addr string_cpy max)
    ]

-- `string_cpy` is what kzalloc returns, and `m` the memory behind that call.
unfoldable pub copy_string_from_task :
    (kernel_chunk : ℕ)
    → Machine
    → Task
    → (virtual_addr phys_addr max string_cpy : ℕ) → Result (Unit {0}) × Machine
unfolding copy_through
copy_string_from_task kernel_chunk m task virtual_addr phys_addr max string_cpy =
    if leb page_size max
    then (err einvarg, m)
    else if string_cpy == 0
    then (err enomem, m)
    else copy_through kernel_chunk m task.page_directory virtual_addr phys_addr max string_cpy
        (paging_get_table_entry m.ram task.page_directory string_cpy)
        (or_same m.ram (paging_map m.ram task.page_directory string_cpy string_cpy 7))

-- The words on a task's stack, the lowest byte first; the result, and the memory behind the call.
abbrev pub word_in : Machine → ℕ → ℕ
word_in m v =
    let byte = λ (i : ℕ). m.bytes (translate m.ram m.current_directory (v + i)) in
    byte 0 + 256 * byte 1 + 65536 * byte 2 + 16777216 * byte 3

unfoldable pub task_get_stack_item : (kernel_chunk : ℕ) → Machine → Task → (index : ℕ) → ℕ × Machine
unfolding task_page_task kernel_page
task_get_stack_item kernel_chunk m task index =
    let paged = task_page_task m task in
    (word_in paged (task.registers.esp + 4 * index), kernel_page kernel_chunk paged)
