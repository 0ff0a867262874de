-- ===== src/Heap.antt =====
-- src/memory/heap/heap.c: the block allocator. The table's entries are a list of bytes; an address
-- and a size are 32-bit words, and sums of them wrap. A status `-e` is `err e`, and the null pointer
-- is the address 0.
pub mod Search
mod Examples
pub mod Mark
pub mod Malloc
pub mod Release
pub mod Disjoint
use ras_os.Base.{
  ℕ, zero, suc, ◌+◌, ◌-◌, ◌*◌, ◌/◌, ◌%◌, ◌^◌, Bool, true, false, not, Option, none, some, List,
  bit_and, bit_or, Result, ok, err, einvarg, enomem, ◌==◌, ltb, if◌then◌else◌, get_or, set,
}
use ras_os.Base.Int.{ℤ, pos, negsuc}
use ras_os.Memory.{memset}

abbrev pub block_size : ℕ
block_size = 4096

abbrev pub entry_free : ℕ
entry_free = 0x00

abbrev pub entry_taken : ℕ
entry_taken = 0x01

abbrev pub block_has_next : ℕ
block_has_next = 0x80

abbrev pub block_is_first : ℕ
block_is_first = 0x40

pub record HeapTable : Type 0 where
  pub entries : List ℕ
  pub total : ℕ

pub record Heap : Type 0 where
  pub table : HeapTable
  pub start_address : ℕ

unfoldable pub is_block_taken : ℕ → Bool
is_block_taken entry = not (bit_and entry 0x01 == 0)

unfoldable pub is_block_next_exists : ℕ → Bool
is_block_next_exists entry = not (bit_and entry 0x80 == 0)

-- The difference of the addresses is an `int`, and its quotient is rounded towards 0.
pub heap_address_to_block : Heap → ℕ → ℤ
heap_address_to_block h address =
    let diff = (address + 2 ^ 32 - h.start_address) % 2 ^ 32 in
    if ltb diff (2 ^ 31)
    then pos (diff / block_size)
    else if (2 ^ 32 - diff) / block_size == 0
    then pos 0
    else negsuc ((2 ^ 32 - diff) / block_size - 1)

unfoldable pub heap_block_to_address : Heap → ℕ → ℕ
heap_block_to_address h block = (h.start_address + block * block_size) % 2 ^ 32

-- `mem` is the memory from `table_start_addr` on.
unfoldable pub heap_create : Heap → List ℕ → ℕ → ℕ → Result Heap
heap_create h mem heap_start_addr heap_size =
    if heap_start_addr % block_size == 0
    then (if heap_size % block_size == 0
        then ok (record {
          table = record {
            entries = memset mem entry_free (heap_size / block_size);
            total = heap_size / block_size;
          };
          start_address = heap_start_addr;
        })
        else err einvarg)
    else err einvarg

-- The sum wraps for a size in the last block of the address space.
unfoldable pub heap_size_ceiling : ℕ → ℕ
heap_size_ceiling size =
    if size % block_size == 0 then size else (size - size % block_size + block_size) % 2 ^ 32

-- One round of the scan: `start` is `none` where the code has -1.
abbrev pub scan_start : Option ℕ → ℕ → ℕ
scan_start none i = i
scan_start (some s) i = s

-- The loop from block `i` on, with `rounds` blocks left.
scan_blocks : (rounds i : ℕ) → List ℕ → ℕ → ℕ → Option ℕ → Result ℕ
scan_blocks zero i entries total_blocks count start = err enomem
scan_blocks (suc rounds) i entries total_blocks count start =
    elim (is_block_taken (get_or entries i 0)) [
      | true ↦ scan_blocks rounds (i + 1) entries total_blocks 0 none
      | false ↦ elim (count + 1 == total_blocks) [
        | true ↦ ok (scan_start start i)
        | false ↦
            scan_blocks rounds (i + 1) entries total_blocks (count + 1) (some (scan_start start i))
      ]
    ]

pub heap_get_start_block : Heap → ℕ → Result ℕ
unfolding scan_blocks
heap_get_start_block h total_blocks =
    scan_blocks h.table.total 0 h.table.entries total_blocks 0 none

-- The loop from block `i` to `end_block`, with `rounds` blocks left; `entry` is what is stored next.
mark_blocks : (rounds i end_block entry : ℕ) → List ℕ → List ℕ
mark_blocks zero i end_block entry entries = entries
mark_blocks (suc rounds) i end_block entry entries =
    mark_blocks rounds (i + 1) end_block
      (if i + 1 == end_block then entry_taken else bit_or entry_taken block_has_next)
      (set entries i entry)

abbrev pub with_entries : Heap → List ℕ → Heap
with_entries h es = record h { table = record { entries = es; total = h.table.total } }

pub heap_mark_blocks_taken : Heap → ℕ → ℕ → Heap
unfolding mark_blocks
heap_mark_blocks_taken h start_block total_blocks = with_entries h (
    mark_blocks total_blocks start_block (start_block + total_blocks - 1)
      (if ltb 1 total_blocks
        then bit_or (bit_or entry_taken block_is_first) block_has_next
        else bit_or entry_taken block_is_first)
      h.table.entries)

-- The address of the first block, or 0.
unfoldable pub heap_malloc_blocks : Heap → ℕ → ℕ × Heap
heap_malloc_blocks h total_blocks = elim (heap_get_start_block h total_blocks) [
  | err e ↦ (0, h)
  | ok start_block ↦
      (heap_block_to_address h start_block, heap_mark_blocks_taken h start_block total_blocks)
]

pub heap_malloc : Heap → ℕ → ℕ × Heap
unfolding heap_malloc_blocks heap_size_ceiling
heap_malloc h size = heap_malloc_blocks h (heap_size_ceiling size / block_size)

-- Each round frees an entry, and then reads the entry that it has just freed.
free_blocks : (rounds i : ℕ) → List ℕ → List ℕ
free_blocks zero i entries = entries
free_blocks (suc rounds) i entries =
    let entries' = set entries i entry_free in
    let rest = free_blocks rounds (i + 1) entries' in
    if is_block_next_exists (get_or entries' i 0) then rest else entries'

-- `none`: a write before the start of the table.
pub heap_mark_blocks_free : Heap → ℤ → Option Heap
unfolding free_blocks
heap_mark_blocks_free h (pos i) =
    some (with_entries h (free_blocks (h.table.total - i) i h.table.entries))
heap_mark_blocks_free h (negsuc n) = if h.table.total == 0 then some h else none

pub heap_free : Heap → ℕ → Option Heap
unfolding heap_mark_blocks_free heap_address_to_block
heap_free h ptr = heap_mark_blocks_free h (heap_address_to_block h ptr)
