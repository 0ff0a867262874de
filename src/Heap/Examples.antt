-- ===== src/Heap/Examples.antt =====
-- Tests of src/memory/heap/heap.c on a heap of six blocks, and its theorems there.
use ras_os.Base.{
  ◌⊎◌, ◌<◌, subst, get_or, ◌≤◌, some, false, true, ◌*◌, ◌+◌, ◌∷◌, ◌≡◌, ℕ, List, arith, [], refl, ok,
}
use ras_os.Memory.{memset}
use ras_os.Heap.{
  heap_block_to_address, Heap, block_size, is_block_taken, heap_create, heap_malloc, heap_free,
  heap_get_start_block, heap_mark_blocks_taken,
}
use ras_os.Heap.Search.{IsFirstFit, heap_get_start_block-IsFirstFit}
use ras_os.Heap.Malloc.{
  mark_taken-IsGranted, IsValid, IsGranted, Outcome, blocks_of, heap_malloc-Outcome,
}
use ras_os.Heap.Release.{heap_free-heap_malloc, heap_free_leaks}
use ras_os.Heap.Disjoint.{heap_malloc_disjoint}

abbrev start : ℕ
start = 0x01000000

abbrev of_entries : List ℕ → Heap
of_entries es = record { table = record { entries = es; total = 6 }; start_address = start }

-- Block 0 is taken, and blocks 2 and 3 are one allocation.
abbrev used : Heap
used = of_entries (0x41 ∷ 0x00 ∷ 0xC1 ∷ 0x01 ∷ 0x00 ∷ 0x00 ∷ [])

-- The heap behind a request for two blocks.
abbrev filled : Heap
filled = of_entries (0x41 ∷ 0x00 ∷ 0xC1 ∷ 0x01 ∷ 0xC1 ∷ 0x01 ∷ [])

used-IsValid : IsValid used
used-IsValid = record { sized = refl; aligned = refl; away = omega arith; fits = omega arith }

create_six :
    heap_create used (9 ∷ 9 ∷ 9 ∷ 9 ∷ 9 ∷ 9 ∷ []) start 24576
    ≡ ok (of_entries (0 ∷ 0 ∷ 0 ∷ 0 ∷ 0 ∷ 0 ∷ []))
unfolding heap_create memset
create_six = refl

malloc_two : heap_malloc used 5000 ≡ (start + 4 * 4096, filled)
unfolding heap_malloc heap_get_start_block is_block_taken heap_mark_blocks_taken
    heap_block_to_address
malloc_two = refl

malloc_too_much : heap_malloc used 8193 ≡ (0, used)
unfolding heap_malloc heap_get_start_block is_block_taken heap_mark_blocks_taken
    heap_block_to_address
malloc_too_much = refl

fit_two : heap_get_start_block used 2 ≡ ok 4
unfolding heap_get_start_block is_block_taken
fit_two = refl

at_four-IsFirstFit : IsFirstFit used.table.entries 6 2 (ok 4)
at_four-IsFirstFit =
    subst (IsFirstFit used.table.entries 6 2) fit_two
      (heap_get_start_block-IsFirstFit used 2 (omega arith))

-- The same at a request for 5000 bytes.
two_at_four : IsGranted used 2 4 (heap_block_to_address used 4) (heap_mark_blocks_taken used 4 2)
two_at_four = mark_taken-IsGranted used 2 4 used-IsValid (omega arith) at_four-IsFirstFit

fit_one : heap_get_start_block used 1 ≡ ok 1
unfolding heap_get_start_block is_block_taken
fit_one = refl

one_at_one : IsGranted used 1 1 (heap_block_to_address used 1) (heap_mark_blocks_taken used 1 1)
one_at_one = mark_taken-IsGranted used 1 1 used-IsValid (omega arith) (
    subst (IsFirstFit used.table.entries 6 1) fit_one
      (heap_get_start_block-IsFirstFit used 1 (omega arith)))

heap_malloc-Outcome_example :
    Outcome used (blocks_of 5000) (heap_malloc used 5000) × (5000 ≤ blocks_of 5000 * block_size)
heap_malloc-Outcome_example = heap_malloc-Outcome used 5000 used-IsValid (omega arith) (omega arith)

heap_free-heap_malloc_example :
    (h2 : Heap) × (heap_free (heap_mark_blocks_taken used 1 1) (heap_block_to_address used 1)
      ≡ some h2)
    × ((k : ℕ)
        → is_block_taken (get_or h2.table.entries k 0)
          ≡ is_block_taken (get_or used.table.entries k 0))
heap_free-heap_malloc_example =
    heap_free-heap_malloc used (heap_mark_blocks_taken used 1 1) 1 (heap_block_to_address used 1)
      one_at_one (omega arith)

heap_free_leaks_example :
    (h2 : Heap) × (heap_free (heap_mark_blocks_taken used 4 2) (heap_block_to_address used 4)
      ≡ some h2)
    × (is_block_taken (get_or h2.table.entries 4 0) ≡ false)
    × ((k : ℕ) → 0 < k → k < 2 → is_block_taken (get_or h2.table.entries (4 + k) 0) ≡ true)
heap_free_leaks_example =
    heap_free_leaks used (heap_mark_blocks_taken used 4 2) 2 4 (heap_block_to_address used 4)
      two_at_four (omega arith) (omega arith)

malloc_one :
    heap_malloc used 100 ≡ (start + 4096, of_entries (0x41 ∷ 0x41 ∷ 0xC1 ∷ 0x01 ∷ 0x00 ∷ 0x00 ∷ []))
unfolding heap_malloc heap_get_start_block is_block_taken heap_mark_blocks_taken
    heap_block_to_address
malloc_one = refl

malloc_next :
    heap_malloc (of_entries (0x41 ∷ 0x41 ∷ 0xC1 ∷ 0x01 ∷ 0x00 ∷ 0x00 ∷ [])) 5000
    ≡ (start + 4 * 4096, of_entries (0x41 ∷ 0x41 ∷ 0xC1 ∷ 0x01 ∷ 0xC1 ∷ 0x01 ∷ []))
unfolding heap_malloc heap_get_start_block is_block_taken heap_mark_blocks_taken
    heap_block_to_address
malloc_next = refl

heap_malloc_disjoint_example :
    (start + 4096 + 100 ≤ start + 4 * 4096) ⊎ (start + 4 * 4096 + 5000 ≤ start + 4096)
heap_malloc_disjoint_example =
    heap_malloc_disjoint used _ _ 100 5000 (start + 4096) (start + 4 * 4096) used-IsValid
      (omega arith) (omega arith) (omega arith) (omega arith) malloc_one malloc_next (omega arith)
      (omega arith)
