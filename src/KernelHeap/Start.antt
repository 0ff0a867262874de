-- ===== src/KernelHeap/Start.antt =====
-- The heap of src/memory/heap/kheap.c as it starts.
use ras_os.Base.{
  ◌∙◌, ◌*◌, ◌/◌, ◌^◌, ◌≤◌, ◌+◌, ◌%◌, get_or, ◌<◌, ◌≡◌, length, ℕ, List, arith, refl, ok,
}
use ras_os.KernelHeap.{kheap_init, heap_address, heap_size_bytes}
use ras_os.Memory.{memset}
use ras_os.Memory.Laws.{length-memset, get_or-memset}
use ras_os.Heap.{Heap, block_size, heap_create, entry_free}
use ras_os.Heap.Malloc.{IsValid}

-- heap_create of aligned ranges inside the address space, with a table of the right size, makes a valid
-- heap with all of its blocks free.
pub heap_create-IsValid :
    (h : Heap) (mem : List ℕ) (start size : ℕ)
    → start % block_size ≡ 0
    → size % block_size ≡ 0
    → 0 < start
    → start + size ≤ 2 ^ 32
    → length mem ≡ size / block_size
    → (h' : Heap) × (heap_create h mem start size ≡ ok h')
      × IsValid h'
      × (h'.start_address ≡ start)
      × (h'.table.total * block_size ≡ size)
      × ((k : ℕ) → k < h'.table.total → get_or h'.table.entries k 0 ≡ entry_free)
unfolding heap_create
heap_create-IsValid h mem start size al sl away fits len = (
  record {
    table = record {
      entries = memset mem entry_free (size / block_size);
      total = size / block_size;
    };
    start_address = start;
  },
  rw (al, sl) refl,
  record {
    sized = length-memset mem entry_free (size / block_size) ∙ len;
    aligned = al;
    away = away;
    fits = omega arith;
  },
  refl,
  omega arith,
  λ k h. get_or-memset mem entry_free (size / block_size) k (omega arith) ∙ ground arith,
)

-- kheap_init makes a valid heap of 25600 free blocks, if the table's memory has that many bytes.
pub kheap_init_lem :
    (kernel_heap : Heap) (mem : List ℕ)
    → length mem ≡ 25600
    → let h = kheap_init kernel_heap mem in
      IsValid h
      × (h.table.total ≡ 25600)
      × ((k : ℕ) → k < 25600 → get_or h.table.entries k 0 ≡ entry_free)
unfolding kheap_init
kheap_init_lem kernel_heap mem len =
    let (h, e, valid, at, total, free) =
      heap_create-IsValid kernel_heap mem heap_address heap_size_bytes (omega arith) (omega arith)
        (omega arith) (omega arith) (omega arith) in
    rw (e, kheap_init) (valid, omega arith, λ k lt. free k (omega arith))
