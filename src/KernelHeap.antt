-- ===== src/KernelHeap.antt =====
-- src/memory/heap/kheap.c: the one heap of the kernel. The memory that it hands out is a function from
-- the addresses of bytes. The message of kheap_init about a failure is not modelled.
pub mod Start
pub mod Zeroed
pub mod Blocks
use ras_os.Base.{
  ◌-◌, get_or, length, ltb, ◌&&◌, ◌+◌, ◌==◌, leb, Option, if◌then◌else◌, ◌∷◌, List, ℕ, [], err, ok,
  suc, zero,
}
use ras_os.Memory.{memset}
use ras_os.Heap.{Heap, heap_create, heap_malloc, heap_free}

abbrev pub heap_size_bytes : ℕ
heap_size_bytes = 104857600

abbrev pub heap_address : ℕ
heap_address = 0x01000000

-- `mem` is the memory from the address of the table on, and `kernel_heap` what stands there before.
unfoldable pub kheap_init : (kernel_heap : Heap) → (mem : List ℕ) → Heap
kheap_init kernel_heap mem = elim (heap_create kernel_heap mem heap_address heap_size_bytes) [
  | err e ↦ kernel_heap
  | ok h ↦ h
]

unfoldable pub kmalloc : Heap → ℕ → ℕ × Heap
kmalloc kernel_heap size = heap_malloc kernel_heap size

-- The `n` bytes from an address on, and a store of bytes from there on.
unfoldable pub read_bytes : (n : ℕ) → (ℕ → ℕ) → ℕ → List ℕ
read_bytes zero ram ptr = []
read_bytes (suc n) ram ptr = ram ptr ∷ read_bytes n ram (ptr + 1)

unfoldable pub write_bytes : (ℕ → ℕ) → ℕ → List ℕ → ℕ → ℕ
write_bytes ram ptr bytes a =
    if leb ptr a && ltb a (ptr + length bytes) then get_or bytes (a - ptr) 0 else ram a

-- The pointer, the heap and the memory.
unfoldable pub kzalloc : Heap → (ℕ → ℕ) → ℕ → ℕ × Heap × (ℕ → ℕ)
kzalloc kernel_heap ram size =
    let (ptr, h) = kmalloc kernel_heap size in
    if ptr == 0
    then (0, h, ram)
    else (ptr, h, write_bytes ram ptr (memset (read_bytes size ram ptr) 0 size))

unfoldable pub kfree : Heap → ℕ → Option Heap
kfree kernel_heap ptr = heap_free kernel_heap ptr
