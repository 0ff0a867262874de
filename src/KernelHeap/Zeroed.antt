-- ===== src/KernelHeap/Zeroed.antt =====
-- kzalloc of src/memory/heap/kheap.c clears what it returns.
use ras_os.Base.{
  ◌∙◌, ne→==, sym, eq→==, ℕ_discrete, ◌-◌, ltb, ◌&&◌, ◌==◌, not, ◌+◌, leb, if◌then◌else◌, ap, ◌≡◌,
  length, ℕ, arith, refl, suc, zero,
}
use ras_os.KernelHeap.{kzalloc, kmalloc, read_bytes, write_bytes}
use ras_os.Memory.{memset}
use ras_os.Memory.Laws.{length-memset, get_or-memset}
use ras_os.Heap.{Heap, heap_malloc}

length-read_bytes : (n : ℕ) (ram : ℕ → ℕ) (ptr : ℕ) → length (read_bytes n ram ptr) ≡ n
unfolding read_bytes
length-read_bytes zero ram ptr = refl
length-read_bytes (suc n) ram ptr = ap suc (length-read_bytes n ram (ptr + 1))

write_bytes-zeros :
    (ram : ℕ → ℕ) (ptr size a : ℕ)
    → write_bytes ram ptr (memset (read_bytes size ram ptr) 0 size) a
      ≡ (if leb ptr a && ltb a (ptr + size) then 0 else ram a)
unfolding write_bytes
write_bytes-zeros ram ptr size a =
    let n = length-read_bytes size ram ptr in
    ground (
      arith,
      n,
      length-memset (read_bytes size ram ptr) 0 size,
      get_or-memset (read_bytes size ram ptr) 0 size (a - ptr) (omega arith),
    )

-- kzalloc returns the address and the heap that heap_malloc does; where that is not null, the bytes of
-- the request are 0 and the others as they were, and where it is, all are.
pub kzalloc_lem :
    (kernel_heap : Heap) (ram : ℕ → ℕ) (size a : ℕ)
    → let (ptr, h, ram') = kzalloc kernel_heap ram size in
      ((ptr, h) ≡ heap_malloc kernel_heap size)
      × (ram' a ≡ (if not (ptr == 0) && leb ptr a && ltb a (ptr + size) then 0 else ram a))
unfolding kzalloc kmalloc
kzalloc_lem kernel_heap ram size a = elim (ℕ_discrete (heap_malloc kernel_heap size).0 0) [
  | yes e ↦ rw (eq→== _ 0 e, kzalloc) (λ i. (sym e i, (heap_malloc kernel_heap size).1), refl)
  | no ne ↦
      rw (ne→== _ 0 ne, kzalloc)
        (refl, write_bytes-zeros ram (heap_malloc kernel_heap size).0 size a ∙ ground arith)
]
