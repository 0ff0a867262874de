-- ===== src/Heap/Malloc.antt =====
-- heap_malloc of src/memory/heap/heap.c: what a caller is given, and the invariant of the heap.
use ras_os.Base.{
  ℕ, ◌+◌, ◌-◌, ◌*◌, ◌/◌, ◌%◌, ◌^◌, ◌≤◌, ◌<◌, ◌≡◌, ◌⊎◌, inl, inr, refl, ◌∙◌, true, arith, length,
  get_or, ok, err, Result, subst, ◌≢◌,
}
use ras_os.Heap.{
  Heap, block_size, is_block_taken, heap_size_ceiling, heap_block_to_address,
  heap_mark_blocks_taken, heap_get_start_block, heap_malloc_blocks, heap_malloc,
}
use ras_os.Heap.Search.{IsFreeRun, IsFirstFit, heap_get_start_block-IsFirstFit}
use ras_os.Heap.Mark.{mark, length-mark_taken, heap_mark_blocks_taken_lem, is_block_taken-mark}

-- The table has an entry for each block, and the blocks are a range of the address space, aligned
-- and away from 0.
pub record IsValid (h : Heap) : Type 0 where
  pub sized : length h.table.entries ≡ h.table.total
  pub aligned : h.start_address % block_size ≡ 0
  pub away : 0 < h.start_address
  pub fits : h.start_address + h.table.total * block_size ≤ 2 ^ 32

-- The number of blocks for a size.
abbrev pub blocks_of : ℕ → ℕ
blocks_of size = heap_size_ceiling size / block_size

pub blocks_of_bounds :
    (size : ℕ)
    → 0 < size
    → size + block_size ≤ 2 ^ 32
    → (size ≤ blocks_of size * block_size)
      × (blocks_of size * block_size < size + block_size)
      × (0 < blocks_of size)
unfolding heap_size_ceiling
blocks_of_bounds size lo hi = (ground arith, ground arith, ground arith)

-- A successful call: the blocks from `s` on, free before and taken now, and nothing else changed.
pub record IsGranted (h : Heap) (n s address : ℕ) (h' : Heap) : Type 0 where
  pub first_fit : IsFirstFit h.table.entries h.table.total n (ok s)
  pub address_of : address ≡ h.start_address + s * block_size
  pub taken : (k : ℕ) → k < n → is_block_taken (get_or h'.table.entries (s + k) 0) ≡ true
  pub others :
      (k : ℕ) → (k < s) ⊎ (s + n ≤ k) → get_or h'.table.entries k 0 ≡ get_or h.table.entries k 0
  pub valid : IsValid h'
  pub same_total : h'.table.total ≡ h.table.total
  pub same_start : h'.start_address ≡ h.start_address

-- A refused call returns null and leaves the heap; no run of `n` free blocks was there.
pub record IsRefused (h : Heap) (n address : ℕ) (h' : Heap) : Type 0 where
  pub null : address ≡ 0
  pub unchanged : h' ≡ h
  pub no_run : (t : ℕ) → t + n ≤ h.table.total → ¬ IsFreeRun h.table.entries t n

abbrev pub Outcome : Heap → ℕ → ℕ × Heap → Type 0
Outcome h n r = IsRefused h n r.0 r.1 ⊎ ((s : ℕ) × IsGranted h n s r.0 r.1)

mark_taken-IsValid : (h : Heap) (s n : ℕ) → IsValid h → IsValid (heap_mark_blocks_taken h s n)
unfolding heap_mark_blocks_taken
mark_taken-IsValid h s n v = record {
  sized = length-mark_taken h s n ∙ v.sized;
  aligned = v.aligned;
  away = v.away;
  fits = v.fits;
}

block_address :
    (h : Heap) (s n : ℕ)
    → IsValid h
    → s + n ≤ h.table.total
    → 0 < n
    → heap_block_to_address h s ≡ h.start_address + s * block_size
unfolding heap_block_to_address
block_address h s n v le pos = let f = v.fits in omega arith

pub mark_taken-IsGranted :
    (h : Heap) (n s : ℕ)
    → IsValid h
    → 0 < n
    → IsFirstFit h.table.entries h.table.total n (ok s)
    → IsGranted h n s (heap_block_to_address h s) (heap_mark_blocks_taken h s n)
mark_taken-IsGranted h n s v pos fit =
    let fits : s + n ≤ length h.table.entries = omega (arith, v.sized, fit.0) in
    record {
      first_fit = fit;
      address_of = block_address h s n v fit.0 pos;
      taken = λ k lt.
          let e : get_or (heap_mark_blocks_taken h s n).table.entries (s + k) 0
              ≡ mark (s + k - s) n =
            heap_mark_blocks_taken_lem h s n (s + k) fits ∙ ground arith in
          rw e (is_block_taken-mark (s + k - s) n);
      others = λ k out. heap_mark_blocks_taken_lem h s n k fits ∙ ground arith;
      valid = mark_taken-IsValid h s n v;
      same_total = unfold heap_mark_blocks_taken in refl;
      same_start = unfold heap_mark_blocks_taken in refl;
    }

Outcome-of_search :
    (h : Heap) (n : ℕ) (r : Result ℕ)
    → IsValid h
    → 0 < n
    → heap_get_start_block h n ≡ r
    → IsFirstFit h.table.entries h.table.total n r
    → Outcome h n (heap_malloc_blocks h n)
unfolding heap_malloc_blocks
Outcome-of_search h n (ok s) v pos e fit =
    rw (e, heap_malloc_blocks) (inr (s, mark_taken-IsGranted h n s v pos fit))
Outcome-of_search h n (err c) v pos e fit =
    rw (e, heap_malloc_blocks) (inl (record { null = refl; unchanged = refl; no_run = fit.1 }))

pub heap_malloc_blocks-Outcome :
    (h : Heap) (n : ℕ) → IsValid h → 0 < n → Outcome h n (heap_malloc_blocks h n)
heap_malloc_blocks-Outcome h n v pos =
    Outcome-of_search h n (heap_get_start_block h n) v pos refl
      (heap_get_start_block-IsFirstFit h n pos)

-- In a valid heap, a request for `size` bytes, at least 1 and at most 2^32 - 4096, gets the first
-- run of free blocks that holds it: the address of an aligned block inside the heap, at least `size`
-- bytes that were free and are taken now, no other entry changed, and the heap valid still. It gets
-- null, and the heap is as it was, only if there is no such run.
pub heap_malloc-Outcome :
    (h : Heap) (size : ℕ)
    → IsValid h
    → 0 < size
    → size + block_size ≤ 2 ^ 32
    → Outcome h (blocks_of size) (heap_malloc h size) × (size ≤ blocks_of size * block_size)
unfolding heap_malloc
heap_malloc-Outcome h size v lo hi =
    let b = blocks_of_bounds size lo hi in
    (heap_malloc_blocks-Outcome h (blocks_of size) v b.2, b.0)

-- The same as an inversion: an address other than 0 was granted.
pub IsGranted-of_ne :
    (h : Heap) (size p : ℕ) (h' : Heap)
    → IsValid h
    → 0 < size
    → size + block_size ≤ 2 ^ 32
    → heap_malloc h size ≡ (p, h')
    → p ≢ 0
    → (s : ℕ) × IsGranted h (blocks_of size) s p h'
IsGranted-of_ne h size p h' v lo hi e ne =
    go (subst (Outcome h (blocks_of size)) e (heap_malloc-Outcome h size v lo hi).0)
  where
    go : Outcome h (blocks_of size) (p, h') → (s : ℕ) × IsGranted h (blocks_of size) s p h'
    go (inl r) = absurd (ne r.null)
    go (inr g) = g
