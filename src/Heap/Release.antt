-- ===== src/Heap/Release.antt =====
-- heap_free of src/memory/heap/heap.c.
use ras_os.Base.{
  get_or, subst, ◌∙◌, ap, sym, true, false, get_or-set_ne, ℕ_discrete, ◌-◌, ℕ, zero, suc, ◌+◌, ◌-◌,
  ◌*◌, ◌%◌, ◌^◌, ◌<◌, ◌≡◌, List, arith, length, set, get_or-set_self, some, ap,
}
use ras_os.Base.Int.{pos}
use ras_os.Heap.{
  is_block_taken, Heap, block_size, entry_free, is_block_next_exists, free_blocks,
  heap_address_to_block, heap_mark_blocks_free, heap_free, with_entries,
}
use ras_os.Heap.Malloc.{IsGranted, IsValid}

-- The loop stops behind its first round: the entry that it reads is the one that it has just freed.
free_blocks_lem :
    (rounds i : ℕ) (es : List ℕ)
    → 0 < rounds
    → i < length es
    → free_blocks rounds i es ≡ set es i entry_free
unfolding free_blocks is_block_next_exists
free_blocks_lem zero i es some_round lt = absurd (omega arith)
free_blocks_lem (suc rounds) i es some_round lt =
    ground (arith, get_or-set_self es i entry_free 0 lt)

block_of_address :
    (h : Heap) (s : ℕ)
    → IsValid h
    → s < h.table.total
    → h.table.total < 2 ^ 19
    → heap_address_to_block h (h.start_address + s * block_size) ≡ pos s
unfolding heap_address_to_block
block_of_address h s v lt small =
    let f = v.fits in
    let e : (h.start_address + s * block_size + 2 ^ 32 - h.start_address) % 2 ^ 32
        ≡ s * block_size =
      omega arith in
    rw (e) (ground arith)

-- In a valid heap of less than 2^19 blocks, freeing the address of block `s` clears the entry of
-- block `s` and that one alone.
pub heap_free_lem :
    (h : Heap) (s : ℕ)
    → IsValid h
    → s < h.table.total
    → h.table.total < 2 ^ 19
    → heap_free h (h.start_address + s * block_size)
      ≡ some (with_entries h (set h.table.entries s entry_free))
unfolding heap_free heap_mark_blocks_free
heap_free_lem h s v lt small = rw (block_of_address h s v lt small) (
    ap (λ es. some (with_entries h es))
      (free_blocks_lem (h.table.total - s) s h.table.entries (omega arith)
        (omega (arith, v.sized))))

-- What a request for at most a block took, the free gives back: with fewer than 2^19 blocks, every
-- block is as taken or as free as before the request.
pub heap_free-heap_malloc :
    (h h1 : Heap) (s address : ℕ)
    → IsGranted h 1 s address h1
    → h.table.total < 2 ^ 19
    → (h2 : Heap) × (heap_free h1 address ≡ some h2)
      × ((k : ℕ)
          → is_block_taken (get_or h2.table.entries k 0)
            ≡ is_block_taken (get_or h.table.entries k 0))
heap_free-heap_malloc h h1 s address g small =
    let at : s < h1.table.total = omega (arith, g.first_fit.0, g.same_total) in
    let e : address ≡ h1.start_address + s * block_size = rw g.same_start g.address_of in
    (
      with_entries h1 (set h1.table.entries s entry_free),
      rw e (heap_free_lem h1 s g.valid at (omega (arith, g.same_total))),
      λ k. same k (ℕ_discrete s k),
    )
  where
    was_free : is_block_taken (get_or h.table.entries s 0) ≡ false
    was_free = let e : s + 0 ≡ s = omega arith in rw e at (g.first_fit.1 0 (omega arith))

    at_s : is_block_taken (get_or (set h1.table.entries s entry_free) s 0) ≡ false
    at_s =
        unfold is_block_taken in
        rw (
          get_or-set_self h1.table.entries s entry_free 0
            (omega (arith, g.first_fit.0, g.same_total, g.valid.sized)))

    same :
        (k : ℕ)
        → Dec (s ≡ k)
        → is_block_taken (get_or (set h1.table.entries s entry_free) k 0)
          ≡ is_block_taken (get_or h.table.entries k 0)
    same k (yes e) =
        subst
          (λ j.
            is_block_taken (get_or (set h1.table.entries s entry_free) j 0)
            ≡ is_block_taken (get_or h.table.entries j 0))
          e (at_s ∙ sym was_free)
    same k (no ne) =
        rw (get_or-set_ne h1.table.entries s k entry_free 0 ne, g.others k (omega arith))

-- After a request for more than one block, the free of its address leaves all of its blocks but the
-- first taken, with fewer than 2^19 blocks in the heap.
pub heap_free_leaks :
    (h h1 : Heap) (n s address : ℕ)
    → IsGranted h n s address h1
    → 1 < n
    → h.table.total < 2 ^ 19
    → (h2 : Heap) × (heap_free h1 address ≡ some h2)
      × (is_block_taken (get_or h2.table.entries s 0) ≡ false)
      × ((k : ℕ) → 0 < k → k < n → is_block_taken (get_or h2.table.entries (s + k) 0) ≡ true)
heap_free_leaks h h1 n s address g many small =
    let at : s < h1.table.total = omega (arith, g.first_fit.0, g.same_total) in
    let within : s < length h1.table.entries = omega (arith, g.valid.sized) in
    let e : address ≡ h1.start_address + s * block_size = rw g.same_start g.address_of in
    (
      with_entries h1 (set h1.table.entries s entry_free),
      rw e (heap_free_lem h1 s g.valid at (omega (arith, g.same_total))),
      unfold is_block_taken in rw (get_or-set_self h1.table.entries s entry_free 0 within),
      λ k lo hi.
          rw (get_or-set_ne h1.table.entries s (s + k) entry_free 0 (omega arith)) (g.taken k hi),
    )
