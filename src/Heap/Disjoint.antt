-- ===== src/Heap/Disjoint.antt =====
-- Two allocations of src/memory/heap/heap.c do not overlap.
use ras_os.Base.{
  ℕ, ◌+◌, ◌-◌, ◌*◌, ◌*◌, ◌^◌, ◌≤◌, ◌<◌, ◌≡◌, ◌≢◌, ◌⊎◌, inl, inr, true, false, arith, get_or, dec_lt,
}
use ras_os.Heap.{Heap, block_size, is_block_taken, heap_malloc}
use ras_os.Heap.Malloc.{IsValid, IsGranted, blocks_of, blocks_of_bounds, IsGranted-of_ne}

-- A run that was free when another was taken shares no block with it.
granted_apart :
    (h h1 h2 : Heap) (n m s t p q : ℕ)
    → IsGranted h n s p h1
    → IsGranted h1 m t q h2
    → 0 < n
    → 0 < m
    → (s + n ≤ t) ⊎ (t + m ≤ s)
granted_apart h h1 h2 n m s t p q g g' n_pos m_pos = elim (dec_lt t (s + n)) [
  | no far ↦ inl (omega arith)
  | yes near ↦ elim (dec_lt s (t + m)) [
    | no far ↦ inr (omega arith)
    | yes close ↦ elim (dec_lt s t) [
      | yes lt ↦
          let tk : is_block_taken (get_or h1.table.entries t 0) ≡ true =
            (let e : s + (t - s) ≡ t = omega arith in rw e at (g.taken (t - s) (omega arith))) in
          let fr : is_block_taken (get_or h1.table.entries t 0) ≡ false =
            (let e : t + 0 ≡ t = omega arith in rw e at (g'.first_fit.1 0 m_pos)) in
          absurd (ground arith)
      | no ge ↦
          let tk : is_block_taken (get_or h1.table.entries s 0) ≡ true =
            (let e : s + 0 ≡ s = omega arith in rw e at (g.taken 0 n_pos)) in
          let fr : is_block_taken (get_or h1.table.entries s 0) ≡ false =
            (let e : t + (s - t) ≡ s = omega arith in
              rw e at (g'.first_fit.1 (s - t) (omega arith))) in
          absurd (ground arith)
    ]
  ]
]

-- In a valid heap, two successful requests one after the other, each for 1 to 2^32 - 4096 bytes, get
-- ranges of bytes that do not overlap.
pub heap_malloc_disjoint :
    (h h1 h2 : Heap) (a b p q : ℕ)
    → IsValid h
    → 0 < a
    → a + block_size ≤ 2 ^ 32
    → 0 < b
    → b + block_size ≤ 2 ^ 32
    → heap_malloc h a ≡ (p, h1)
    → heap_malloc h1 b ≡ (q, h2)
    → p ≢ 0
    → q ≢ 0
    → (p + a ≤ q) ⊎ (q + b ≤ p)
heap_malloc_disjoint h h1 h2 a b p q v a_pos a_fits b_pos b_fits e e' p_ne q_ne =
    let (s, g) = IsGranted-of_ne h a p h1 v a_pos a_fits e p_ne in
    let (t, g') = IsGranted-of_ne h1 b q h2 g.valid b_pos b_fits e' q_ne in
    let ba = blocks_of_bounds a a_pos a_fits in
    let bb = blocks_of_bounds b b_pos b_fits in
    let at : p ≡ h.start_address + s * block_size = g.address_of in
    let at' : q ≡ h1.start_address + t * block_size = g'.address_of in
    let base : h1.start_address ≡ h.start_address = g.same_start in
    let apart = granted_apart h h1 h2 (blocks_of a) (blocks_of b) s t p q g g' ba.2 bb.2 in
    omega arith
