-- ===== src/Heap/Mark.antt =====
-- heap_mark_blocks_taken of src/memory/heap/heap.c.
use ras_os.Base.{
  ℕ, zero, suc, ◌+◌, ◌-◌, ◌≤◌, ◌≡◌, refl, ◌∙◌, true, List, arith, bit_or, ◌==◌, ltb, if◌then◌else◌,
  length, get_or, set, length-set, get_or-set_self, get_or-set_ne, ℕ_discrete,
}
use ras_os.Heap.{
  Heap, mark_blocks, heap_mark_blocks_taken, is_block_taken, entry_taken, block_has_next,
}

-- What the table says of block `k` of an allocation of `n` blocks: the first block has the mark for
-- the first, and all but the last have the mark for a next one.
abbrev pub mark : ℕ → ℕ → ℕ
mark k n = if k == 0 then (if ltb 1 n then 0xC1 else 0x41) else if k + 1 == n then 0x01 else 0x81

-- What the loop stores at block `k`, if `entry` is due at block `i`.
abbrev due : ℕ → ℕ → ℕ → ℕ → ℕ
due i end_block entry k =
    if k == i
    then entry
    else if k == end_block
    then entry_taken
    else bit_or entry_taken block_has_next

length-mark_blocks :
    (n i end_block entry : ℕ) (es : List ℕ)
    → length (mark_blocks n i end_block entry es) ≡ length es
unfolding mark_blocks
length-mark_blocks zero i j entry es = refl
length-mark_blocks (suc n) i j entry es =
    length-mark_blocks n (i + 1) j _ (set es i entry) ∙ length-set es i entry

get_or-mark_blocks :
    (n i end_block entry k : ℕ) (es : List ℕ)
    → i + n ≤ length es
    → get_or (mark_blocks n i end_block entry es) k 0 ≡ (
        if ltb k i
        then get_or es k 0
        else if ltb k (i + n)
        then due i end_block entry k
        else get_or es k 0)
unfolding mark_blocks
get_or-mark_blocks zero i j entry k es h = ground arith
get_or-mark_blocks (suc n) i j entry k es h = elim (ℕ_discrete i k) [
  | yes e ↦
      get_or-mark_blocks n (i + 1) j _ k (set es i entry) (omega (arith, length-set es i entry))
      ∙ ground (arith, get_or-set_self es i entry 0)
  | no ne ↦
      get_or-mark_blocks n (i + 1) j _ k (set es i entry) (omega (arith, length-set es i entry))
      ∙ ground (arith, get_or-set_ne es i k entry 0 ne)
]

pub length-mark_taken :
    (h : Heap) (s n : ℕ)
    → length (heap_mark_blocks_taken h s n).table.entries ≡ length h.table.entries
unfolding heap_mark_blocks_taken
length-mark_taken h s n = length-mark_blocks n s _ _ h.table.entries

-- Marking `n` blocks from `s` on stores the marks of an allocation of `n` blocks there, and changes
-- no other entry.
pub heap_mark_blocks_taken_lem :
    (h : Heap) (s n k : ℕ)
    → s + n ≤ length h.table.entries
    → get_or (heap_mark_blocks_taken h s n).table.entries k 0 ≡ (
        if ltb k s
        then get_or h.table.entries k 0
        else if ltb k (s + n)
        then mark (k - s) n
        else get_or h.table.entries k 0)
unfolding heap_mark_blocks_taken
heap_mark_blocks_taken_lem h s n k le =
    get_or-mark_blocks n s _ _ k h.table.entries le ∙ ground arith

-- All marks say that the block is taken.
pub is_block_taken-mark : (k n : ℕ) → is_block_taken (mark k n) ≡ true
unfolding is_block_taken
is_block_taken-mark k n = ground arith
