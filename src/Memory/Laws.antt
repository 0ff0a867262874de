-- ===== src/Memory/Laws.antt =====
-- What memset, memcpy and memcmp of src/memory/memory.c do to their buffers.
use ras_os.Base.{
  ℕ, zero, suc, ◌+◌, ◌%◌, ◌≤◌, ◌≡◌, refl, ◌∙◌, List, arith, ltb, if◌then◌else◌, length, get_or, set,
  length-set, get_or-set_self, get_or-set_ne, ℕ_discrete,
}
use ras_os.Memory.{memset_loop, memset}

length-memset_loop : (n i : ℕ) (buf : List ℕ) (c : ℕ) → length (memset_loop n i buf c) ≡ length buf
unfolding memset_loop
length-memset_loop zero i buf c = refl
length-memset_loop (suc n) i buf c =
    length-memset_loop n (i + 1) (set buf i (c % 256)) c ∙ length-set buf i (c % 256)

get_or-memset_loop :
    (n i k : ℕ) (buf : List ℕ) (c : ℕ)
    → i + n ≤ length buf
    → get_or (memset_loop n i buf c) k 0
      ≡ (if ltb k i then get_or buf k 0 else if ltb k (i + n) then c % 256 else get_or buf k 0)
unfolding memset_loop
get_or-memset_loop zero i k buf c h = ground arith
get_or-memset_loop (suc n) i k buf c h = elim (ℕ_discrete i k) [
  | yes e ↦
      get_or-memset_loop n (i + 1) k (set buf i (c % 256)) c
        (omega (arith, length-set buf i (c % 256)))
      ∙ ground (arith, get_or-set_self buf i (c % 256) 0)
  | no ne ↦
      get_or-memset_loop n (i + 1) k (set buf i (c % 256)) c
        (omega (arith, length-set buf i (c % 256)))
      ∙ ground (arith, get_or-set_ne buf i k (c % 256) 0 ne)
]

pub length-memset : (buf : List ℕ) (c size : ℕ) → length (memset buf c size) ≡ length buf
unfolding memset
length-memset buf c size = length-memset_loop size 0 buf c

-- memset stores the low byte of `c` at the first `size` places and leaves the others.
pub get_or-memset :
    (buf : List ℕ) (c size k : ℕ)
    → size ≤ length buf
    → get_or (memset buf c size) k 0 ≡ (if ltb k size then c % 256 else get_or buf k 0)
unfolding memset
get_or-memset buf c size k h = get_or-memset_loop size 0 k buf c (omega arith) ∙ ground arith
