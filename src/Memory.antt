-- ===== src/Memory.antt =====
-- src/memory/memory.c: memset, memcmp and memcpy. A buffer is the list of the bytes from the
-- pointer on; an access past the list's end is outside of the model (a read gives 0, a write is
-- lost), and the theorems ask for buffers that are long enough.
pub mod Laws
mod Examples
use ras_os.Base.{
  ℕ, zero, suc, ◌+◌, ◌%◌, Bool, true, false, List, ◌==◌, ltb, if◌then◌else◌, get_or, set,
}
use ras_os.Base.Int.{ℤ, pos, negsuc}

-- The loop from index `i` on, with `rounds` rounds left.
memset_loop : (rounds i : ℕ) → List ℕ → ℕ → List ℕ
memset_loop zero i buf c = buf
memset_loop (suc rounds) i buf c = memset_loop rounds (i + 1) (set buf i (c % 256)) c

unfoldable pub memset : List ℕ → ℕ → ℕ → List ℕ
unfolding memset_loop
memset buf c size = memset_loop size 0 buf c

-- The order of `char`, which is signed: 0x80 to 0xff stand below 0.
signed_lt : ℕ → ℕ → Bool
signed_lt a b = ltb ((a + 128) % 256) ((b + 128) % 256)

memcmp_loop : (rounds i : ℕ) → List ℕ → List ℕ → ℤ
unfolding signed_lt
memcmp_loop zero i s1 s2 = pos 0
memcmp_loop (suc rounds) i s1 s2 =
    let rest = memcmp_loop rounds (i + 1) s1 s2 in
    if get_or s1 i 0 == get_or s2 i 0
    then rest
    else if signed_lt (get_or s2 i 0) (get_or s1 i 0)
    then negsuc 0
    else pos 1

unfoldable pub memcmp : List ℕ → List ℕ → ℕ → ℤ
unfolding memcmp_loop
memcmp s1 s2 count = memcmp_loop count 0 s1 s2

memcpy_loop : (rounds i : ℕ) → List ℕ → List ℕ → List ℕ
memcpy_loop zero i dest src = dest
memcpy_loop (suc rounds) i dest src = memcpy_loop rounds (i + 1) (set dest i (get_or src i 0)) src

unfoldable pub memcpy : List ℕ → List ℕ → ℕ → List ℕ
unfolding memcpy_loop
memcpy dest src len = memcpy_loop len 0 dest src
