-- ===== src/Memory/Examples.antt =====
-- Tests of src/memory/memory.c, and its theorems at concrete buffers.
use ras_os.Memory.{negsuc, memcmp, memcpy, memset}
use ras_os.Base.{◌≡◌, ◌∷◌, [], refl}

memset_two : memset (1 ∷ 2 ∷ 3 ∷ []) 0x107 2 ≡ (7 ∷ 7 ∷ 3 ∷ [])
unfolding memset
memset_two = refl

-- The sign is the other way round than that of the C library.
memcmp_sign : memcmp (5 ∷ 9 ∷ []) (5 ∷ 4 ∷ []) 2 ≡ negsuc 0
unfolding memcmp
memcmp_sign = refl

memcpy_two : memcpy (0 ∷ 0 ∷ 0 ∷ []) (4 ∷ 5 ∷ 6 ∷ []) 2 ≡ (4 ∷ 5 ∷ 0 ∷ [])
unfolding memcpy
memcpy_two = refl
