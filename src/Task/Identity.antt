-- ===== src/Task/Identity.antt =====
-- What is seen through the page tables that paging_new_4gb of src/memory/paging/paging.c makes.
use ras_os.Paging.{Ram, paging_new_4gb}
use ras_os.Paging.Create.{IsPages}
use ras_os.Paging.Identity.{paging_new_4gb-identity}
use ras_os.Task.Memory.{translate}
use ras_os.Base.Bits.{bit_and_page}
use ras_os.Base.{◌+◌, ◌%◌, ◌-◌, ◌≡◌, ◌^◌, ◌<◌, ℕ, arith}

-- With such tables every address is found where it is.
pub translate-paging_new_4gb :
    (ram : Ram) (page : ℕ → ℕ) (flags v : ℕ)
    → IsPages page
    → flags < 256
    → v < 2 ^ 32
    → translate (paging_new_4gb ram page flags).1 (paging_new_4gb ram page flags).0 v ≡ v
unfolding translate
translate-paging_new_4gb ram page flags v p small h =
    let e =
      (paging_new_4gb-identity ram page flags p small).1 (v - v % 4096)
        (omega arith, omega arith) in
    rw (e, bit_and_page (v - v % 4096 + flags)) (omega arith)
