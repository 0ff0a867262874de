-- ===== src/Process/Space.antt =====
-- The address space of a process that runs a binary file (src/task/process.c).
use ras_os.Paging.{Ram, page_size, paging_align_address, paging_get_table_entry, paging_map_to}
use ras_os.Paging.Layout.{IsDirectory}
use ras_os.Paging.Map.{IsMapped, paging_map_to-IsMapped}
use ras_os.Paging.Set.{IsPage}
use ras_os.Process.{process_map_binary, program_virtual_stack_address_top, user_program_stack_size}
use ras_os.Task.{program_virtual_address, program_virtual_stack_address_bottom}
use ras_os.Base.{sym, subst, ◌^◌, ◌*◌, ◌⊎◌, ◌/◌, ◌∙◌, ◌-◌, ◌<◌, ◌≤◌, ◌+◌, ◌≡◌, ◌%◌, ℕ, arith}

-- The number of bytes in the pages that hold `size` bytes.
abbrev pub rounded : ℕ → ℕ
rounded size = (size + (page_size - 1)) / page_size * page_size

-- Where the pages of a process lead: those of the program to its data, with the flags for all access,
-- those below the stack's bottom to the stack, and every other page to itself, for reading.
pub record IsAddressSpace (ram : Ram) (directory ptr size stack : ℕ) : Type 0 where
  pub of_program :
      (w : ℕ)
      → IsPage w
      → program_virtual_address ≤ w
      → w < program_virtual_address + rounded size
      → paging_get_table_entry ram directory w ≡ ptr + (w - program_virtual_address) + 7
  pub of_stack :
      (w : ℕ)
      → IsPage w
      → program_virtual_stack_address_top ≤ w
      → w < program_virtual_stack_address_bottom
      → paging_get_table_entry ram directory w ≡ stack + (w - program_virtual_stack_address_top) + 7
  pub of_others :
      (w : ℕ)
      → IsPage w
      → (w < program_virtual_stack_address_top)
        ⊎ (((program_virtual_stack_address_bottom ≤ w) × (w < program_virtual_address))
            ⊎ (program_virtual_address + rounded size ≤ w))
      → paging_get_table_entry ram directory w ≡ w + 5

-- The data and the stack are pages that do not reach the end of the memory, nor the program that of the
-- address space.
pub record AreInMemory (ptr size stack : ℕ) : Type 0 where
  pub data_aligned : ptr % page_size ≡ 0
  pub stack_aligned : stack % page_size ≡ 0
  pub data_fits : ptr + rounded size < 2 ^ 32
  pub stack_fits : stack + user_program_stack_size < 2 ^ 32
  pub program_fits : program_virtual_address + rounded size ≤ 2 ^ 32

align-rounded :
    (ptr size : ℕ)
    → ptr % page_size ≡ 0
    → ptr + rounded size < 2 ^ 32
    → paging_align_address (ptr + size) ≡ ptr + rounded size
unfolding paging_align_address
align-rounded ptr size h fits = ground arith

-- The memory behind a call of paging_map_to for a number of pages.
maps_pages :
    (ram : Ram) (directory virt phys end n : ℕ)
    → IsDirectory ram directory
    → IsPage virt
    → phys % page_size ≡ 0
    → virt + n * page_size ≤ 2 ^ 32
    → phys + n * page_size < 2 ^ 32
    → paging_align_address end ≡ phys + n * page_size
    → IsMapped ram
        (paging_map_to ram directory virt phys (paging_align_address end) 7).1
        directory
        virt
        phys
        n
        7
maps_pages ram directory virt phys end n d pv hp fits_virt fits e =
    let (ram', ret, m) =
      paging_map_to-IsMapped ram directory virt phys (phys + n * page_size) 7 d pv (omega arith)
        (omega arith) (omega arith) (omega arith) (omega arith) in
    let count : (phys + n * page_size - phys) / page_size ≡ n = omega arith in
    subst (λ k. IsMapped ram (paging_map_to ram directory virt phys k 7).1 directory virt phys n 7)
      (sym e)
      (subst (λ r. IsMapped ram r.1 directory virt phys n 7) (sym ret)
        (subst (λ k. IsMapped ram ram' directory virt phys k 7) count m))

module _ (ram : Ram) (directory ptr size stack : ℕ) where
  -- The memory after the mapping of the program, and then of the stack.
  abbrev with_program : Ram
  with_program = process_map_binary ram directory ptr size

  abbrev pub with_both : Ram
  with_both =
      (paging_map_to with_program directory program_virtual_stack_address_top stack
        (paging_align_address (stack + user_program_stack_size)) 7).1

  module _ (fit : AreInMemory ptr size stack) (d : IsDirectory ram directory)
      (identity : (v : ℕ) → IsPage v → paging_get_table_entry ram directory v ≡ v + 5) where
    program-IsMapped :
        IsMapped ram with_program directory program_virtual_address ptr (rounded size / page_size) 7
    unfolding process_map_binary
    program-IsMapped =
        maps_pages ram directory program_virtual_address ptr (ptr + size) (rounded size / page_size)
          d (omega arith) fit.data_aligned (omega (arith, fit.program_fits))
          (omega (arith, fit.data_fits))
          (align-rounded ptr size fit.data_aligned fit.data_fits ∙ omega arith)

    stack-IsMapped :
        IsMapped with_program with_both directory program_virtual_stack_address_top stack 4 7
    stack-IsMapped =
        maps_pages with_program directory program_virtual_stack_address_top stack
          (stack + user_program_stack_size) 4 program-IsMapped.directory_kept (omega arith)
          fit.stack_aligned (omega arith) (omega (arith, fit.stack_fits))
          (align-rounded stack user_program_stack_size fit.stack_aligned fit.stack_fits)

    pub with_both-IsAddressSpace : IsAddressSpace with_both directory ptr size stack
    with_both-IsAddressSpace = record {
      of_program = λ w p lo hi.
          stack-IsMapped.outside w p (omega arith)
          ∙ program-IsMapped.inside w p (omega arith) (omega arith);
      of_stack = λ w p lo hi. stack-IsMapped.inside w p (omega arith) (omega arith);
      of_others = λ w p out.
          stack-IsMapped.outside w p (omega arith)
          ∙ program-IsMapped.outside w p (omega arith)
          ∙ identity w p;
    }
