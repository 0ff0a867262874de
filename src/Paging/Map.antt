-- ===== src/Paging/Map.antt =====
-- paging_map, paging_map_range and paging_map_to of src/memory/paging/paging.c.
use ras_os.Base.{
  refl, zero, sym, ne→==, ap, ◌∙◌, ge→ltb, einvarg, err, ℕ_discrete, ◌/◌, eq→==, arith, ◌⊎◌, ok,
  ◌^◌, suc, bit_or, ◌<◌, ◌*◌, ◌≡◌, ◌-◌, ◌≢◌, ◌≤◌, ◌%◌,
}
use ras_os.Paging.{
  ◌+◌, ℕ, Ram, page_size, paging_map, paging_map_range, paging_map_to, paging_get_table_entry,
}
use ras_os.Base.Bits.{bit_or_shift}
use ras_os.Paging.Layout.{IsDirectory, paging_set_lem}
use ras_os.Paging.Set.{IsPage, with_entry, with_entry-IsDirectory, get-with_entry}

-- Flags lie below the address in an entry.
pub bit_or_page : (a flags : ℕ) → a % page_size ≡ 0 → flags < page_size → bit_or a flags ≡ a + flags
bit_or_page a flags ha hf =
    let e : a ≡ a / 4096 * 2 ^ 12 = omega arith in
    ap (λ x. bit_or x flags) e ∙ bit_or_shift 12 (a / 4096) flags hf ∙ ap (λ x. x + flags) (sym e)

-- The pages from `virt` on lead to the pages from `phys` on, `count` of them; every other page leads
-- where it led.
pub record IsMapped (ram ram' : Ram) (directory virt phys count flags : ℕ) : Type 0 where
  pub directory_kept : IsDirectory ram' directory
  pub inside :
      (w : ℕ)
      → IsPage w
      → virt ≤ w
      → w < virt + page_size * count
      → paging_get_table_entry ram' directory w ≡ phys + (w - virt) + flags
  pub outside :
      (w : ℕ)
      → IsPage w
      → (w < virt) ⊎ (virt + page_size * count ≤ w)
      → paging_get_table_entry ram' directory w ≡ paging_get_table_entry ram directory w

pub paging_map_lem :
    (ram : Ram) (directory virt phys flags : ℕ)
    → virt % page_size ≡ 0
    → phys % page_size ≡ 0
    → flags < page_size
    → paging_map ram directory virt phys flags ≡ ok (with_entry ram directory virt (phys + flags))
unfolding paging_map
paging_map_lem ram directory virt phys flags hv hp hf =
    rw (eq→== (virt % page_size) 0 hv, eq→== (phys % page_size) 0 hp, bit_or_page phys flags hp hf)
      (paging_set_lem ram directory virt (phys + flags) hv)

map_range_step :
    (ram ram' : Ram) (directory virt phys count flags : ℕ)
    → IsDirectory ram directory
    → IsPage virt
    → IsPage phys
    → virt + page_size * suc count ≤ 2 ^ 32
    → phys + page_size * suc count ≤ 2 ^ 32
    → IsMapped
        (with_entry ram directory virt (phys + flags))
        ram'
        directory
        ((virt + page_size) % 2 ^ 32)
        ((phys + page_size) % 2 ^ 32)
        count
        flags
    → IsMapped ram ram' directory virt phys (suc count) flags
map_range_step ram ram' directory virt phys count flags d pv pp fv fp m = record {
  directory_kept = m.directory_kept;
  inside = λ w pw lo hi. elim (ℕ_discrete w virt) [
    | yes e ↦
        m.outside w pw (omega arith)
        ∙ get-with_entry ram directory d virt (phys + flags) w pv pw
        ∙ rw (eq→== w virt e) (omega arith)
    | no ne ↦ m.inside w pw (omega arith) (omega arith) ∙ omega arith
  ];
  outside = λ w pw out.
      m.outside w pw (omega arith)
      ∙ get-with_entry ram directory d virt (phys + flags) w pv pw
      ∙ rw (ne→== w virt (omega arith));
}

-- paging_map_range of page-aligned ranges inside the address space succeeds and maps exactly the
-- `count` pages.
pub paging_map_range-IsMapped :
    (count : ℕ) (ram : Ram) (directory virt phys flags : ℕ)
    → IsDirectory ram directory
    → IsPage virt
    → IsPage phys
    → virt + page_size * count ≤ 2 ^ 32
    → phys + page_size * count ≤ 2 ^ 32
    → flags < page_size
    → (ram' : Ram) × (paging_map_range count ram directory virt phys flags ≡ (ok tt, ram'))
      × IsMapped ram ram' directory virt phys count flags
unfolding paging_map_range
paging_map_range-IsMapped zero ram directory virt phys flags d pv pp fv fp hf = (
  ram,
  refl,
  record {
    directory_kept = d;
    inside = λ w pw lo hi. absurd (omega arith);
    outside = λ w pw out. refl;
  },
)
paging_map_range-IsMapped (suc count) ram directory virt phys flags d pv pp fv fp hf =
    let (ram', e, m) =
      paging_map_range-IsMapped count (with_entry ram directory virt (phys + flags)) directory
        ((virt + page_size) % 2 ^ 32) ((phys + page_size) % 2 ^ 32) flags
        (with_entry-IsDirectory ram directory d virt (phys + flags) pv.1) (omega arith)
        (omega arith) (omega arith) (omega arith) hf in
    (
      ram',
      rw (paging_map_lem ram directory virt phys flags pv.0 pp.0 hf, paging_map_range) e,
      map_range_step ram ram' directory virt phys count flags d pv pp fv fp m,
    )

-- paging_map_to of page-aligned addresses maps the pages of the physical range, if both ranges lie
-- inside the address space.
pub paging_map_to-IsMapped :
    (ram : Ram) (directory virt phys phys_end flags : ℕ)
    → IsDirectory ram directory
    → IsPage virt
    → IsPage phys
    → IsPage phys_end
    → phys ≤ phys_end
    → virt + (phys_end - phys) ≤ 2 ^ 32
    → flags < page_size
    → (ram' : Ram) × (paging_map_to ram directory virt phys phys_end flags ≡ (ok tt, ram'))
      × IsMapped ram ram' directory virt phys ((phys_end - phys) / page_size) flags
unfolding paging_map_to
paging_map_to-IsMapped ram directory virt phys phys_end flags d pv pp pe le fits hf =
    let (ram', e, m) =
      paging_map_range-IsMapped ((phys_end - phys) / page_size) ram directory virt phys flags d pv
        pp (omega arith) (omega arith) hf in
    (
      ram',
      rw
          (
            eq→== (virt % page_size) 0 pv.0,
            eq→== (phys % page_size) 0 pp.0,
            eq→== (phys_end % page_size) 0 pe.0,
            ge→ltb phys_end phys le,
          )
          e,
      m,
    )

-- paging_map_to refuses, and leaves the memory, if an address is not aligned or the end lies
-- below the start.
pub paging_map_to-einvarg :
    (ram : Ram) (directory virt phys phys_end flags : ℕ)
    → (virt % page_size ≢ 0)
      ⊎ ((phys % page_size ≢ 0) ⊎ ((phys_end % page_size ≢ 0) ⊎ (phys_end < phys)))
    → paging_map_to ram directory virt phys phys_end flags ≡ (err einvarg, ram)
unfolding paging_map_to
paging_map_to-einvarg ram directory virt phys phys_end flags h = ground arith
