-- ===== src/Task/Restore.antt =====
-- copy_string_from_task of src/task/task.c: the page tables of the task, and the text.
use ras_os.Paging.{Ram, page_size, paging_get_table_entry, paging_set, write_word}
use ras_os.Paging.Layout.{
  IsDirectory, directory_index, entry_address, paging_get_table_entry_lem, paging_set_lem,
  table_index,
}
use ras_os.Paging.Map.{paging_map_lem}
use ras_os.Paging.Set.{IsPage, get-with_entry, table_of-with_entry, with_entry}
use ras_os.Task.{Task}
use ras_os.Task.Copy.{copy_text-text, text_at, text_at_cong}
use ras_os.Task.Memory.{
  Machine, copy_string_from_task, copy_text, copy_through, kernel_page, or_same, paging_switch,
  strncpy_in, translate,
}
use ras_os.Base.Bits.{bit_and_page}
use ras_os.Base.{
  ◌≤◌, leb, false, fun_ext, ap₂, ne→==, sym, ◌∙◌, ◌≢◌, ◌%◌, eq→==, ◌*◌, ℕ_discrete, ap, ◌^◌, ◌-◌,
  ◌≡◌, ◌<◌, ◌+◌, ◌/◌, ℕ, arith, refl, ok,
}

-- The tables while the page `s` leads to itself.
abbrev mapped_ram : Ram → (directory s : ℕ) → Ram
mapped_ram ram directory s = with_entry ram directory s (s + 7)

module _ (ram : Ram) (directory s : ℕ) (d : IsDirectory ram directory) (p : IsPage s) where
  write_back : (a x b : ℕ) → write_word (write_word ram a x) a (ram a) b ≡ ram b
  unfolding write_word
  write_back a x b = elim (ℕ_discrete b a) [
    | yes e ↦ rw (eq→== b a e) (ap ram (sym e))
    | no n ↦ rw (ne→== b a n) refl
  ]

  -- Setting the entry to what it was gives the tables back.
  paging_set-back :
      paging_set (mapped_ram ram directory s) directory s (paging_get_table_entry ram directory s)
      ≡ ok ram
  paging_set-back =
      let same : entry_address (mapped_ram ram directory s) directory s
          ≡ entry_address ram directory s =
        ap (λ t. t + 4 * table_index s)
          (table_of-with_entry ram directory d s (s + 7) (directory_index s) p.1 (omega arith)) in
      paging_set_lem (mapped_ram ram directory s) directory s
        (paging_get_table_entry ram directory s) p.0
      ∙ ap ok (
          ap₂ (λ a x. write_word (mapped_ram ram directory s) a x) same
            (paging_get_table_entry_lem ram directory s p.0)
          ∙ fun_ext (write_back (entry_address ram directory s) (s + 7)))

  translate-mapped :
      (v : ℕ)
      → v / page_size ≡ s / page_size
      → translate (mapped_ram ram directory s) directory v ≡ v
  unfolding translate
  translate-mapped v same =
      let w : v - v % page_size ≡ s = omega arith in
      let e : paging_get_table_entry (mapped_ram ram directory s) directory (v - v % page_size)
          ≡ s + 7 =
        get-with_entry ram directory d s (s + 7) (v - v % page_size) p (omega arith, omega arith)
        ∙ rw (eq→== (v - v % page_size) s w) refl in
      rw (e, bit_and_page (s + 7)) (omega arith)

  translate-other :
      (v : ℕ)
      → v < 2 ^ 32
      → v / page_size ≢ s / page_size
      → translate (mapped_ram ram directory s) directory v ≡ translate ram directory v
  unfolding translate
  translate-other v small other =
      let ne : v - v % page_size ≢ s = λ e. other (omega arith) in
      let e =
        get-with_entry ram directory d s (s + 7) (v - v % page_size) p (omega arith, omega arith)
        ∙ rw (ne→== (v - v % page_size) s ne) refl in
      rw e refl

-- What copy_string_from_task is called with: page tables of the task that are its own, a kernel that sees
-- the memory as it is, a buffer of a page from kzalloc, and a text and a place for it that are neither in
-- that page nor overlap with it.
pub record IsCopyable (kernel_chunk : ℕ) (m : Machine) (directory virt phys max buffer : ℕ)
    : Type 0 where
  pub own_tables : IsDirectory m.ram directory
  pub kernel_sees : (v : ℕ) → v < 2 ^ 32 → translate m.ram kernel_chunk v ≡ v
  pub buffer_page : IsPage buffer
  pub not_null : buffer ≢ 0
  pub some_bytes : 0 < max
  pub small : max < page_size
  pub text_fits : virt + max ≤ 2 ^ 32
  pub place_fits : phys + max ≤ 2 ^ 32
  pub other_page : (i : ℕ) → i < max → (virt + i) / page_size ≢ buffer / page_size
  pub text_apart : (i j : ℕ) → i < max → j < max → translate m.ram directory (virt + i) ≢ buffer + j
  pub place_apart : (i j : ℕ) → i < max → j < max → buffer + i ≢ phys + j

module _ (kernel_chunk : ℕ) (m : Machine) (task : Task) (virt phys max buffer : ℕ)
    (c : IsCopyable kernel_chunk m task.page_directory virt phys max buffer) where
  abbrev directory_of : ℕ
  directory_of = task.page_directory

  -- The bytes when the text is in the buffer.
  abbrev buffered : ℕ → ℕ
  buffered =
      copy_text (max - 1) (translate (mapped_ram m.ram directory_of buffer) directory_of) m.bytes
        buffer virt

  -- The state behind the call.
  abbrev copied_state : Machine
  copied_state = record {
    ram = m.ram;
    bytes = copy_text (max - 1) (translate m.ram kernel_chunk) buffered phys buffer;
    current_directory = kernel_chunk;
  }

  not_large : leb page_size max ≡ false
  not_large = let s = c.small in ground arith

  through :
      copy_through kernel_chunk m directory_of virt phys max buffer
        (paging_get_table_entry m.ram directory_of buffer)
        (mapped_ram m.ram directory_of buffer)
      ≡ (ok tt, copied_state)
  unfolding copy_through strncpy_in paging_switch kernel_page
  through =
      rw (paging_set-back m.ram directory_of buffer c.own_tables c.buffer_page, copy_through) refl

  run : copy_string_from_task kernel_chunk m task virt phys max buffer ≡ (ok tt, copied_state)
  unfolding copy_string_from_task
  run =
      rw (not_large, ne→== buffer 0 c.not_null, copy_string_from_task)
        (ap
            (λ r.
              copy_through kernel_chunk m directory_of virt phys max buffer
                (paging_get_table_entry m.ram directory_of buffer) (or_same m.ram r))
            (paging_map_lem m.ram directory_of buffer buffer 7 c.buffer_page.0 c.buffer_page.0
              (omega arith))
          ∙ through)

  -- In the buffer's page the task sees the memory as it is, and elsewhere what it saw.
  buffer_at :
      (j : ℕ)
      → j < max
      → translate (mapped_ram m.ram directory_of buffer) directory_of (buffer + j) ≡ buffer + j
  buffer_at j h =
      let p = c.buffer_page in
      let s = c.small in
      translate-mapped m.ram directory_of buffer c.own_tables p (buffer + j)
        (omega (arith, p.0, p.1))

  text_at_place :
      (j : ℕ)
      → j < max
      → translate (mapped_ram m.ram directory_of buffer) directory_of (virt + j)
        ≡ translate m.ram directory_of (virt + j)
  text_at_place j h =
      let f = c.text_fits in
      translate-other m.ram directory_of buffer c.own_tables c.buffer_page (virt + j) (omega arith)
        (c.other_page j h)

  in_buffer :
      text_at (max - 1) buffered buffer
      ≡ text_at (max - 1) (λ v. m.bytes (translate m.ram directory_of v)) virt
  in_buffer =
      let s = c.some_bytes in
      text_at_cong (max - 1) buffered _ buffer buffer
        (λ i lt. ap buffered (sym (buffer_at i (omega arith))))
      ∙ copy_text-text (translate (mapped_ram m.ram directory_of buffer) directory_of) (max - 1)
          m.bytes buffer virt
          (λ i j hi hj e.
            omega (arith, sym (buffer_at i (omega arith)) ∙ e ∙ buffer_at j (omega arith)))
          (λ i j hi hj e.
            c.text_apart i j (omega arith) (omega arith)
              (sym (text_at_place i (omega arith)) ∙ e ∙ buffer_at j (omega arith)))
      ∙ text_at_cong (max - 1) _ _ virt virt (λ i lt. ap m.bytes (text_at_place i (omega arith)))

  place_at : (j : ℕ) → j < max → translate m.ram kernel_chunk (phys + j) ≡ phys + j
  place_at j h = let f = c.place_fits in c.kernel_sees (phys + j) (omega arith)

  buffer_seen : (j : ℕ) → j < max → translate m.ram kernel_chunk (buffer + j) ≡ buffer + j
  buffer_seen j h =
      let p = c.buffer_page in
      let s = c.small in c.kernel_sees (buffer + j) (omega (arith, p.0, p.1))

  -- The bytes in the end.
  abbrev placed_bytes : ℕ → ℕ
  placed_bytes = copied_state.bytes

  at_place : text_at (max - 1) placed_bytes phys ≡ text_at (max - 1) buffered buffer
  at_place =
      let s = c.some_bytes in
      text_at_cong (max - 1) placed_bytes (λ v. placed_bytes (translate m.ram kernel_chunk v)) phys
        phys (λ i lt. ap placed_bytes (sym (place_at i (omega arith))))
      ∙ copy_text-text (translate m.ram kernel_chunk) (max - 1) buffered phys buffer
          (λ i j hi hj e.
            omega (arith, sym (place_at i (omega arith)) ∙ e ∙ place_at j (omega arith)))
          (λ i j hi hj e.
            c.place_apart i j (omega arith) (omega arith)
              (sym (buffer_seen i (omega arith)) ∙ e ∙ place_at j (omega arith)))
      ∙ text_at_cong (max - 1) (λ v. buffered (translate m.ram kernel_chunk v)) buffered buffer
          buffer (λ i lt. ap buffered (buffer_seen i (omega arith)))

  -- If the task has page tables of its own, the kernel sees the memory as it is, `max` is from 1 to 4095,
  -- the buffer is a page, and neither the text nor the place for it lies in that page or reaches over the
  -- end of the memory, then copy_string_from_task succeeds, puts the text that the task sees at the
  -- virtual address, up to its 0 or to `max - 1` characters, at the physical address, leaves the page
  -- tables as they were, and goes back to those of the kernel.
  pub copy_string_from_task_lem :
      (m' : Machine) × (copy_string_from_task kernel_chunk m task virt phys max buffer
        ≡ (ok tt, m'))
      × (m'.ram ≡ m.ram)
      × (m'.current_directory ≡ kernel_chunk)
      × (text_at (max - 1) m'.bytes phys
          ≡ text_at (max - 1) (λ v. m.bytes (translate m.ram task.page_directory v)) virt)
  copy_string_from_task_lem = (copied_state, run, refl, refl, at_place ∙ in_buffer)
