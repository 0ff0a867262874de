-- ===== src/Boot/Initialise.antt =====
-- What kernel_main of src/kernel.c has set up when it comes to the first program.
use ras_os.Boot.Welcome.{Shows, welcome-Shows}
use ras_os.Boot.{
  zero_tss, setup_tss, Image, Kernel, built, disk_search_and_init, initialise, kernel_paging_flags,
  start_keyboard,
}
use ras_os.FileTable.{Filesystem}
use ras_os.FileTable.Registry.{
  free_filesystem, fs_get_free_filesystem, fs_insert_filesystem, fs_load, fs_resolve, resolve_from,
}
use ras_os.Gdt.{gdt_structured, gdt_structured_to_gdt}
use ras_os.Gdt.Decode.{AreEncodable, IsWide, decode, decode-gdt_structured_to_gdt}
use ras_os.Heap.{entry_free}
use ras_os.Heap.Malloc.{IsValid}
use ras_os.Idt.{blank_desc, idt_register_interrupt_callback}
use ras_os.Idt.Gates.{IsInterruptGate, idt_init_lem}
use ras_os.KernelHeap.Start.{kheap_init_lem}
use ras_os.Keyboard.Drivers.{
  AreLinked, Drivers, keyboard_init, keyboard_insert, qwerty_keyboard_init,
}
use ras_os.Paging.{paging_get_table_entry, paging_new_4gb}
use ras_os.Paging.Create.{IsPages}
use ras_os.Paging.Identity.{paging_new_4gb-identity}
use ras_os.Paging.Set.{IsPage}
use ras_os.Syscalls.{SystemCommand, isr80h_register_commands}
use ras_os.Syscalls.Commands.{register_commands-registered, registered}
use ras_os.Base.{
  ◌/◌, sym, subst, ok, get_or-set_self, ◌%◌, eq→==, ◌≤◌, ◌∙◌, ap, arith, ◌∷◌, ◌+◌, ◌==◌, set,
  Option, length, if◌then◌else◌, get_or, List, replicate, ◌^◌, ◌≡◌, ◌<◌, map, Bool, ℕ, [], refl,
  some, none, true,
}

-- The state before: C sets what is static to zero.
pub record IsReset {D : Type 0} (im : Image D) (k : Kernel D) : Type 0 where
  pub no_commands : k.isr80h_commands ≡ replicate 1024 none
  pub no_callbacks : k.interrupt_callbacks ≡ replicate 512 none
  pub no_keyboards : k.keyboards.keyboard_list_last ≡ 0
  pub no_processes : k.processes.processes ≡ replicate 12 0
  pub no_tasks : k.processes.tasks.task_head ≡ 0
  pub top_row : k.terminal.row ≡ 0
  pub first_col : k.terminal.col ≡ 0
  pub no_next : (k.keyboards.driver_at im.qwerty_keyboard).next ≡ 0

pub record IsImage {D : Type 0} (im : Image D) : Type 0 where
  pub tss_small : im.tss_address < 2 ^ 32
  pub length-table_memory : length im.table_memory ≡ 25600
  pub pages : IsPages im.page
  pub is_fat16 : im.resolves im.fat16 ≡ true

-- What each part promises.
pub record IsInitialised {D : Type 0} (im : Image D) (k k' : Kernel D) : Type 0 where
  -- The processor reads the table of segments as it is written down.
  pub segments : map decode k'.gdt_real ≡ gdt_structured im.tss_address
  -- In the task state segment the kernel's stack is at 0x600000, in the segment of entry 2, which is that of
  -- the kernel's data, and the other fields are zero.
  pub stack_end : k'.tss.esp0 ≡ 0x600000
  pub stack_segment : (k'.tss.ss0 / 8 ≡ 2) × (k'.tss.ss0 % 8 ≡ 0)
  pub zeros : record k'.tss { esp0 = 0; ss0 = 0 } ≡ zero_tss
  -- The screen shows the welcome in its first two rows, and nothing else.
  pub welcomes : Shows k.terminal k'.terminal
  -- The heap is in order, with all of its blocks free.
  pub heap_valid : IsValid k'.kernel_heap
  pub blocks_free : (i : ℕ) → i < 25600 → get_or k'.kernel_heap.table.entries i 0 ≡ entry_free
  -- The disk has the file system that fat16_init gives.
  pub mounted : k'.disk.filesystem ≡ some im.fat16
  -- Each of the gates is an interrupt gate to its handler.
  pub gates :
      (i : ℕ)
      → i < 512
      → IsInterruptGate (get_or k'.idt_descriptors i blank_desc) (
          if i == 0x80
          then im.isr80h_wrapper
          else if i == 0
          then im.idt_zero
          else im.interrupt_pointer_table i)
  -- The page tables in force are those of the kernel, and lead every page to itself.
  pub in_force : k'.current_directory ≡ k'.kernel_chunk
  pub identity :
      (v : ℕ) → IsPage v → paging_get_table_entry k'.processes.ram k'.kernel_chunk v ≡ v + 7
  -- There are the four commands, and the keyboard is listed and called on its interrupt.
  pub commands : k'.isr80h_commands ≡ registered
  pub callback : get_or k'.interrupt_callbacks 0x21 none ≡ some im.qwerty_handler
  pub listed :
      AreLinked k'.keyboards.driver_at k'.keyboards.keyboard_list_last (im.qwerty_keyboard ∷ [])
  -- No file is open, and there are the processes and tasks that were there.
  pub no_files : k'.processes.table ≡ replicate 512 none
  pub processes_kept : k'.processes.processes ≡ k.processes.processes
  pub tasks_kept : k'.processes.tasks ≡ k.processes.tasks

wide :
    (base limit access_byte : ℕ)
    → base < 2 ^ 32
    → limit < 2 ^ 32
    → IsWide (record { base = base; limit = limit; access_byte = access_byte })
wide base limit access_byte b l = record { base_small = b; limit_small = l }

encodable : (tss : ℕ) → tss < 2 ^ 32 → AreEncodable (gdt_structured tss)
unfolding gdt_structured
encodable tss small =
    let below : (l : ℕ) → l ≤ 65536 → 65536 < l → l % 4096 ≡ 4095 = λ l h g. absurd (omega arith) in
    let last_byte : 65536 < 0xffffffff → 0xffffffff % 4096 ≡ 4095 = λ h. omega arith in
    let all = wide 0 0xffffffff in
    (
      wide 0 0 0 (omega arith) (omega arith),
      below 0 (omega arith),
      (
        all 0x9a (omega arith) (omega arith),
        last_byte,
        (
          all 0x92 (omega arith) (omega arith),
          last_byte,
          (
            all 0xf8 (omega arith) (omega arith),
            last_byte,
            (
              all 0xf2 (omega arith) (omega arith),
              last_byte,
              (wide tss 100 0xE9 small (omega arith), below 100 (omega arith), tt),
            ),
          ),
        ),
      ),
    )

fs_load_lem :
    {F : Type 0} (fat16 : F) (resolves : F → Bool)
    → resolves fat16 ≡ true
    → (filesystems : List (Option F)) × (fs_load fat16 ≡ some filesystems)
      × (fs_resolve resolves filesystems ≡ some fat16)
unfolding fs_load fs_resolve fs_insert_filesystem fs_get_free_filesystem free_filesystem
    resolve_from
fs_load_lem fat16 resolves yes_f = (set (replicate 12 none) 0 (some fat16), refl, rw yes_f refl)

module _ (keyboard handler : ℕ) (s : Drivers) (callbacks : List (Option ℕ)) where
  abbrev started : Drivers × List (Option ℕ)
  started = start_keyboard keyboard handler s callbacks

  abbrev listed_alone : Drivers
  listed_alone = record {
    driver_at = λ a.
        if a == keyboard then record (s.driver_at a) { init = some (ok tt) } else s.driver_at a;
    keyboard_list_head = keyboard;
    keyboard_list_last = keyboard;
  }

  drivers_started : s.keyboard_list_last ≡ 0 → started.0 ≡ listed_alone
  unfolding start_keyboard keyboard_init qwerty_keyboard_init keyboard_insert
      idt_register_interrupt_callback
  drivers_started none_before =
      rw
        (
          eq→== keyboard keyboard refl,
          eq→== s.keyboard_list_last 0 none_before,
          start_keyboard,
          keyboard_init,
          keyboard_insert,
        )
        refl

  -- The first keyboard is listed alone, and its handler is called on its interrupt.
  start_keyboard_lem :
      length callbacks ≡ 512
      → s.keyboard_list_last ≡ 0
      → (s.driver_at keyboard).next ≡ 0
      → AreLinked started.0.driver_at started.0.keyboard_list_last (keyboard ∷ [])
        × (get_or started.1 0x21 none ≡ some handler)
  unfolding start_keyboard keyboard_init qwerty_keyboard_init keyboard_insert
      idt_register_interrupt_callback
  start_keyboard_lem len none_before end = (
    subst (λ (t : Drivers). AreLinked t.driver_at t.keyboard_list_last (keyboard ∷ []))
        (sym (drivers_started none_before)) (refl, rw (eq→== keyboard keyboard refl) end),
    get_or-set_self callbacks 0x21 (some handler) none (omega arith),
  )

module _ {D : Type 0} (im : Image D) (k : Kernel D) where
  initialise-built :
      (gdt : List (List ℕ)) (filesystems : List (Option (Filesystem D)))
      (commands : List (Option SystemCommand))
      → gdt_structured_to_gdt (gdt_structured im.tss_address) ≡ some gdt
      → fs_load im.fat16 ≡ some filesystems
      → isr80h_register_commands k.isr80h_commands ≡ some commands
      → initialise im k ≡ some (built im k gdt filesystems commands)
  unfolding initialise
  initialise-built gdt filesystems commands e f c = rw (e, f, c, initialise) refl

  -- kernel_main comes through its initialisers, and each part is then as it promises.
  pub initialise_lem :
      IsReset im k
      → IsImage im
      → (k' : Kernel D) × (initialise im k ≡ some k') × IsInitialised im k k'
  unfolding initialise disk_search_and_init paging_new_4gb setup_tss
  initialise_lem reset image =
      let (gdt, encoded, decoded) =
        decode-gdt_structured_to_gdt (gdt_structured im.tss_address)
          (encodable im.tss_address image.tss_small) in
      let (filesystems, loaded, resolved) = fs_load_lem im.fat16 im.resolves image.is_fat16 in
      let (valid, total, free) =
        kheap_init_lem k.kernel_heap im.table_memory image.length-table_memory in
      let (directory, same) =
        paging_new_4gb-identity k.processes.ram im.page kernel_paging_flags image.pages
          (omega arith) in
      let (linked, called) =
        start_keyboard_lem im.qwerty_keyboard im.qwerty_handler k.keyboards k.interrupt_callbacks
          (ap length reset.no_callbacks) reset.no_keyboards reset.no_next in
      let registers_all =
        ap isr80h_register_commands reset.no_commands ∙ register_commands-registered in
      (
        built im k gdt filesystems registered,
        initialise-built gdt filesystems registered encoded loaded registers_all,
        record {
          segments = decoded;
          stack_end = refl;
          stack_segment = (refl, refl);
          zeros = refl;
          welcomes = welcome-Shows k.terminal reset.top_row reset.first_col;
          heap_valid = valid;
          blocks_free = free;
          mounted = resolved;
          gates = λ i h. idt_init_lem im.interrupt_pointer_table im.idt_zero im.isr80h_wrapper i h;
          in_force = refl;
          identity = same;
          commands = refl;
          callback = called;
          listed = linked;
          no_files = refl;
          processes_kept = refl;
          tasks_kept = refl;
        },
      )
