-- ===== src/Idt/Gates.antt =====
-- The gates of src/idt/idt.c hold the addresses of the handlers.
use ras_os.Base.{
  ◌%◌, ◌/◌, length-replicate, ne→==, replicate, sym, get_or-set_self, subst, ◌==◌, get_or-set_ne,
  if◌then◌else◌, ℕ_discrete, length-set, ◌∙◌, get_or, set, ◌<◌, ◌≤◌, length, ◌*◌, List, ◌+◌, ◌≡◌, ℕ,
  arith, refl, suc, zero,
}
use ras_os.Base.Bits.{bit_and_mask}
use ras_os.Idt.{IdtDesc, gate, blank_desc, idt_set, idt_set_from, idt_init}

-- The address that the processor puts together from a gate.
unfoldable pub address_of : IdtDesc → ℕ
address_of d = d.offset_1 + 65536 * d.offset_2

pub address_of-gate : (a : ℕ) → address_of (gate a) ≡ a
unfolding address_of gate
address_of-gate a = omega (arith, bit_and_mask 16 a 0xFFFF refl)

length-idt_set_from :
    (n i : ℕ) (t : ℕ → ℕ) (ds : List IdtDesc) → length (idt_set_from n i t ds) ≡ length ds
unfolding idt_set_from
length-idt_set_from zero i t ds = refl
length-idt_set_from (suc n) i t ds =
    length-idt_set_from n (i + 1) t (set ds i (gate (t i))) ∙ length-set ds i (gate (t i))

idt_set_from_below :
    (n i k : ℕ) (t : ℕ → ℕ) (ds : List IdtDesc) (d : IdtDesc)
    → k < i
    → get_or (idt_set_from n i t ds) k d ≡ get_or ds k d
unfolding idt_set_from idt_set
idt_set_from_below zero i k t ds d h = refl
idt_set_from_below (suc n) i k t ds d h =
    idt_set_from_below n (i + 1) k t (set ds i (gate (t i))) d (omega arith)
    ∙ get_or-set_ne ds i k (gate (t i)) d (omega arith)

get_or-idt_set_from :
    (n i k : ℕ) (t : ℕ → ℕ) (ds : List IdtDesc) (d : IdtDesc)
    → i + n ≤ length ds
    → i ≤ k
    → k < i + n
    → get_or (idt_set_from n i t ds) k d ≡ gate (t k)
unfolding idt_set_from idt_set
get_or-idt_set_from zero i k t ds d h lo hi = absurd (omega arith)
get_or-idt_set_from (suc n) i k t ds d h lo hi =
    unfold idt_set_from idt_set in
    elim (ℕ_discrete i k) [
      | yes e ↦
          idt_set_from_below n (i + 1) k t (set ds i (gate (t i))) d (omega arith)
          ∙ subst (λ j. get_or (set ds i (gate (t i))) j d ≡ gate (t j)) e
              (get_or-set_self ds i (gate (t i)) d (omega arith))
      | no ne ↦
          get_or-idt_set_from n (i + 1) k t (set ds i (gate (t i))) d
            (omega (arith, length-set ds i (gate (t i)))) (omega arith) (omega arith)
    ]

-- The two writes behind the loop.
set_two :
    (ds : List IdtDesc) (g0 g1 d : IdtDesc) (k : ℕ)
    → length ds ≡ 512
    → get_or (set (set ds 0 g0) 0x80 g1) k d
      ≡ (if k == 0x80 then g1 else if k == 0 then g0 else get_or ds k d)
set_two ds g0 g1 d k len = elim (ℕ_discrete k 0x80) [
  | yes e ↦ rw e (get_or-set_self (set ds 0 g0) 0x80 g1 d (omega (arith, length-set ds 0 g0)))
  | no ne ↦
      get_or-set_ne (set ds 0 g0) 0x80 k g1 d (λ e. ne (sym e))
      ∙ rw (ne→== k 0x80 ne) (elim (ℕ_discrete k 0) [
        | yes e ↦ rw e (get_or-set_self ds 0 g0 d (omega arith))
        | no nz ↦ get_or-set_ne ds 0 k g0 d (λ e. nz (sym e)) ∙ rw (ne→== k 0 nz)
      ])
]

gates_of :
    (table : ℕ → ℕ) (idt_zero wrapper k : ℕ) (ds : List IdtDesc)
    → length ds ≡ 512
    → k < 512
    → get_or
        (set (set (idt_set_from 512 0 table ds) 0 (gate idt_zero)) 0x80 (gate wrapper))
        k
        blank_desc
      ≡ gate (if k == 0x80 then wrapper else if k == 0 then idt_zero else table k)
gates_of table idt_zero wrapper k ds len h =
    set_two (idt_set_from 512 0 table ds) (gate idt_zero) (gate wrapper) blank_desc k
      (length-idt_set_from 512 0 table ds ∙ len)
    ∙ ground (
      arith,
      get_or-idt_set_from 512 0 k table ds blank_desc (omega arith) (omega arith) (omega arith),
    )

-- A gate as the processor reads it: the address of the handler; the segment of the kernel's code, entry 1
-- of the table, for ring 0; and from the top bit on, present, callable from ring 3, and an interrupt gate of
-- 32 bits.
pub record IsInterruptGate (d : IdtDesc) (handler : ℕ) : Type 0 where
  pub leads : address_of d ≡ handler
  pub code_entry : d.selector / 8 ≡ 1
  pub code_ring : d.selector % 8 ≡ 0
  pub present : d.type_attributes / 128 ≡ 1
  pub callable_from : d.type_attributes / 32 % 4 ≡ 3
  pub kind : d.type_attributes % 32 ≡ 0xE
  pub zero_kept : d.zero_byte ≡ 0

gate-IsInterruptGate : (a : ℕ) → IsInterruptGate (gate a) a
unfolding gate
gate-IsInterruptGate a = record {
  leads = address_of-gate a;
  code_entry = refl;
  code_ring = refl;
  present = refl;
  callable_from = refl;
  kind = refl;
  zero_kept = refl;
}

-- After idt_init each of the 512 gates is an interrupt gate to its handler: gate 0 to idt_zero, gate 0x80 to
-- the wrapper of the system calls, and any other to its entry of the pointer table.
pub idt_init_lem :
    (table : ℕ → ℕ) (idt_zero wrapper k : ℕ)
    → k < 512
    → IsInterruptGate
        (get_or (idt_init table idt_zero wrapper) k blank_desc)
        (if k == 0x80 then wrapper else if k == 0 then idt_zero else table k)
unfolding idt_init idt_set
idt_init_lem table idt_zero wrapper k h =
    let handler = if k == 0x80 then wrapper else if k == 0 then idt_zero else table k in
    subst (λ d. IsInterruptGate d handler)
      (sym (
        gates_of table idt_zero wrapper k (replicate 512 blank_desc)
          (length-replicate 512 blank_desc) h))
      (gate-IsInterruptGate handler)
