-- ===== src/Gdt.antt =====
-- src/gdt/gdt.c and the table of src/kernel.c: segment descriptors in the layout of the processor.
-- The panic of the encoder, which does not return, is `none`.
use ras_os.Base.{
  ◌==◌, not, bit_or, ◌&&◌, ◌^◌, ltb, ◌/◌, bit_and, ◌∷◌, if◌then◌else◌, Option, List, ℕ, [], some,
  none,
}
pub mod Decode
mod Examples

pub record GdtStructured : Type 0 where
  pub base : ℕ
  pub limit : ℕ
  pub access_byte : ℕ

-- The eight bytes, given the limit field and the flags.
abbrev encode_bytes : ℕ → ℕ → ℕ → ℕ → List ℕ
encode_bytes base limit flags access_byte =
    bit_and limit 0xFF
    ∷ bit_and (limit / 2 ^ 8) 0xFF
    ∷ bit_and base 0xFF
    ∷ bit_and (base / 2 ^ 8) 0xFF
    ∷ bit_and (base / 2 ^ 16) 0xFF
    ∷ access_byte
    ∷ bit_or flags (bit_and (limit / 2 ^ 16) 0x0F)
    ∷ bit_and (base / 2 ^ 24) 0xFF
    ∷ []

pub encode_gdt_entry : GdtStructured → Option (List ℕ)
encode_gdt_entry e =
    if ltb 65536 e.limit && not (bit_and e.limit 0xFFF == 0xFFF)
    then none
    else if ltb 65536 e.limit
    then some (encode_bytes e.base (e.limit / 2 ^ 12) 0xC0 e.access_byte)
    else some (encode_bytes e.base e.limit 0x40 e.access_byte)

-- The bytes of one descriptor behind another; the loop of the source over the list of entries.
pub gdt_structured_to_gdt : List GdtStructured → Option (List (List ℕ))
gdt_structured_to_gdt [] = some []
gdt_structured_to_gdt (e ∷ es) = elim (encode_gdt_entry e) [
  | none ↦ none
  | some d ↦ elim (gdt_structured_to_gdt es) [ none ↦ none | some ds ↦ some (d ∷ ds) ]
]

abbrev segment : ℕ → ℕ → ℕ → GdtStructured
segment base limit access_byte = record { base = base; limit = limit; access_byte = access_byte }

abbrev pub size_of_tss : ℕ
size_of_tss = 100

-- The table of the kernel, with the TSS at address `tss`.
unfoldable pub gdt_structured : ℕ → List GdtStructured
gdt_structured tss =
    segment 0x00 0x00 0x00
    ∷ segment 0x00 0xffffffff 0x9a
    ∷ segment 0x00 0xffffffff 0x92
    ∷ segment 0x00 0xffffffff 0xf8
    ∷ segment 0x00 0xffffffff 0xf2
    ∷ segment tss size_of_tss 0xE9
    ∷ []
