-- ===== src/Gdt/Decode.antt =====
-- What the processor reads from the bytes of src/gdt/gdt.c.
use ras_os.Gdt.{GdtStructured, encode_gdt_entry, gdt_structured_to_gdt}
use ras_os.Base.{
  ap₂, Option-cases, ◌∷◌, map, [], inr, inl, ltb, if◌then◌else◌, ◌*◌, ◌≢◌, ◌+◌, ◌/◌, ◌%◌, get_or,
  ◌↔◌, ℕ, ◌^◌, List, ◌<◌, ◌≡◌, arith, refl, some, none,
}
use ras_os.Base.Bits.{bit_and_mask, bit_or_shift}

-- The processor's view: a base of 32 bits in four bytes; a limit field of 20 bits, which counts pages
-- if the highest bit of byte 6 is set; the access byte.
unfoldable pub decode : List ℕ → GdtStructured
decode d =
    let at = λ (i : ℕ). get_or d i 0 in
    let field : ℕ = at 0 + 256 * at 1 + 65536 * (at 6 % 16) in
    record {
      base = at 2 + 256 * at 3 + 65536 * at 4 + 16777216 * at 7;
      limit = if ltb (at 6) 128 then field else field * 4096 + 4095;
      access_byte = at 5;
    }

pub record IsWide (e : GdtStructured) : Type 0 where
  pub base_small : e.base < 2 ^ 32
  pub limit_small : e.limit < 2 ^ 32

-- A descriptor that is encoded is read back by the processor as it was given, for a base and a limit
-- of 32 bits.
pub decode-encode_gdt_entry :
    (e : GdtStructured) (d : List ℕ) → IsWide e → encode_gdt_entry e ≡ some d → decode d ≡ e
unfolding encode_gdt_entry decode
decode-encode_gdt_entry e d w h = ground (
  arith,
  bit_and_mask 8 e.limit 0xFF refl,
  bit_and_mask 8 (e.limit / 2 ^ 8) 0xFF refl,
  bit_and_mask 8 e.base 0xFF refl,
  bit_and_mask 8 (e.base / 2 ^ 8) 0xFF refl,
  bit_and_mask 8 (e.base / 2 ^ 16) 0xFF refl,
  bit_and_mask 8 (e.base / 2 ^ 24) 0xFF refl,
  bit_and_mask 4 (e.limit / 2 ^ 16) 0x0F refl,
  bit_and_mask 8 (e.limit / 2 ^ 12) 0xFF refl,
  bit_and_mask 8 (e.limit / 2 ^ 12 / 2 ^ 8) 0xFF refl,
  bit_and_mask 4 (e.limit / 2 ^ 12 / 2 ^ 16) 0x0F refl,
  bit_and_mask 12 e.limit 0xFFF refl,
  bit_or_shift 4 12 (e.limit / 2 ^ 12 / 2 ^ 16 % 16) (omega arith),
  bit_or_shift 4 4 (e.limit / 2 ^ 16 % 16) (omega arith),
)

-- The encoder panics exactly at a limit above 64 KiB that is not the last byte of a page.
pub encode_gdt_entry-none :
    (e : GdtStructured)
    → (encode_gdt_entry e ≡ none) ↔ ((65536 < e.limit) × (e.limit % 4096 ≢ 4095))
unfolding encode_gdt_entry
encode_gdt_entry-none e = (
  λ h. ground (arith, bit_and_mask 12 e.limit 0xFFF refl),
  λ h. ground (arith, bit_and_mask 12 e.limit 0xFFF refl),
)

-- Descriptors that the encoder takes.
abbrev pub AreEncodable : List GdtStructured → Type 0
AreEncodable [] = Unit {0}
AreEncodable (e ∷ es) = IsWide e × (65536 < e.limit → e.limit % 4096 ≡ 4095) × AreEncodable es

-- The processor reads a table of such descriptors as it was given.
pub decode-gdt_structured_to_gdt :
    (es : List GdtStructured)
    → AreEncodable es
    → (ds : List (List ℕ)) × (gdt_structured_to_gdt es ≡ some ds) × (map decode ds ≡ es)
unfolding gdt_structured_to_gdt
decode-gdt_structured_to_gdt [] all = ([], refl, refl)
decode-gdt_structured_to_gdt (e ∷ es) (wide, ends, all) = elim (Option-cases (encode_gdt_entry e)) [
  | inl z ↦ let (above, not_last) = (encode_gdt_entry-none e).0 z in absurd (not_last (ends above))
  | inr (d, q) ↦
      let (ds, encoded, same) = decode-gdt_structured_to_gdt es all in
      (
        d ∷ ds,
        rw (q, encoded, gdt_structured_to_gdt) refl,
        ap₂ ◌∷◌ (decode-encode_gdt_entry e d wide q) same,
      )
]
