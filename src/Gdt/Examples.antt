-- ===== src/Gdt/Examples.antt =====
-- src/gdt/gdt.c at entries of the kernel's table.
use ras_os.Gdt.{GdtStructured, encode_gdt_entry}
use ras_os.Gdt.Decode.{decode, decode-encode_gdt_entry}
use ras_os.Base.{◌∷◌, ◌≡◌, arith, [], refl, some}

abbrev flat_code : GdtStructured
flat_code = record { base = 0; limit = 0xffffffff; access_byte = 0x9a }

flat_code_encoded :
    encode_gdt_entry flat_code ≡ some (0xFF ∷ 0xFF ∷ 0 ∷ 0 ∷ 0 ∷ 0x9a ∷ 0xCF ∷ 0 ∷ [])
unfolding encode_gdt_entry
flat_code_encoded = refl

decode-encode_gdt_entry_example :
    decode (0xFF ∷ 0xFF ∷ 0 ∷ 0 ∷ 0 ∷ 0x9a ∷ 0xCF ∷ 0 ∷ []) ≡ flat_code
decode-encode_gdt_entry_example =
    decode-encode_gdt_entry flat_code (0xFF ∷ 0xFF ∷ 0 ∷ 0 ∷ 0 ∷ 0x9a ∷ 0xCF ∷ 0 ∷ [])
      (record { base_small = omega arith; limit_small = omega arith }) flat_code_encoded
