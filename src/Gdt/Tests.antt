-- ===== src/Gdt/Tests.antt =====
-- The segments of the kernel and their bytes.
use avocad_os.Base.{◌≡◌, refl, arith, done, take, [], ◌∷◌}
use avocad_os.Gdt.{
  tss_words, tss_set_kernel_stack, tss_init, GdtStructure, encode, gdt_structure_to_native,
}
use avocad_os.Gdt.Encoding.{Encoded, gdt_structure_to_native-Encoded}

-- The user code segment.
abbrev user_code : GdtStructure
user_code = record { base = 0; limit = 0xFFFFFFFF; kind = 0xFA }

gdt_structure_to_native-Encoded_example : Encoded user_code (gdt_structure_to_native user_code)
gdt_structure_to_native-Encoded_example =
    gdt_structure_to_native-Encoded user_code (omega arith) (omega arith)

user_code_bytes :
    gdt_structure_to_native user_code
    ≡ done (
      record { b0 = 0xFF; b1 = 0xFF; b2 = 0; b3 = 0; b4 = 0; b5 = 0xFA; b6 = 0xCF; b7 = 0 },
      record { base = 0; limit = 0xFFFFF; kind = 0xFA },
    )
unfolding gdt_structure_to_native encode
user_code_bytes = refl

-- The processor reads the stack of the next entry into ring 0 in the second and third word.
tss_stack : take 3 (tss_words (tss_set_kernel_stack (tss_init 4096) 8192)) ≡ 0 ∷ 8192 ∷ 16 ∷ []
unfolding tss_words tss_set_kernel_stack tss_init
tss_stack = refl
