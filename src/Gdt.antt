-- ===== src/Gdt.antt =====
-- src/kernel/gdt.c: the encoding of a segment into the eight bytes of its descriptor, and the
-- segments of the kernel.
mod Tests
pub mod Encoding
use avocad_os.Base.{
  ℕ, zero, suc, ◌+◌, ◌-◌, ◌*◌, ◌/◌, ◌%◌, ◌^◌, bit_or, Bool, true, false, not, ◌&&◌, List, [], ◌∷◌,
  map, ltb, ◌==◌, if◌then◌else◌, Outcome, done, fault, ◌>>=◌,
}

-- `struct gdt_structure`
pub record GdtStructure : Type 0 where
  pub base : ℕ
  pub limit : ℕ
  pub kind : ℕ

-- `struct gdt_native`, byte by byte: `target[0]` to `target[7]`.
pub record GdtNative : Type 0 where
  pub b0 : ℕ
  pub b1 : ℕ
  pub b2 : ℕ
  pub b3 : ℕ
  pub b4 : ℕ
  pub b5 : ℕ
  pub b6 : ℕ
  pub b7 : ℕ

-- The bytes for a limit that has been scaled, with the flags of byte 6.
unfoldable pub encode : GdtStructure → ℕ → ℕ → GdtNative
encode structure limit flags = record {
  b0 = limit % 256;
  b1 = limit / 2 ^ 8 % 256;
  b6 = bit_or flags (limit / 2 ^ 16 % 16);
  b2 = structure.base % 256;
  b3 = structure.base / 2 ^ 8 % 256;
  b4 = structure.base / 2 ^ 16 % 256;
  b7 = structure.base / 2 ^ 24 % 256;
  b5 = structure.kind;
}

-- `gdt_structure_to_native`: the bytes, and the structure, whose limit is scaled in place; a panic is a
-- fault.
unfoldable pub gdt_structure_to_native : GdtStructure → Outcome (GdtNative × GdtStructure)
unfolding encode
gdt_structure_to_native structure = elim (ltb 65536 structure.limit) [
  | false ↦ done (encode structure structure.limit 0x40, structure)
  | true ↦ elim (structure.limit % 4096 == 4095) [
    | false ↦ fault
    | true ↦
        let structure = record structure { limit = structure.limit / 2 ^ 12 } in
        done (encode structure structure.limit 0xC0, structure)
  ]
]

-- `gdt_structures_to_native_gdts`
unfoldable pub gdt_structures_to_native_gdts :
    List GdtStructure → Outcome (List (GdtNative × GdtStructure))
gdt_structures_to_native_gdts [] = done []
gdt_structures_to_native_gdts (s ∷ ss) =
    let rest = gdt_structures_to_native_gdts ss in
    gdt_structure_to_native s >>= (λ n. rest >>= (λ ns. done (n ∷ ns)))

-- The flags of `gdt.h`.
abbrev pub gdt_flag_present : ℕ
gdt_flag_present = 0x80

abbrev pub gdt_flag_segment : ℕ
gdt_flag_segment = 0x10

abbrev pub gdt_flag_codeseg : ℕ
gdt_flag_codeseg = 0x0A

abbrev pub gdt_flag_dataseg : ℕ
gdt_flag_dataseg = 0x02

abbrev pub gdt_flag_tss : ℕ
gdt_flag_tss = 0x09

abbrev pub gdt_flag_ring3 : ℕ
gdt_flag_ring3 = 0x60

-- The table that `gdt_init` fills: null, kernel code and data, user code and data, and the task
-- state segment at `tss`, of `tss_size` bytes.
unfoldable pub gdt_segments : ℕ → ℕ → List GdtStructure
gdt_segments tss tss_size =
    record { base = 0; limit = 0; kind = 0 }
    ∷ record {
      base = 0;
      limit = 0xFFFFFFFF;
      kind = bit_or (bit_or gdt_flag_segment gdt_flag_codeseg) gdt_flag_present;
    }
    ∷ record {
      base = 0;
      limit = 0xFFFFFFFF;
      kind = bit_or (bit_or gdt_flag_segment gdt_flag_dataseg) gdt_flag_present;
    }
    ∷ record {
      base = 0;
      limit = 0xFFFFFFFF;
      kind =
          bit_or (bit_or (bit_or gdt_flag_ring3 gdt_flag_segment) gdt_flag_codeseg)
            gdt_flag_present;
    }
    ∷ record {
      base = 0;
      limit = 0xFFFFFFFF;
      kind =
          bit_or (bit_or (bit_or gdt_flag_ring3 gdt_flag_segment) gdt_flag_dataseg)
            gdt_flag_present;
    }
    ∷ record { base = tss; limit = tss_size - 1; kind = bit_or gdt_flag_present gdt_flag_tss }
    ∷ []

-- `struct tss`: the fields that `tss_init` sets; the others are 0.
pub record Tss : Type 0 where
  pub esp0 : ℕ
  pub ss0 : ℕ
  pub es : ℕ
  pub cs : ℕ
  pub ss : ℕ
  pub ds : ℕ
  pub fs : ℕ
  pub gs : ℕ

-- The words of `struct tss` in memory: link, esp0, ss0, esp1, esp2, ss2, sr3, eip, eflags, the eight
-- general registers, es, cs, ss, ds, fs, gs, ldtr, iopb.
unfoldable pub tss_words : Tss → List ℕ
tss_words t =
    0 ∷ t.esp0 ∷ t.ss0 ∷ 0 ∷ 0 ∷ 0 ∷ 0 ∷ 0 ∷ 0 ∷ 0 ∷ 0 ∷ 0 ∷ 0 ∷ 0 ∷ 0 ∷ 0 ∷ 0 ∷ t.es ∷ t.cs ∷ t.ss
    ∷ t.ds ∷ t.fs ∷ t.gs ∷ 0 ∷ 0 ∷ []

-- `tss_init`, with the address of `system_task_stack_bottom`; 16 is GDT_KERNEL_DATA_SEGMENT_SELECTOR.
unfoldable pub tss_init : ℕ → Tss
tss_init system_task_stack_bottom = record {
  esp0 = system_task_stack_bottom;
  ss0 = 16;
  es = 0x13;
  cs = 0x0B;
  ss = 0x13;
  ds = 0x13;
  fs = 0x13;
  gs = 0x13;
}

unfoldable pub tss_set_kernel_stack : Tss → ℕ → Tss
tss_set_kernel_stack t kernel_stack_pointer = record t { esp0 = kernel_stack_pointer }
