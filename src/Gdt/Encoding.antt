-- ===== src/Gdt/Encoding.antt =====
-- The encoding of a segment against the decoding that the processor applies.
use avocad_os.Base.{
  ℕ, ◌+◌, ◌*◌, ◌/◌, ◌%◌, ◌^◌, ◌<◌, ◌≡◌, bit_or, refl, ap, sym, subst, inl, inr, Bool, true, false,
  arith, ltb, ◌==◌, if◌then◌else◌, holds_below, holds_below_at, Bool-cases, Outcome, done, fault,
  out_of_fuel, ◌||◌, not,
}
use avocad_os.Gdt.{GdtStructure, GdtNative, encode, gdt_structure_to_native}

-- How the processor reads the eight bytes: the base, and the limit in bytes, which counts pages
-- when the granularity bit, the highest of byte 6, is set.
abbrev pub decode_base : GdtNative → ℕ
decode_base n = n.b2 + n.b3 * 2 ^ 8 + n.b4 * 2 ^ 16 + n.b7 * 2 ^ 24

abbrev pub raw_limit : GdtNative → ℕ
raw_limit n = n.b0 + n.b1 * 2 ^ 8 + n.b6 % 16 * 2 ^ 16

abbrev pub decode_limit : GdtNative → ℕ
decode_limit n = if ltb n.b6 128 then raw_limit n else raw_limit n * 4096 + 4095

byte_table : holds_below (λ x. bit_or 0x40 x == 0x40 + x) 16 ≡ true
unfolding holds_below
byte_table = refl

page_table : holds_below (λ x. bit_or 0xC0 x == 0xC0 + x) 16 ≡ true
unfolding holds_below
page_table = refl

byte_flags : (x : ℕ) → x < 16 → bit_or 0x40 x ≡ 0x40 + x
byte_flags x lt = let e = holds_below_at _ 16 x lt byte_table in ground arith

page_flags : (x : ℕ) → x < 16 → bit_or 0xC0 x ≡ 0xC0 + x
page_flags x lt = let e = holds_below_at _ 16 x lt page_table in ground arith

-- The processor reads the segment that was encoded.
pub record Encodes (s : GdtStructure) (n : GdtNative) : Type 0 where
  pub base_is : decode_base n ≡ s.base
  pub limit_is : decode_limit n ≡ s.limit
  pub kind_is : n.b5 ≡ s.kind

base-split :
    (b : ℕ)
    → b < 2 ^ 32
    → b % 256 + b / 2 ^ 8 % 256 * 2 ^ 8 + b / 2 ^ 16 % 256 * 2 ^ 16 + b / 2 ^ 24 % 256 * 2 ^ 24 ≡ b
base-split b lt = omega arith

limit-split :
    (l : ℕ) → l < 2 ^ 20 → l % 256 + l / 2 ^ 8 % 256 * 2 ^ 8 + l / 2 ^ 16 % 16 * 2 ^ 16 ≡ l
limit-split l lt = omega arith

encode-bytes :
    (s : GdtStructure) → s.base < 2 ^ 32 → s.limit < 2 ^ 20 → Encodes s (encode s s.limit 0x40)
unfolding encode
encode-bytes s lb ll =
    let f = byte_flags (s.limit / 2 ^ 16 % 16) (omega arith) in
    record {
      base_is = base-split s.base lb;
      limit_is = rw f (let e = limit-split s.limit ll in ground arith);
      kind_is = refl;
    }

encode-pages :
    (s : GdtStructure)
    → s.base < 2 ^ 32
    → s.limit < 2 ^ 32
    → s.limit % 4096 ≡ 4095
    → Encodes s (encode s (s.limit / 2 ^ 12) 0xC0)
unfolding encode
encode-pages s lb ll h =
    let f = page_flags (s.limit / 2 ^ 12 / 2 ^ 16 % 16) (omega arith) in
    record {
      base_is = base-split s.base lb;
      limit_is = rw f (let e = limit-split (s.limit / 2 ^ 12) (omega arith) in ground arith);
      kind_is = refl;
    }

to_native-bytes :
    (s : GdtStructure)
    → ltb 65536 s.limit ≡ false
    → gdt_structure_to_native s ≡ done (encode s s.limit 0x40, s)
unfolding gdt_structure_to_native
to_native-bytes s e = rw (gdt_structure_to_native, e)

to_native-pages :
    (s : GdtStructure)
    → ltb 65536 s.limit ≡ true
    → (s.limit % 4096 == 4095) ≡ true
    → gdt_structure_to_native s
      ≡ done (encode s (s.limit / 2 ^ 12) 0xC0, record s { limit = s.limit / 2 ^ 12 })
unfolding gdt_structure_to_native
to_native-pages s e h = rw (gdt_structure_to_native, e, h)

to_native-panic :
    (s : GdtStructure)
    → ltb 65536 s.limit ≡ true
    → (s.limit % 4096 == 4095) ≡ false
    → gdt_structure_to_native s ≡ fault
unfolding gdt_structure_to_native
to_native-panic s e h = rw (gdt_structure_to_native, e, h)

-- A segment can be encoded if its limit is small or fills its last page.
abbrev pub can_encode : GdtStructure → Bool
can_encode s = not (ltb 65536 s.limit) || s.limit % 4096 == 4095

-- The limit that stays in the structure: in pages where it was scaled.
abbrev pub left_limit : ℕ → ℕ
left_limit limit = if ltb 65536 limit then limit / 4096 else limit

-- What the encoding gives: bytes that the processor reads as the segment, or a panic for a limit
-- that has no encoding.
abbrev pub Encoded : GdtStructure → Outcome (GdtNative × GdtStructure) → Type 0
Encoded s (done (n, left)) =
    (can_encode s ≡ true) × Encodes s n × (left ≡ record s { limit = left_limit s.limit })
Encoded s fault = can_encode s ≡ false
Encoded s out_of_fuel = ⊥

-- For a 32-bit base and limit, the processor reads the bytes of `gdt_structure_to_native` as the
-- same base, limit and access byte, and the structure keeps its fields but for a limit above 65536,
-- which it has in pages afterwards; the function panics exactly for a limit above 65536 whose low
-- twelve bits are not all set.
pub gdt_structure_to_native-Encoded :
    (s : GdtStructure) → s.base < 2 ^ 32 → s.limit < 2 ^ 32 → Encoded s (gdt_structure_to_native s)
gdt_structure_to_native-Encoded s lb ll = elim (Bool-cases (ltb 65536 s.limit)) [
  | inl e ↦ elim (Bool-cases (s.limit % 4096 == 4095)) [
    | inl h ↦ subst (Encoded s) (sym (to_native-pages s e h)) (
      ground arith,
      encode-pages s lb ll (ground arith),
      ap (λ n. record s { limit = n }) (ground arith),
    )
    | inr h ↦ subst (Encoded s) (sym (to_native-panic s e h)) (ground arith)
  ]
  | inr e ↦ subst (Encoded s) (sym (to_native-bytes s e)) (
    ground arith,
    encode-bytes s lb (ground arith),
    ap (λ n. record s { limit = n }) (ground arith),
  )
]
