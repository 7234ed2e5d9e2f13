-- ===== src/Paging/Entry.antt =====
-- Page table entries: what the bit operations on them compute.
use avocad_os.Base.{
  ℕ, ◌+◌, ◌*◌, ◌/◌, ◌%◌, ◌^◌, ◌≤◌, ◌<◌, ◌≡◌, ◌∙◌, ap, bit_and, bit_or, true, not, arith, ◌==◌,
}
use avocad_os.Base.Bits.{
  shifted, bit_or-shifted, bit_and-shifted, bit_and-ones, bit_and-low, bit_and-small,
}
use avocad_os.Paging.{is_pse, page_entry_addr, paging_addr_is_page_aligned, paging_align_address}

split : (a : ℕ) → a ≡ shifted 12 (a / 4096) + a % 4096
split a = omega arith

low_bits : (a : ℕ) → bit_and a 4095 ≡ a % 4096
low_bits a = ap (λ x. bit_and x 4095) (split a) ∙ bit_and-low 12 (a / 4096) (a % 4096) (omega arith)

-- The test of the alignment is a test of the remainder.
pub aligned_iff : (a : ℕ) → paging_addr_is_page_aligned a ≡ (a % 4096 == 0)
unfolding paging_addr_is_page_aligned
aligned_iff a = ap (λ x. x == 0) (low_bits a)

-- Flags are added to the address of a page.
pub entry-sum : (p flags : ℕ) → p % 4096 ≡ 0 → flags < 4096 → bit_or p flags ≡ p + flags
entry-sum p flags h lt =
    let e : p ≡ shifted 12 (p / 4096) = omega arith in
    ap (λ x. bit_or x flags) e ∙ bit_or-shifted 12 (p / 4096) flags lt ∙ omega arith

-- The address of an entry.
pub addr-entry :
    (p flags : ℕ) → p % 4096 ≡ 0 → p < 2 ^ 32 → flags < 4096 → page_entry_addr (bit_or p flags) ≡ p
unfolding page_entry_addr
addr-entry p flags h lt lf =
    let e : p + flags ≡ shifted 12 (p / 4096) + flags = omega arith in
    ap (λ x. bit_and x 0xFFFFF000) (entry-sum p flags h lf ∙ e)
    ∙ bit_and-shifted 12 (p / 4096) flags 0xFFFFF lf
    ∙ ap (shifted 12) (bit_and-ones 20 (p / 4096) (omega arith))
    ∙ omega arith

-- For an address of at most 0xFFFFF000, `paging_align_address` gives the least aligned address that
-- is not below it.
pub paging_align_address-least :
    (a : ℕ)
    → a ≤ 0xFFFFF000
    → (paging_addr_is_page_aligned (paging_align_address a) ≡ true)
      × (a ≤ paging_align_address a)
      × ((b : ℕ) → b % 4096 ≡ 0 → a ≤ b → paging_align_address a ≤ b)
unfolding paging_align_address
paging_align_address-least a h = (
  aligned_iff (4096 * ((a + 4095) % 2 ^ 32 / 4096) % 2 ^ 32) ∙ (ground arith),
  omega arith,
  λ b e le. omega arith,
)

-- The bit of a large page is one of the flags.
pub is_pse-entry :
    (p flags : ℕ) → p % 4096 ≡ 0 → flags < 4096 → is_pse (bit_or p flags) ≡ is_pse flags
unfolding is_pse
is_pse-entry p flags h lt =
    let e : p + flags ≡ shifted 12 (p / 4096) + flags = omega arith in
    ap (λ x. not (bit_and x 0x80 == 0)) (entry-sum p flags h lt ∙ e)
    ∙ ap (λ x. not (x == 0)) (bit_and-small 12 (p / 4096) flags 0x80 lt (omega arith))
