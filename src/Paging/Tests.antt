-- ===== src/Paging/Tests.antt =====
-- Mapping a page into an empty directory.
use avocad_os.Base.{
  ℕ, ◌+◌, ◌==◌, if◌then◌else◌, ◌*◌, ◌%◌, ◌≤◌, ◌≡◌, refl, true, false, [], ◌∷◌, arith, done, ok,
  ◌>>=◌,
}
use avocad_os.Paging.{
  Directory, paging_clone_directory, paging_map_page, virtual_to_physical_addr, is_pse,
  paging_align_address, paging_addr_is_page_aligned, paging_map_from_to, paging_map_range, map_loop,
  with_table, add_table, set_entry, directory_index, table_index, frame_index, page_entry_addr,
}
use avocad_os.Paging.Entry.{paging_align_address-least}
use avocad_os.Paging.Clone.{ClonesAt, paging_clone_directory-ClonesAt}
use avocad_os.Paging.Map.{IsValid, Mapped, paging_map_page-Mapped}

abbrev empty : Directory
empty = record {
  directory = λ i. 0;
  directory_virtual = λ i. 0;
  tables = λ t i. 0;
  free = 4096 ∷ 8192 ∷ [];
}

empty-IsValid : IsValid empty
empty-IsValid = record {
  apart = λ i j n e. absurd (n refl);
  small = λ i n. absurd (n refl);
  fresh = λ t m. (λ e. ground arith, λ i e. ground arith);
  distinct = ground arith;
}

no_pse : is_pse 7 ≡ false
unfolding is_pse
no_pse = refl

paging_map_page-Mapped_example :
    (h' : Directory) × (paging_map_page (λ t. t * 4096) empty 0x400000 0x7000 7 ≡ done (h', ok 0))
    × Mapped empty 0x400000 0x7000 h'
paging_map_page-Mapped_example =
    paging_map_page-Mapped (λ t. t * 4096) empty 0x400000 0x7000 7 4096 (8192 ∷ []) empty-IsValid
      refl (λ t. omega arith) refl refl (omega arith) (omega arith) no_pse

paging_align_address-least_example :
    (paging_addr_is_page_aligned (paging_align_address 5000) ≡ true)
    × (5000 ≤ paging_align_address 5000)
    × ((b : ℕ) → b % 4096 ≡ 0 → 5000 ≤ b → paging_align_address 5000 ≤ b)
paging_align_address-least_example = paging_align_address-least 5000 (omega arith)

-- Two pages.
range_runs :
    (paging_map_from_to (λ t. t * 4096) empty 0x400000 0x7000 0x9000 7
      >>= (λ r. virtual_to_physical_addr false r.0 0x401234))
    ≡ done 0x8234
unfolding paging_map_from_to paging_map_range map_loop paging_map_page with_table add_table
    set_entry paging_addr_is_page_aligned virtual_to_physical_addr directory_index table_index
    frame_index page_entry_addr is_pse
range_runs = refl

-- A kernel with its first 4 MB in one page table.
abbrev kernel : Directory
kernel = record {
  directory = λ i. if i == 0 then 0x5003 else 0;
  directory_virtual = λ i. if i == 0 then 0x5000 else 0;
  tables = λ t i. i * 4096 + 3;
  free = [];
}

paging_clone_directory-ClonesAt_example :
    ClonesAt
      (λ t. t)
      kernel
      8192
      (12288 ∷ [])
      false
      0x3456
      (paging_clone_directory (λ t. t) kernel kernel (4096 ∷ 8192 ∷ 12288 ∷ []))
unfolding directory_index
paging_clone_directory-ClonesAt_example =
    paging_clone_directory-ClonesAt (λ t. t) kernel 4096 8192 (12288 ∷ []) false 0x3456
      (omega arith) refl
