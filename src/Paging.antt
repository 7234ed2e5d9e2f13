-- ===== src/Paging.antt =====
-- src/memory/paging.c: the two-level page tables of the processor. Addresses are below 2 ^ 32. A page
-- table is named by its virtual address; `kzalloc` hands out the zeroed pages of a list, and NULL when
-- the list has ended; `physical` is what `virtual_to_physical_addr` gives for a page table in the
-- directory that is current.
mod Tests
pub mod Entry
pub mod Map
pub mod Clone
use avocad_os.Base.{
  ℕ, zero, suc, ◌+◌, ◌-◌, ◌*◌, ◌/◌, ◌%◌, ◌^◌, bit_and, bit_or, Bool, true, false, not, ◌||◌, List,
  [], ◌∷◌, ltb, ◌==◌, if◌then◌else◌, Outcome, done, fault, ◌>>=◌, Result, ok, err, einval,
}
use avocad_os.Links.{update}

-- PAGING_PAGE_SIZE
abbrev pub page_size : ℕ
page_size = 4096

-- V_ADDR_PAGEDIR_INDEX, V_ADDR_PAGETBL_INDEX, V_ADDR_PAGEFRAME_INDEX
unfoldable pub directory_index : ℕ → ℕ
directory_index v = v / 2 ^ 22

unfoldable pub table_index : ℕ → ℕ
table_index v = v / 2 ^ 12 % 1024

unfoldable pub frame_index : ℕ → ℕ
frame_index v = v % 4096

-- PAGE_ENTRY_ADDR
unfoldable pub page_entry_addr : ℕ → ℕ
page_entry_addr entry = bit_and entry 0xFFFFF000

-- PAGE_ENTRY_PSE_BIT, as a test
unfoldable pub is_pse : ℕ → Bool
is_pse entry = not (bit_and entry 0x80 == 0)

-- `struct page_directory_handle`, the page tables by their virtual address, and the pages that
-- `kzalloc` has left.
pub record Directory : Type 0 where
  pub directory : ℕ → ℕ
  pub directory_virtual : ℕ → ℕ
  pub tables : ℕ → ℕ → ℕ
  pub free : List ℕ

-- `virtual_to_physical_addr`; `pse` is the bit of cr4, and a panic is a fault.
unfoldable pub virtual_to_physical_addr : Bool → Directory → ℕ → Outcome ℕ
virtual_to_physical_addr pse handle v =
    let entry = handle.directory (directory_index v) in
    elim (is_pse entry) [
      | true ↦ elim pse [ false ↦ fault | true ↦ done (page_entry_addr entry + v % 2 ^ 22) ]
      | false ↦
          let entry =
            handle.tables (handle.directory_virtual (directory_index v)) (table_index v) in
          done (page_entry_addr entry + frame_index v)
    ]

unfoldable pub paging_addr_is_page_aligned : ℕ → Bool
paging_addr_is_page_aligned addr = bit_and addr (page_size - 1) == 0

-- `paging_align_address`, modulo 2 ^ 32
unfoldable pub paging_align_address : ℕ → ℕ
paging_align_address addr = page_size * ((addr + (page_size - 1)) % 2 ^ 32 / page_size) % 2 ^ 32

-- The store `handle->directory_virtual[directory_index][table_index] = page_ptr | flags`.
unfoldable pub set_entry : Directory → ℕ → ℕ → ℕ → Directory
set_entry handle table index entry = record handle {
  tables = λ t. if table == t then update (handle.tables t) index entry else handle.tables t;
}

-- A new page table at `table`, all of it zero.
unfoldable pub add_table : (ℕ → ℕ) → Directory → ℕ → ℕ → List ℕ → ℕ → Directory
add_table physical handle index table free flags = record {
  directory = update handle.directory index (bit_or (physical table) flags);
  directory_virtual = update handle.directory_virtual index table;
  tables = λ t. if table == t then (λ i. 0) else handle.tables t;
  free = free;
}

-- The two tests of the page table: a missing one is allocated. When `kzalloc` fails, the entry is
-- written through NULL in the end.
unfoldable pub with_table : (ℕ → ℕ) → Directory → ℕ → ℕ → Outcome Directory
with_table physical handle index flags = elim (handle.directory_virtual index == 0) [
  | false ↦ done handle
  | true ↦ elim handle.free [
    | [] ↦ fault
    | table ∷ free ↦ done (add_table physical handle index table free flags)
  ]
]

-- `paging_map_page`, without its trace on the terminal.
unfoldable pub paging_map_page : (ℕ → ℕ) → Directory → ℕ → ℕ → ℕ → Outcome (Directory × Result ℕ)
paging_map_page physical handle virt_addr page_ptr flags =
    elim (not (paging_addr_is_page_aligned virt_addr)
      || not (paging_addr_is_page_aligned page_ptr)) [
        | true ↦ done (handle, err einval)
        | false ↦ with_table physical handle (directory_index virt_addr) flags >>= (λ handle. done (
          set_entry handle (handle.directory_virtual (directory_index virt_addr))
              (table_index virt_addr) (bit_or page_ptr flags),
          ok 0,
        ))
      ]

-- The loop of `paging_map_range`, with `count` pages left.
unfoldable pub map_loop : (ℕ → ℕ) → Directory → ℕ → ℕ → ℕ → ℕ → Outcome (Directory × Result ℕ)
map_loop physical handle virt_addr phys_addr zero flags = done (handle, ok 0)
map_loop physical handle virt_addr phys_addr (suc count) flags =
    paging_map_page physical handle virt_addr phys_addr flags >>= (λ r. elim r.1 [
      | err e ↦ done r
      | ok _ ↦
          map_loop physical r.0 ((virt_addr + page_size) % 2 ^ 32)
            ((phys_addr + page_size) % 2 ^ 32) count flags
    ])

unfoldable pub paging_map_range :
    (ℕ → ℕ) → Directory → ℕ → ℕ → ℕ → ℕ → Outcome (Directory × Result ℕ)
paging_map_range physical handle virt_addr phys_addr count flags =
    elim (not (paging_addr_is_page_aligned virt_addr)
      || not (paging_addr_is_page_aligned phys_addr)) [
        | true ↦ done (handle, err einval)
        | false ↦ map_loop physical handle virt_addr phys_addr count flags
      ]

unfoldable pub paging_map_from_to :
    (ℕ → ℕ) → Directory → ℕ → ℕ → ℕ → ℕ → Outcome (Directory × Result ℕ)
paging_map_from_to physical handle virt_addr phys_begin phys_end flags =
    elim (not (paging_addr_is_page_aligned virt_addr)
      || not (paging_addr_is_page_aligned phys_begin)
      || not (paging_addr_is_page_aligned phys_end)
      || ltb phys_end phys_begin) [
        | true ↦ done (handle, err einval)
        | false ↦
            paging_map_range physical handle virt_addr phys_begin
              ((phys_end - phys_begin) / page_size) flags
      ]

-- PAGE_ENTRY_FLAGS
unfoldable pub page_entry_flags : ℕ → ℕ
page_entry_flags entry = bit_and entry 0xFFF

-- One entry that `paging_clone_directory` shares with the kernel's directory.
unfoldable pub share_entry : Directory → Directory → ℕ → Directory
share_entry kernel copy i = record copy {
  directory = update copy.directory i (kernel.directory i);
  directory_virtual = update copy.directory_virtual i (kernel.directory_virtual i);
}

-- One entry whose page table is copied into the new page `table`.
unfoldable pub copy_entry : (ℕ → ℕ) → Directory → Directory → ℕ → ℕ → List ℕ → Directory
copy_entry physical source copy i table free = record {
  directory =
      update copy.directory i (bit_or (physical table) (page_entry_flags (source.directory i)));
  directory_virtual = update copy.directory_virtual i table;
  tables = λ t. if table == t then copy.tables (source.directory_virtual i) else copy.tables t;
  free = free;
}

-- The loop of `paging_clone_directory`, with `k` entries left from entry `i` on. The page tables are
-- those of `copy`, whatever handle names them. Without memory a page table is copied to NULL.
unfoldable pub clone_loop : (ℕ → ℕ) → (kernel source copy : Directory) → ℕ → ℕ → Outcome Directory
clone_loop physical kernel source copy zero i = done copy
clone_loop physical kernel source copy (suc k) i = elim (source.directory i == 0) [
  | true ↦ clone_loop physical kernel source copy k (i + 1)
  | false ↦ elim (kernel.directory i == source.directory i) [
    | true ↦ clone_loop physical kernel source (share_entry kernel copy i) k (i + 1)
    | false ↦ elim copy.free [
      | [] ↦ fault
      | table ∷ free ↦
          clone_loop physical kernel source (copy_entry physical source copy i table free) k (i + 1)
    ]
  ]
]

-- The last entry, which maps the directory itself: PAGING_WRITABLE_PAGE | PAGING_PRESENT is 3.
unfoldable pub map_self : (ℕ → ℕ) → ℕ → Directory → Directory
map_self physical page copy = record copy {
  directory = update copy.directory 1023 (bit_or (physical page) 3);
  directory_virtual = update copy.directory_virtual 1023 page;
}

-- `paging_clone_directory`: memory for the handle, then for the directory; neither is tested.
unfoldable pub paging_clone_directory :
    (ℕ → ℕ) → (kernel source : Directory) → List ℕ → Outcome Directory
paging_clone_directory physical kernel source [] = fault
paging_clone_directory physical kernel source (handle ∷ []) = fault
paging_clone_directory physical kernel source (handle ∷ page ∷ free) =
    clone_loop physical kernel source
      (record {
        directory = λ i. 0;
        directory_virtual = λ i. 0;
        tables = source.tables;
        free = free;
      })
      1023 0
    >>= (λ copy. done (map_self physical page copy))
