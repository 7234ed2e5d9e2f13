-- ===== src/Memcheck.antt =====
-- src/memory/memcheck.c: the table of allocations that is kept when MEMCHECK is defined. Texts are lists of
-- their bytes before the NUL; a panic is the outcome `fault`.
mod Tests
pub mod Freed
use avocad_os.Base.{
  ℕ, zero, suc, ◌+◌, ◌-◌, ◌*◌, ◌/◌, ◌%◌, ◌^◌, Bool, true, false, ◌||◌, List, [], ◌∷◌, ltb, leb,
  ◌==◌, if◌then◌else◌, take, ℤ, pos, negsuc, is_zero, Outcome, done, fault,
}
use avocad_os.Str.Text.{strcmp}
use avocad_os.Heap.{block_size}
use avocad_os.Kheap.{kernel_heap_size}

-- `struct memcheck_entry`
pub record MemcheckEntry : Type 0 where
  pub blocks : ℕ
  pub ptr : ℕ
  pub filename : List ℕ
  pub function : List ℕ
  pub line : ℤ

-- The blocks of the kernel's heap, one entry for each.
abbrev pub allocation_table_len : ℕ
allocation_table_len = 4096

unfoldable pub set_memcheck_entry : (ℕ → MemcheckEntry) → ℕ → MemcheckEntry → ℕ → MemcheckEntry
set_memcheck_entry table block entry b = if block == b then entry else table b

-- The entry of an allocation, and that of a block that was freed; 50 is the length of both texts.
abbrev pub new_entry : (ptr size : ℕ) → (filename function : List ℕ) → ℕ → MemcheckEntry
new_entry ptr size filename function line = record {
  blocks = (size + (block_size - 1)) % 2 ^ 32 / block_size;
  ptr = ptr;
  filename = take 50 filename;
  function = take 50 function;
  line = pos line;
}

abbrev pub freed_entry : MemcheckEntry
freed_entry = record { blocks = 0; ptr = 0; filename = []; function = []; line = negsuc 0 }

-- `memcheck_allocate`, with the base address of the kernel's heap.
unfoldable pub memcheck_allocate :
    (base : ℕ)
    → (ℕ → MemcheckEntry)
    → (ptr size : ℕ) → (filename function : List ℕ) → ℕ
    → Outcome (ℕ → MemcheckEntry)
memcheck_allocate base table ptr size filename function line =
    elim (ltb ptr base || leb (base + kernel_heap_size) ptr) [
      | true ↦ fault
      | false ↦ done (
          set_memcheck_entry table ((ptr - base) / block_size)
            (new_entry ptr size filename function line))
    ]

-- `memcheck_free`: an address outside the heap reads outside the table.
unfoldable pub memcheck_free :
    (base : ℕ) → (ℕ → MemcheckEntry) → (ptr : ℕ) → Outcome (ℕ → MemcheckEntry)
memcheck_free base table ptr =
    let block = (ptr - base) / block_size in
    elim (ltb ptr base || leb allocation_table_len block) [
      | true ↦ fault
      | false ↦ elim ((table block).blocks == 0) [
        | true ↦ fault
        | false ↦ done (set_memcheck_entry table block freed_entry)
      ]
    ]

-- The loop of `memcheck_check`, with `k` entries left from entry `i` on: the entries that it prints.
unfoldable pub check_loop : (ℕ → MemcheckEntry) → List ℕ → ℕ → ℕ → List MemcheckEntry
check_loop table skip zero i = []
check_loop table skip (suc k) i =
    let rest = check_loop table skip k (i + 1) in
    if (table i).blocks == 0
    then rest
    else if is_zero (strcmp ((table i).function) skip)
    then rest
    else table i ∷ rest

unfoldable pub memcheck_check : (ℕ → MemcheckEntry) → List ℕ → List MemcheckEntry
memcheck_check table skip = check_loop table skip allocation_table_len 0
