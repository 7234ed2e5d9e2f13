-- ===== src/Memcheck/Freed.antt =====
-- What was allocated can be freed once.
use avocad_os.Base.{
  ℕ, ◌+◌, ◌-◌, ◌/◌, ◌^◌, ◌<◌, ◌≤◌, ◌≡◌, ◌≢◌, ◌∙◌, refl, ap, true, false, ◌||◌, List, ltb, leb, ◌==◌,
  arith, Outcome, done, fault, ◌>>=◌,
}
use avocad_os.Kheap.{kernel_heap_size}
use avocad_os.Heap.{block_size}
use avocad_os.Memcheck.{
  MemcheckEntry, allocation_table_len, set_memcheck_entry, new_entry, freed_entry,
  memcheck_allocate, memcheck_free,
}

-- An allocation and its release: the release is accepted, leaves the other entries as they were before
-- the allocation, and a second one is refused.
abbrev pub FreedOnce :
    (base : ℕ) → (ℕ → MemcheckEntry) → (ptr : ℕ) → Outcome (ℕ → MemcheckEntry) → Type 0
FreedOnce base table ptr allocated =
    (t : ℕ → MemcheckEntry) × ((allocated >>= (λ a. memcheck_free base a ptr)) ≡ done t)
    × ((b : ℕ) → (ptr - base) / block_size ≢ b → t b ≡ table b)
    × (memcheck_free base t ptr ≡ fault)

allocate-in :
    (base : ℕ) (table : ℕ → MemcheckEntry) (ptr size : ℕ) (filename function : List ℕ) (line : ℕ)
    → base ≤ ptr
    → ptr < base + kernel_heap_size
    → 0 < size
    → size < 2 ^ 31
    → (t : ℕ → MemcheckEntry) × (memcheck_allocate base table ptr size filename function line
        ≡ done t)
      × ((t ((ptr - base) / block_size)).blocks == 0) ≡ false
      × ((b : ℕ) → (ptr - base) / block_size ≢ b → t b ≡ table b)
unfolding memcheck_allocate set_memcheck_entry
allocate-in base table ptr size filename function line lo hi some_byte small =
    let r : (ltb ptr base || leb (base + kernel_heap_size) ptr) ≡ false = ground arith in
    (
      set_memcheck_entry table ((ptr - base) / block_size)
          (new_entry ptr size filename function line),
      rw (memcheck_allocate, r) refl,
      ground arith,
      λ b ne. ground arith,
    )

free-in :
    (base : ℕ) (table : ℕ → MemcheckEntry) (ptr : ℕ)
    → base ≤ ptr
    → ptr < base + kernel_heap_size
    → ((table ((ptr - base) / block_size)).blocks == 0) ≡ false
    → (t : ℕ → MemcheckEntry) × (memcheck_free base table ptr ≡ done t)
      × ((t ((ptr - base) / block_size)).blocks ≡ 0)
      × ((b : ℕ) → (ptr - base) / block_size ≢ b → t b ≡ table b)
unfolding memcheck_free set_memcheck_entry
free-in base table ptr lo hi used =
    let r : (ltb ptr base || leb allocation_table_len ((ptr - base) / block_size)) ≡ false =
      ground arith in
    (
      set_memcheck_entry table ((ptr - base) / block_size) freed_entry,
      rw (memcheck_free, r, used) refl,
      ground arith,
      λ b ne. ground arith,
    )

free-refused :
    (base : ℕ) (table : ℕ → MemcheckEntry) (ptr : ℕ)
    → base ≤ ptr
    → ptr < base + kernel_heap_size
    → (table ((ptr - base) / block_size)).blocks ≡ 0
    → memcheck_free base table ptr ≡ fault
unfolding memcheck_free
free-refused base table ptr lo hi none =
    let r : (ltb ptr base || leb allocation_table_len ((ptr - base) / block_size)) ≡ false =
      ground arith in
    let z : ((table ((ptr - base) / block_size)).blocks == 0) ≡ true = ap (λ n. n == 0) none in
    rw (memcheck_free, r, z) refl

-- An address in the kernel's heap that is allocated with some bytes, fewer than 2 ^ 31: `memcheck_free`
-- accepts it once, the entries of the other blocks are what they were, and a second `memcheck_free`
-- panics.
pub memcheck_free-FreedOnce :
    (base : ℕ) (table : ℕ → MemcheckEntry) (ptr size : ℕ) (filename function : List ℕ) (line : ℕ)
    → base ≤ ptr
    → ptr < base + kernel_heap_size
    → 0 < size
    → size < 2 ^ 31
    → FreedOnce base table ptr (memcheck_allocate base table ptr size filename function line)
memcheck_free-FreedOnce base table ptr size filename function line lo hi some_byte small =
    let (a, e, used, kept) =
      allocate-in base table ptr size filename function line lo hi some_byte small in
    let (t, f, none, kept') = free-in base a ptr lo hi used in
    (
      t,
      ap (λ o. o >>= (λ a. memcheck_free base a ptr)) e ∙ f,
      λ b ne. kept' b ne ∙ kept b ne,
      free-refused base t ptr lo hi none,
    )
