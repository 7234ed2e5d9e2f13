-- ===== src/Heap.antt =====
-- src/memory/heap.c and heap.h: the block allocator. A table holds one byte for each block of 4096
-- bytes; `heap_malloc` searches it for a row of free blocks and `heap_free` gives a row back.
pub mod Table
pub mod Find
pub mod Laws
pub mod Cycle
mod Tests
use avocad_os.Base.{
  ℕ, zero, suc, ◌+◌, ◌-◌, ◌*◌, ◌/◌, ◌%◌, ◌^◌, bit_and, bit_or, Bool, true, false, not, ◌||◌, Option,
  none, some, List, [], ◌∷◌, ◌==◌, if◌then◌else◌, length, get_elem?, take, replicate, Outcome, done,
  fault, out_of_fuel, ◌>>=◌, Result, ok, err, enomem, einval,
}
use avocad_os.Base.Memory.{Memory}
use avocad_os.Str.Mem.{memset}

-- KERNEL_HEAP_BLOCK_SIZE
abbrev pub block_size : ℕ
block_size = 4096

-- The number of values of `size_t` and of a pointer.
abbrev pub word : ℕ
word = 2 ^ 32

-- `entries` is the array that the field points at.
pub record HeapTable : Type 0 where
  pub entries : List ℕ
  pub len : ℕ
  pub in_use : ℕ

pub record Heap : Type 0 where
  pub table : HeapTable
  pub base_addr : ℕ
  pub last_allocated_block : ℕ

-- BLOCK_TEST_FREE, BLOCK_TEST_TAKEN and BLOCK_TEST_FIRST
unfoldable pub is_free : ℕ → Bool
is_free b = b == 0

unfoldable pub is_taken : ℕ → Bool
is_taken b = not (bit_and b 1 == 0)

unfoldable pub is_first : ℕ → Bool
is_first b = not (bit_and b 64 == 0)

-- BLOCK_SET_TAKEN, BLOCK_SET_NOT_FIRST and BLOCK_SET_NEXT on one entry, a byte.
unfoldable pub set_inner : ℕ → ℕ
set_inner b = bit_or (bit_and (bit_or b 1) 191) 128

unfoldable pub set_first : ℕ → ℕ
set_first b = bit_or b 64

unfoldable pub set_no_next : ℕ → ℕ
set_no_next b = bit_and b 127

unfoldable pub heap_validate_table : ℕ → ℕ → HeapTable → Bool
heap_validate_table ptr end_addr table = (end_addr + word - ptr) % word / block_size == table.len

unfoldable pub heap_validate_alignment : ℕ → Bool
heap_validate_alignment ptr = ptr % block_size == 0

unfoldable pub heap_create : ℕ → ℕ → HeapTable → Result Heap
unfolding heap_validate_table heap_validate_alignment
heap_create ptr end_addr table =
    if not (heap_validate_alignment ptr) || not (heap_validate_alignment end_addr)
    then err einval
    else if not (heap_validate_table ptr end_addr table)
    then err einval
    else ok (record {
      table = record table { entries = replicate table.len 0 };
      base_addr = ptr;
      last_allocated_block = 0;
    })

unfoldable pub size_to_nblocks : ℕ → ℕ
size_to_nblocks size = size / block_size + (if size % block_size == 0 then 0 else 1)

-- The variables of the search when its loop ends: `heap->last_allocated_block`,
-- `remaining_blocks`, and `found_block`, where `none` is -1.
abbrev pub Search : Type 0
Search = ℕ × ℕ × Option ℕ

-- The loop of `find_first_block`. Its test reads the field that its body writes. A read outside the
-- table is a fault.
unfoldable pub find_loop :
    ℕ → HeapTable → (n_blocks i last remaining : ℕ) → Option ℕ → Outcome Search
find_loop zero t n i last remaining found = out_of_fuel
find_loop (suc fuel) t n i last remaining found = elim ((i == last) || (remaining == 0)) [
  | true ↦ done (last, remaining, found)
  | false ↦ elim (get_elem? t.entries i) [
    | none ↦ fault
    | some e ↦ elim (is_taken e) [
      | true ↦ find_loop fuel t n ((i + 1) % t.len) 0 n none
      | false ↦
          find_loop fuel t n ((i + 1) % t.len) i (remaining - 1)
            (elim found [ none ↦ some i | some f ↦ some f ])
    ]
  ]
]

-- `-1`, which is returned for a search of 0 blocks, reads as the error 1.
unfoldable pub find_first_block : ℕ → Heap → ℕ → Outcome (Result ℕ × Heap)
unfolding find_loop
find_first_block fuel h n =
    let start = h.last_allocated_block in
    find_loop fuel h.table n (start + 1) start n none >>= λ (last, remaining, found). done (
      if remaining == 0 then elim found [ none ↦ err 1 | some f ↦ ok f ] else err enomem,
      record h { last_allocated_block = last },
    )

-- An update in place of the entry at `j`.
unfoldable pub modify : List ℕ → ℕ → (ℕ → ℕ) → Outcome (List ℕ)
modify [] j f = fault
modify (e ∷ es) zero f = done (f e ∷ es)
modify (e ∷ es) (suc j) f = modify es j f >>= λ rest. done (e ∷ rest)

-- The loop of `heap_reserve_blocks`, `k` rounds from block `j` on.
unfoldable pub reserve_loop : ℕ → ℕ → List ℕ → Outcome (List ℕ)
unfolding modify
reserve_loop zero j es = done es
reserve_loop (suc k) j es = modify es j set_inner >>= reserve_loop k (suc j)

-- The body of `heap_reserve_blocks` on the table's bytes. It is called for one block at least, so
-- `end_block - 1` does not wrap.
unfoldable pub reserve_entries : List ℕ → ℕ → ℕ → Outcome (List ℕ)
reserve_entries es first_block n_blocks = reserve_loop n_blocks first_block es >>= λ es.
    modify es first_block set_first >>= λ es. modify es (first_block + n_blocks - 1) set_no_next

unfoldable pub heap_reserve_blocks : Heap → ℕ → ℕ → Outcome Heap
heap_reserve_blocks h first_block n_blocks =
    reserve_entries h.table.entries first_block n_blocks >>= λ es.
    done (record h { table = record (h.table) { entries = es } })

unfoldable pub heap_block_to_addr : Heap → ℕ → ℕ
heap_block_to_addr h block_index = (h.base_addr + block_index * block_size) % word

unfoldable pub heap_addr_to_block : Heap → ℕ → ℕ
heap_addr_to_block h ptr = (ptr + word - h.base_addr) % word / block_size

-- `in_use += n`
unfoldable pub add_in_use : Heap → ℕ → Heap
add_in_use h n = record h { table = record (h.table) { in_use = (h.table.in_use + n) % word } }

-- The address, 0 for NULL, and the heap.
unfoldable pub heap_malloc_blocks : ℕ → Heap → ℕ → Outcome (ℕ × Heap)
heap_malloc_blocks fuel h n_blocks = do
  (found, h') ← find_first_block fuel h n_blocks
  elim found [
    | err code ↦ done (0, h')
    | ok first_block ↦ heap_reserve_blocks h' first_block n_blocks >>= λ h''.
        done (heap_block_to_addr h'' first_block, add_in_use h'' n_blocks)
  ]

unfoldable pub heap_malloc : ℕ → Heap → ℕ → Outcome (ℕ × Heap)
heap_malloc fuel h size =
    let n_blocks = size_to_nblocks size in
    if n_blocks == 0 then done (0, h) else heap_malloc_blocks fuel h n_blocks

-- The loop of `heap_free`. It returns the table's bytes and how many blocks it gave back. The
-- fuel is the number of entries, and an access past the last one is a fault.
unfoldable pub free_loop : ℕ → ℕ → List ℕ → Outcome (List ℕ × ℕ)
unfolding modify
free_loop zero b es = out_of_fuel
free_loop (suc k) b es = elim (get_elem? es b) [
  | none ↦ fault
  | some e ↦ elim (is_free e || is_first e) [
    | true ↦ done (es, 0)
    | false ↦ modify es b (λ _. 0) >>= λ es.
        free_loop k (suc b) es >>= λ (es, freed). done (es, suc freed)
  ]
]

unfoldable pub sub_in_use : Heap → List ℕ → ℕ → Heap
sub_in_use h es n = record h {
  table = record (h.table) { entries = es; in_use = (h.table.in_use + word - n) % word };
}

-- The table's bytes after a region that begins at `block` was freed, and the blocks given back.
unfoldable pub free_entries : List ℕ → ℕ → Outcome (List ℕ × ℕ)
free_entries es block = modify es block (λ _. 0) >>= λ es'.
    free_loop (suc (length es)) (suc block) es' >>= λ (es'', freed). done (es'', suc freed)

-- The first block at `ptr` is overwritten before the table is looked at.
unfoldable pub heap_free : Memory → Heap → ℕ → Outcome (Memory × Heap)
heap_free m h ptr =
    let block = heap_addr_to_block h ptr in
    let m' = memset m ptr 0xFF block_size in
    elim (get_elem? h.table.entries block) [
      | none ↦ fault
      | some e ↦ elim (is_first e) [
        | false ↦ done (m', h)
        | true ↦
            free_entries h.table.entries block >>= λ (es, freed). done (m', sub_in_use h es freed)
      ]
    ]

unfoldable pub count_taken : List ℕ → ℕ
unfolding is_taken
count_taken [] = 0
count_taken (e ∷ es) = (if is_taken e then 1 else 0) + count_taken es

unfoldable pub count_used_blocks : Heap → ℕ
unfolding count_taken
count_used_blocks h = count_taken (take h.table.len h.table.entries)
