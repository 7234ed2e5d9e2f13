-- ===== src/Heap/Tests.antt =====
-- The allocator at concrete tables, and its theorems at inputs where their hypotheses hold.
use avocad_os.Base.{
  ℕ, ◌+◌, ◌≤◌, ◌<◌, ◌≡◌, refl, List, [], ◌∷◌, some, true, arith, inl, inr, ◌==◌, Bool-cases, length,
  done, fault, out_of_fuel, ok, err,
}
use avocad_os.Base.Memory.{Memory}
use avocad_os.Str.Mem.{memset}
use avocad_os.Heap.{
  Heap, HeapTable, block_size, is_taken, reserve_loop, set_first, set_no_next, set_inner,
  find_first_block, heap_malloc_blocks, heap_reserve_blocks, reserve_entries, heap_block_to_addr,
  add_in_use, heap_malloc, size_to_nblocks, heap_free, heap_create, count_used_blocks,
}
use avocad_os.Heap.Table.{Segment, free, region}
use avocad_os.Heap.Find.{FreeRun, block_state, find_first_block-first}
use avocad_os.Heap.Laws.{
  Shows, free_row, heap_malloc-Shows, heap_free-Shows, count_used_blocks-in_use,
}
use avocad_os.Heap.Cycle.{Fits, heap_create-Shows, heap_free-heap_malloc, heap_free_end}

abbrev table : List ℕ → ℕ → HeapTable
table es used = record { entries = es; len = length es; in_use = used }

abbrev heap : List ℕ → ℕ → ℕ → Heap
heap es used last = record {
  table = table es used;
  base_addr = 0x10000;
  last_allocated_block = last;
}

abbrev blank : Memory
blank a = 0

-- One region of two blocks, three free blocks, one region of one block.
abbrev mixed : Heap
mixed = heap (193 ∷ 1 ∷ 0 ∷ 0 ∷ 0 ∷ 65 ∷ []) 3 1

abbrev mixed_row : List Segment
mixed_row = region 1 ∷ free ∷ free ∷ free ∷ region 0 ∷ []

mixed-Shows : Shows mixed mixed_row
mixed-Shows = record { bytes = refl; size = refl; used = refl; room = omega arith }

malloc_two :
    heap_malloc 10 mixed 5000
    ≡ done (0x12000, record (heap (193 ∷ 1 ∷ 193 ∷ 1 ∷ 0 ∷ 65 ∷ []) 5 3) { base_addr = 0x10000 })
unfolding heap_malloc size_to_nblocks heap_malloc_blocks find_first_block heap_reserve_blocks
    reserve_entries heap_block_to_addr add_in_use is_taken reserve_loop set_first set_no_next
    set_inner
malloc_two = refl

-- Block 0 is the start of no search, and the search reads one entry past the table when the last
-- block was allocated last.
read_past_end : heap_malloc_blocks 10 (heap (0 ∷ 0 ∷ 65 ∷ []) 1 2) 1 ≡ fault
unfolding heap_malloc_blocks find_first_block is_taken
read_past_end = refl

-- Five blocks of a table of four: the search goes round and counts a block twice.
counts_twice :
    find_first_block 10 (heap (0 ∷ 0 ∷ 0 ∷ 0 ∷ []) 0 0) 5
    ≡ done (ok 1, heap (0 ∷ 0 ∷ 0 ∷ 0 ∷ []) 0 1)
unfolding find_first_block is_taken
counts_twice = refl

-- Too few free blocks, and the last block free: the search does not end in a thousand rounds.
no_end : find_first_block 1000 (heap (0 ∷ 65 ∷ 0 ∷ 0 ∷ []) 1 0) 4 ≡ out_of_fuel
unfolding find_first_block is_taken
no_end = refl

room_mixed : FreeRun mixed.table 2 2
unfolding is_taken
room_mixed x lo hi = elim (Bool-cases (x == 2)) [
  | inl e ↦ let e' : x ≡ 2 = ground arith in rw e' refl
  | inr e ↦ let e' : x ≡ 3 = ground arith in rw e' refl
]

full_mixed : (x : ℕ) → 1 < x → x + 4 ≤ 6 → ¬ FreeRun mixed.table x 4
unfolding is_taken
full_mixed x lo hi run = cc (run 5 (omega arith) (omega arith))

last_mixed : block_state mixed.table 5 ≡ some true
unfolding is_taken
last_mixed = refl

find_first_block-first_example :
    find_first_block 10 mixed 2 ≡ done (ok 2, record mixed { last_allocated_block = 3 })
find_first_block-first_example =
    find_first_block-first 10 mixed 2 2 refl (omega arith) (omega arith) (omega arith) room_mixed
      (λ x lo hi. absurd (omega arith)) (omega arith)

heap_malloc-Shows_example :
    (h' : Heap) × (heap_malloc 10 mixed 5000 ≡ done (0x12000, h'))
    × Shows h' (region 1 ∷ region 1 ∷ free ∷ region 0 ∷ [])
    × (h'.base_addr ≡ 0x10000)
    × (h'.last_allocated_block ≡ 3)
heap_malloc-Shows_example =
    heap_malloc-Shows 10 mixed (region 1 ∷ []) (free ∷ region 0 ∷ []) 1 mixed-Shows (omega arith)
      (λ x lo hi. absurd (omega arith)) (omega arith) 5000 (omega arith) (omega arith)

heap_free-Shows_example :
    (h' : Heap) × (heap_free blank mixed 0x10000 ≡ done (memset blank 0x10000 0xFF block_size, h'))
    × Shows h' (free ∷ free ∷ free ∷ free ∷ free ∷ region 0 ∷ [])
    × (h'.base_addr ≡ 0x10000)
heap_free-Shows_example =
    heap_free-Shows blank mixed [] (free ∷ free ∷ region 0 ∷ []) 1 free mixed-Shows

heap_free-heap_malloc_example :
    (p : ℕ) × (g : Heap) × (m' : Memory) × (k : Heap) × (heap_malloc 10 mixed 5000 ≡ done (p, g))
    × (heap_free blank g p ≡ done (m', k))
    × (k.table ≡ mixed.table)
    × (k.base_addr ≡ 0x10000)
heap_free-heap_malloc_example =
    heap_free-heap_malloc 10 blank mixed (region 1 ∷ []) 1 free (region 0 ∷ []) 5000 mixed-Shows
      (omega arith) (λ x lo hi. absurd (omega arith)) (omega arith) (omega arith) (omega arith)

heap_free_end_example : heap_free blank mixed 0x15000 ≡ fault
heap_free_end_example = heap_free_end blank mixed (region 1 ∷ free ∷ free ∷ free ∷ []) 0 mixed-Shows

count_used_blocks-in_use_example : count_used_blocks mixed ≡ 3
count_used_blocks-in_use_example = count_used_blocks-in_use mixed mixed_row mixed-Shows

heap_create-Shows_example :
    (Fits 0x10000 0x13000 (table (7 ∷ 7 ∷ 7 ∷ []) 0)
      → (h : Heap) × (heap_create 0x10000 0x13000 (table (7 ∷ 7 ∷ 7 ∷ []) 0) ≡ ok h)
        × Shows h (free_row 3)
        × (h.base_addr ≡ 0x10000))
    × (¬ Fits 0x10000 0x13000 (table (7 ∷ 7 ∷ 7 ∷ []) 0)
        → heap_create 0x10000 0x13000 (table (7 ∷ 7 ∷ 7 ∷ []) 0) ≡ err 22)
heap_create-Shows_example =
    heap_create-Shows 0x10000 0x13000 (table (7 ∷ 7 ∷ 7 ∷ []) 0) (omega arith) (omega arith) refl
