-- ===== src/Heap/Cycle.antt =====
-- Whole runs of the allocator of src/memory/heap.c: a new heap, an allocation that is freed again,
-- and a region at the end of the table.
use avocad_os.Base.{
  ℕ, suc, ◌+◌, ◌-◌, ◌*◌, ◌/◌, ◌%◌, ◌≤◌, ◌<◌, ◌≡◌, refl, sym, ap, subst, ◌∙◌, inl, inr, Bool-cases,
  List, [], ◌∷◌, ◌++◌, append-nil, arith, some, get_elem?, ◌==◌, length, length-replicate,
  replicate, done, fault, ok, err, einval,
}
use avocad_os.Base.Memory.{Memory}
use avocad_os.Str.Mem.{memset}
use avocad_os.Heap.{
  Heap, HeapTable, block_size, word, heap_create, heap_validate_table, heap_validate_alignment,
  heap_malloc, heap_free, free_entries, heap_addr_to_block,
}
use avocad_os.Heap.Table.{
  Segment, region, region_bytes, render, render-append, get_elem?-at, free_end,
}
use avocad_os.Heap.Find.{FreeRun}
use avocad_os.Heap.Laws.{
  Shows, free_row, render-free_row, blocks-free_row, heap_malloc-Shows, heap_free-Shows,
  is_first-region, heap_addr_to_block-start, length-region_middle,
}

-- What `heap_create` asks of its arguments.
abbrev pub Fits : ℕ → ℕ → HeapTable → Type 0
Fits ptr end_addr t =
    (ptr % block_size ≡ 0) × (end_addr % block_size ≡ 0) × ((end_addr - ptr) / block_size ≡ t.len)

-- On a table that counts no block in use, `heap_create` makes a heap of free blocks if the two
-- addresses are aligned and the table has one entry for each block between them, and refuses with
-- EINVAL if not.
pub heap_create-Shows :
    (ptr end_addr : ℕ) (t : HeapTable)
    → ptr ≤ end_addr
    → end_addr < word
    → t.in_use ≡ 0
    → (Fits ptr end_addr t
        → (h : Heap) × (heap_create ptr end_addr t ≡ ok h)
          × Shows h (free_row t.len)
          × (h.base_addr ≡ ptr))
      × (¬ Fits ptr end_addr t → heap_create ptr end_addr t ≡ err einval)
unfolding heap_create heap_validate_table heap_validate_alignment
heap_create-Shows ptr end_addr t le lt unused = (
  λ fits. (
    fresh,
    ground arith,
    record {
      bytes = sym (render-free_row t.len);
      size = sym (length-replicate t.len 0);
      used = unused ∙ sym (blocks-free_row t.len);
      room = omega arith;
    },
    refl,
  ),
  refuse,
)
  where
    refuse : ¬ Fits ptr end_addr t → heap_create ptr end_addr t ≡ err einval
    refuse bad = elim (Bool-cases (ptr % block_size == 0)) [
      | inr e ↦ ground arith
      | inl e ↦ elim (Bool-cases (end_addr % block_size == 0)) [
        | inr f ↦ ground arith
        | inl f ↦ elim (Bool-cases ((end_addr - ptr) / block_size == t.len)) [
          | inr g ↦ ground arith
          | inl g ↦ absurd (bad (ground arith, ground arith, ground arith))
        ]
      ]
    ]

    fresh : Heap
    fresh = record {
      table = record t { entries = replicate t.len 0 };
      base_addr = ptr;
      last_allocated_block = 0;
    }

Shows-table : (g h : Heap) (s : List Segment) → Shows g s → Shows h s → g.table ≡ h.table
Shows-table g h s v w = λ i. record {
  entries = (v.bytes ∙ sym w.bytes) i;
  len = (v.size ∙ ap length (v.bytes ∙ sym w.bytes) ∙ sym w.size) i;
  in_use = (v.used ∙ sym w.used) i;
}

-- An allocation from a row of free blocks that some segment follows, freed again, leaves the table
-- as it was: its bytes, its length and its counter.
pub heap_free-heap_malloc :
    (fuel : ℕ) (m : Memory) (h : Heap) (a : List Segment) (n : ℕ) (s : Segment) (b : List Segment)
    (size : ℕ)
    → Shows h (a ++ (free_row (suc n) ++ s ∷ b))
    → h.last_allocated_block < length (render a)
    → ((x : ℕ) → h.last_allocated_block < x → x < length (render a) → ¬ FreeRun h.table x (suc n))
    → length (render a) + suc n < h.last_allocated_block + 1 + fuel
    → n * block_size < size
    → size ≤ suc n * block_size
    → (p : ℕ) × (g : Heap) × (m' : Memory) × (k : Heap) × (heap_malloc fuel h size ≡ done (p, g))
      × (heap_free m g p ≡ done (m', k))
      × (k.table ≡ h.table)
      × (k.base_addr ≡ h.base_addr)
heap_free-heap_malloc fuel m h a n s b size v behind first enough lo hi =
    let (g, got, w, base, last) =
      heap_malloc-Shows fuel h a (s ∷ b) n v behind first enough size lo hi in
    let (k, freed, u, same) = heap_free-Shows m g a b n s w in
    let p = h.base_addr + length (render a) * block_size in
    (
      p,
      g,
      memset m p 0xFF block_size,
      k,
      got,
      subst
          (λ q.
            heap_free m g (q + length (render a) * block_size)
            ≡ done (memset m (q + length (render a) * block_size) 0xFF block_size, k))
          base freed,
      Shows-table k h (a ++ (free_row (suc n) ++ s ∷ b)) u v,
      same ∙ base,
    )

-- Freeing a region that ends with the table reads past the table's end: no entry stops the loop.
pub heap_free_end :
    (m : Memory) (h : Heap) (a : List Segment) (n : ℕ)
    → Shows h (a ++ region n ∷ [])
    → heap_free m h (h.base_addr + length (render a) * block_size) ≡ fault
unfolding heap_free
heap_free_end m h a n v =
    let (e, es, is, first) = is_first-region n in
    let row : h.table.entries ≡ render a ++ region_bytes n =
      v.bytes
      ∙ render-append a (region n ∷ [])
      ∙ ap (◌++◌ (render a)) (append-nil (region_bytes n)) in
    let size : h.table.len ≡ length (render a) + suc n =
      v.size
      ∙ ap length (v.bytes ∙ render-append a (region n ∷ []))
      ∙ length-region_middle a n []
      ∙ omega arith in
    let at : heap_addr_to_block h (h.base_addr + length (render a) * block_size)
        ≡ length (render a) =
      heap_addr_to_block-start h (length (render a)) (omega (arith, size, v.room)) in
    let got : get_elem? h.table.entries (length (render a)) ≡ some e =
      rw (row, is) (get_elem?-at (render a) es e (length (render a)) refl) in
    let ends : free_entries h.table.entries (length (render a)) ≡ fault =
      rw row (free_end n (render a) (length (render a)) refl) in
    ground (arith, at, got, first, ends)
