-- ===== src/Heap/Laws.antt =====
-- `heap_create`, `heap_malloc` and `heap_free` of src/memory/heap.c against the abstract table: a
-- row of free blocks and allocated regions.
use avocad_os.Base.{
  ℕ, zero, suc, ◌+◌, ◌-◌, ◌*◌, ◌≤◌, ◌<◌, ◌≡◌, refl, sym, ap, ◌∙◌, true, List, [], ◌∷◌, ◌++◌, some,
  arith, ne→==, length, length-append, length-replicate, get_elem?, get_elem?-append_length,
  take-length, replicate, done,
}
use avocad_os.Base.Memory.{Memory}
use avocad_os.Str.Mem.{memset}
use avocad_os.Heap.{
  Heap, block_size, word, is_taken, is_first, heap_reserve_blocks, heap_block_to_addr,
  heap_addr_to_block, add_in_use, sub_in_use, heap_malloc_blocks, size_to_nblocks, heap_malloc,
  free_entries, heap_free, count_used_blocks,
}
use avocad_os.Heap.Table.{
  Segment, free, region, region_bytes, render, blocks, render-append, blocks-append, get_elem?-at,
  reserve-render, free-render, count_taken-render,
}
use avocad_os.Heap.Find.{FreeRun, block_state, find_first_block-first}

-- The heap's table shows the row `s`, its counter the blocks in use, and the blocks lie within the
-- address space.
pub record Shows (h : Heap) (s : List Segment) : Type 0 where
  pub bytes : h.table.entries ≡ render s
  pub size : h.table.len ≡ length h.table.entries
  pub used : h.table.in_use ≡ blocks s
  pub room : h.base_addr + h.table.len * block_size ≤ word

abbrev pub free_row : ℕ → List Segment
free_row n = replicate n free

pub render-free_row : (n : ℕ) → render (free_row n) ≡ replicate n 0
render-free_row zero = refl
render-free_row (suc n) = ap (◌∷◌ 0) (render-free_row n)

pub blocks-free_row : (n : ℕ) → blocks (free_row n) ≡ 0
blocks-free_row zero = refl
blocks-free_row (suc n) = blocks-free_row n

blocks-le-length : (s : List Segment) → blocks s ≤ length (render s)
blocks-le-length [] = omega arith
blocks-le-length (free ∷ s) = omega (arith, blocks-le-length s)
blocks-le-length (region zero ∷ s) = omega (arith, blocks-le-length s)
blocks-le-length (region (suc n) ∷ s) = omega (
  arith,
  blocks-le-length s,
  length-append (region_bytes (suc n)) (render s),
  length-append {A = ℕ} (replicate n 129) (1 ∷ []),
  length-replicate {A = ℕ} n 129,
)

-- The bytes of a row with a stretch of free blocks in the middle.
render-free_middle :
    (a b : List Segment) (n : ℕ)
    → render (a ++ (free_row n ++ b)) ≡ render a ++ (replicate n 0 ++ render b)
render-free_middle a b n =
    rw (render-append a (free_row n ++ b), render-append (free_row n) b, render-free_row n)

blocks-free_middle :
    (a b : List Segment) (n : ℕ) → blocks (a ++ (free_row n ++ b)) ≡ blocks a + blocks b
blocks-free_middle a b n =
    omega
      (arith, blocks-append a (free_row n ++ b), blocks-append (free_row n) b, blocks-free_row n)

get_elem?-replicate : (n i e : ℕ) (ys : List ℕ) → i < n → get_elem? (replicate n e ++ ys) i ≡ some e
get_elem?-replicate zero i e ys h = elim h [ ]
get_elem?-replicate (suc n) zero e ys h = refl
get_elem?-replicate (suc n) (suc i) e ys h = get_elem?-replicate n i e ys (omega arith)

free_blocks-FreeRun :
    (h : Heap) (a b : List Segment) (n : ℕ)
    → h.table.entries ≡ render a ++ (replicate n 0 ++ render b)
    → FreeRun h.table (length (render a)) n
unfolding is_taken
free_blocks-FreeRun h a b n e x lo hi =
    let i = x - length (render a) in
    rw
      (
        e,
        get_elem?-append_length (render a) (replicate n 0 ++ render b) i x (omega arith),
        get_elem?-replicate n i 0 (render b) (omega arith),
        block_state,
      )
      refl

length-middle :
    (a : List Segment) (n : ℕ) (ys : List ℕ)
    → length (render a ++ (replicate n 0 ++ ys)) ≡ length (render a) + n + length ys
length-middle a n ys = omega (
  arith,
  length-append (render a) (replicate n 0 ++ ys),
  length-append (replicate n 0) ys,
  length-replicate {A = ℕ} n 0,
)

pub length-region_middle :
    (a : List Segment) (n : ℕ) (ys : List ℕ)
    → length (render a ++ (region_bytes n ++ ys)) ≡ length (render a) + suc n + length ys
length-region_middle a zero ys = omega (arith, length-append (render a) (65 ∷ ys))
length-region_middle a (suc n) ys = omega (
  arith,
  length-append (render a) (region_bytes (suc n) ++ ys),
  length-append (region_bytes (suc n)) ys,
  length-append {A = ℕ} (replicate n 129) (1 ∷ []),
  length-replicate {A = ℕ} n 129,
)

-- The heap after a reservation of `n + 1` blocks at block `s`.
abbrev reserved : Heap → List ℕ → ℕ → ℕ → Heap
reserved h es s n =
    add_in_use
      (record h { table = record (h.table) { entries = es }; last_allocated_block = s + suc n - 1 })
      (suc n)

heap_reserve_blocks-render :
    (h : Heap) (n s : ℕ) (xs ys : List ℕ)
    → h.table.entries ≡ xs ++ (replicate (suc n) 0 ++ ys)
    → s ≡ length xs
    → heap_reserve_blocks h s (suc n)
      ≡ done (record h { table = record (h.table) { entries = xs ++ (region_bytes n ++ ys) } })
unfolding heap_reserve_blocks
heap_reserve_blocks-render h n s xs ys e at = rw e (rw (reserve-render n xs ys s at))

size_to_nblocks_lem :
    (size n : ℕ) → n * block_size < size → size ≤ suc n * block_size → size_to_nblocks size ≡ suc n
unfolding size_to_nblocks
size_to_nblocks_lem size n lo hi = ground arith

module _ (fuel : ℕ) (h : Heap) (a b : List Segment) (n : ℕ)
    (v : Shows h (a ++ (free_row (suc n) ++ b)))
    (behind : h.last_allocated_block < length (render a))
    (first : (x : ℕ)
      → h.last_allocated_block < x
      → x < length (render a)
      → ¬ FreeRun h.table x (suc n))
    (enough : length (render a) + suc n < h.last_allocated_block + 1 + fuel) where
  entries_row : h.table.entries ≡ render a ++ (replicate (suc n) 0 ++ render b)
  entries_row = v.bytes ∙ render-free_middle a b (suc n)

  size_row : h.table.len ≡ length (render a) + suc n + length (render b)
  size_row = v.size ∙ ap length entries_row ∙ length-middle a (suc n) (render b)

  after : Heap
  after = reserved h (render a ++ (region_bytes n ++ render b)) (length (render a)) n

  heap_malloc_blocks-after :
      heap_malloc_blocks fuel h (suc n) ≡ done (h.base_addr + length (render a) * block_size, after)
  unfolding heap_malloc_blocks heap_block_to_addr after
  heap_malloc_blocks-after =
      rw
        (
          find_first_block-first fuel h (suc n) (length (render a)) v.size (omega arith) behind
              (omega (arith, size_row)) (free_blocks-FreeRun h a b (suc n) entries_row) first
              enough,
          heap_reserve_blocks-render
              (record h { last_allocated_block = length (render a) + suc n - 1 }) n
              (length (render a)) (render a) (render b) entries_row refl,
        )
        (ap (λ p. done (p, after)) (omega (arith, size_row, v.room)))

  after-Shows : Shows after (a ++ region n ∷ b)
  unfolding after add_in_use
  after-Shows = record {
    bytes = sym (render-append a (region n ∷ b));
    size = size_row ∙ sym (length-region_middle a n (render b));
    used = omega (
      arith,
      size_row,
      v.used,
      v.room,
      blocks-free_middle a b (suc n),
      blocks-append a (region n ∷ b),
      blocks-le-length a,
      blocks-le-length b,
    );
    room = v.room;
  }

  -- A request that `n + 1` blocks hold, on a heap whose first row of `n + 1` free blocks behind the
  -- last allocated one stands between the segments `a` and `b`, returns the address of that row's
  -- first block and turns the row into one region; the search needs one round for each block that
  -- it passes.
  pub heap_malloc-Shows :
      (size : ℕ)
      → n * block_size < size
      → size ≤ suc n * block_size
      → (h' : Heap) × (heap_malloc fuel h size
          ≡ done (h.base_addr + length (render a) * block_size, h'))
        × Shows h' (a ++ region n ∷ b)
        × (h'.base_addr ≡ h.base_addr)
        × (h'.last_allocated_block ≡ length (render a) + n)
  unfolding heap_malloc after add_in_use
  heap_malloc-Shows size lo hi = (
    after,
    rw (size_to_nblocks_lem size n lo hi, ne→== (suc n) 0 (omega arith)) heap_malloc_blocks-after,
    after-Shows,
    refl,
    omega arith,
  )

pub is_first-region :
    (n : ℕ) → (e : ℕ) × (es : List ℕ) × (region_bytes n ≡ e ∷ es) × (is_first e ≡ true)
unfolding is_first
is_first-region zero = (65, [], refl, refl)
is_first-region (suc n) = (193, replicate n 129 ++ 1 ∷ [], refl, refl)

-- `heap_free` of an address in a block finds that block.
pub heap_addr_to_block-start :
    (h : Heap) (b : ℕ)
    → h.base_addr + suc b * block_size ≤ word
    → heap_addr_to_block h (h.base_addr + b * block_size) ≡ b
unfolding heap_addr_to_block
heap_addr_to_block-start h b room = omega arith

heap_free-region :
    (m : Memory) (h : Heap) (ptr b e k : ℕ) {es : List ℕ}
    → heap_addr_to_block h ptr ≡ b
    → get_elem? h.table.entries b ≡ some e
    → is_first e ≡ true
    → free_entries h.table.entries b ≡ done (es, k)
    → heap_free m h ptr ≡ done (memset m ptr 0xFF block_size, sub_in_use h es k)
unfolding heap_free
heap_free-region m h ptr b e k at get first go = ground arith

module _ (m : Memory) (h : Heap) (a b : List Segment) (n : ℕ) (s : Segment)
    (v : Shows h (a ++ region n ∷ s ∷ b)) where
  region_row : h.table.entries ≡ render a ++ (region_bytes n ++ render (s ∷ b))
  region_row = v.bytes ∙ render-append a (region n ∷ s ∷ b)

  region_size : h.table.len ≡ length (render a) + suc n + length (render (s ∷ b))
  region_size = v.size ∙ ap length region_row ∙ length-region_middle a n (render (s ∷ b))

  freed : Heap
  freed = sub_in_use h (render a ++ (replicate (suc n) 0 ++ render (s ∷ b))) (suc n)

  heap_free-freed :
      heap_free m h (h.base_addr + length (render a) * block_size)
      ≡ done (memset m (h.base_addr + length (render a) * block_size) 0xFF block_size, freed)
  unfolding heap_free freed
  heap_free-freed =
      let (e, es, is, first) = is_first-region n in
      heap_free-region m h (h.base_addr + length (render a) * block_size) (length (render a)) e
        (suc n)
        (heap_addr_to_block-start h (length (render a)) (omega (arith, region_size, v.room)))
        (rw (region_row, is)
          (get_elem?-at (render a) (es ++ render (s ∷ b)) e (length (render a)) refl))
        first (rw region_row (free-render n (render a) s b (length (render a)) refl))

  freed-Shows : Shows freed (a ++ (free_row (suc n) ++ s ∷ b))
  unfolding freed sub_in_use
  freed-Shows = record {
    bytes = sym (render-free_middle a (s ∷ b) (suc n));
    size = region_size ∙ sym (length-middle a (suc n) (render (s ∷ b)));
    used = omega (
      arith,
      region_size,
      v.used,
      v.room,
      blocks-free_middle a (s ∷ b) (suc n),
      blocks-append a (region n ∷ s ∷ b),
      blocks-le-length a,
      blocks-le-length (s ∷ b),
    );
    room = v.room;
  }

  -- Freeing the address of a region that another segment follows makes its blocks free, takes them
  -- off the counter, and overwrites the region's first block in memory.
  pub heap_free-Shows :
      (h' : Heap) × (heap_free m h (h.base_addr + length (render a) * block_size)
        ≡ done (memset m (h.base_addr + length (render a) * block_size) 0xFF block_size, h'))
      × Shows h' (a ++ (free_row (suc n) ++ s ∷ b))
      × (h'.base_addr ≡ h.base_addr)
  unfolding freed sub_in_use
  heap_free-Shows = (freed, heap_free-freed, freed-Shows, refl)

-- The counter of a heap is the number of blocks that `count_used_blocks` finds taken.
pub count_used_blocks-in_use :
    (h : Heap) (s : List Segment) → Shows h s → count_used_blocks h ≡ h.table.in_use
unfolding count_used_blocks
count_used_blocks-in_use h s v =
    rw (v.size, take-length h.table.entries, v.bytes, count_taken-render s, v.used)
