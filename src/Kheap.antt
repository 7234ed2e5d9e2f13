-- ===== src/Kheap.antt =====
-- src/memory/kheap.c: the place of the kernel's heap, and its calls of the allocator.
mod Layout
mod Tests
use avocad_os.Base.{
  ℕ, zero, suc, ◌+◌, ◌-◌, ◌*◌, ◌/◌, ◌%◌, Bool, true, false, List, [], ◌==◌, if◌then◌else◌, Result,
  ok, err, Outcome, done, ◌>>=◌,
}
use avocad_os.Base.Memory.{Memory}
use avocad_os.Str.Mem.{memset}
use avocad_os.Heap.{HeapTable, Heap, heap_create, heap_malloc, heap_free, block_size}

-- KERNEL_HEAP_SIZE
abbrev pub kernel_heap_size : ℕ
kernel_heap_size = 0x1000000

-- `(addr & 0xFFF) ? (addr & ~0xFFF) + 0x1000 : addr`
unfoldable pub page_up : ℕ → ℕ
page_up addr = if addr % 4096 == 0 then addr else addr - addr % 4096 + 4096

-- The table's place, and that of the blocks behind it.
unfoldable pub table_begin : ℕ → ℕ
table_begin kernel_end = page_up kernel_end

unfoldable pub heap_begin : ℕ → ℕ
heap_begin kernel_end = page_up (table_begin kernel_end + kernel_heap_size / block_size)

-- `kheap_init`; the entries are those of the memory at the table's place, which `heap_create` clears.
unfoldable pub kheap_init : ℕ → Result Heap
kheap_init kernel_end =
    heap_create (heap_begin kernel_end) (heap_begin kernel_end + kernel_heap_size)
      (record { entries = []; len = kernel_heap_size / block_size; in_use = 0 })

-- `__kzalloc`
unfoldable pub kzalloc : ℕ → Memory → Heap → ℕ → Outcome (Memory × (Heap × ℕ))
kzalloc fuel m h size =
    heap_malloc fuel h size
    >>= (λ r. done (if r.0 == 0 then (m, (r.1, 0)) else (memset m r.0 0 size, (r.1, r.0))))

-- `kheap_free` and `kheap_used`
unfoldable pub kheap_free : Heap → ℕ
kheap_free h = (h.table.len - h.table.in_use) * block_size

unfoldable pub kheap_used : Heap → ℕ
kheap_used h = h.table.in_use * block_size
