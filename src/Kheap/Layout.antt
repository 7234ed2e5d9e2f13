-- ===== src/Kheap/Layout.antt =====
-- The kernel's heap begins on a page behind its table, and its creation succeeds.
use avocad_os.Base.{ℕ, ◌+◌, ◌%◌, ◌≤◌, ◌<◌, ◌≡◌, refl, [], arith, ok}
use avocad_os.Heap.{Heap, word}
use avocad_os.Heap.Laws.{Shows, free_row}
use avocad_os.Heap.Cycle.{heap_create-Shows}
use avocad_os.Kheap.{kernel_heap_size, page_up, table_begin, heap_begin, kheap_init}

page_up_aligned : (a : ℕ) → page_up a % 4096 ≡ 0
unfolding page_up
page_up_aligned a = ground arith

page_up_le : (a : ℕ) → (a ≤ page_up a) × (page_up a < a + 4096)
unfolding page_up
page_up_le a = (ground arith, ground arith)

-- For a kernel that ends at least 17 MiB below the end of the address space, `kheap_init` does not
-- panic: the heap begins behind its table on a page, and shows 4096 free blocks.
kheap_init-Shows :
    (kernel_end : ℕ)
    → kernel_end + 0x1100000 < word
    → (h : Heap) × (kheap_init kernel_end ≡ ok h)
      × Shows h (free_row 4096)
      × (h.base_addr ≡ heap_begin kernel_end)
      × (kernel_end + 4096 ≤ heap_begin kernel_end)
unfolding kheap_init heap_begin table_begin
kheap_init-Shows kernel_end lt =
    let t = page_up_le kernel_end in
    let b = page_up_le (page_up kernel_end + 4096) in
    let al = page_up_aligned (page_up kernel_end + 4096) in
    let create =
      heap_create-Shows (page_up (page_up kernel_end + 4096))
        (page_up (page_up kernel_end + 4096) + kernel_heap_size)
        (record { entries = []; len = 4096; in_use = 0 }) (omega arith) (omega arith) refl in
    let (h, e, s, a) = create.0 (al, omega arith, omega arith) in (h, e, s, a, omega arith)
