-- ===== src/Kheap/Tests.antt =====
-- Places for a kernel that ends inside a page.
use avocad_os.Base.{◌≡◌, refl}
use avocad_os.Kheap.{page_up, table_begin, heap_begin}

places : heap_begin 0xC0123456 ≡ 0xC0125000
unfolding heap_begin table_begin page_up
places = refl
