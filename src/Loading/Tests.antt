-- ===== src/Loading/Tests.antt =====
-- A program of one page in memory becomes a process.
use avocad_os.Base.{
  ℕ, ◌+◌, ◌*◌, ◌≡◌, ◌==◌, refl, false, none, [], ◌∷◌, arith, if◌then◌else◌, replicate, Result, ok,
  Outcome, done, fault, out_of_fuel,
}
use avocad_os.Links.{Links}
use avocad_os.Paging.{
  Directory, virtual_to_physical_addr, paging_align_address, paging_map_from_to, paging_map_range,
  map_loop, paging_map_page, with_table, add_table, set_entry, paging_addr_is_page_aligned,
  directory_index, table_index, frame_index, page_entry_addr, is_pse, paging_clone_directory,
  clone_loop, share_entry, map_self,
}
use avocad_os.Loading.{Kernel, process_map_memory, map_region, process_init}
use avocad_os.Loading.Started.{new_info, Starts, process_init-Starts}

-- A ring of one address.
abbrev single : ℕ → Links
single a = record { next = λ x. if x == a then a else 0; prev = λ x. if x == a then a else 0 }

-- The first 4 MB are mapped to themselves; four pages are free.
abbrev kernel_directory : Directory
kernel_directory = record {
  directory = λ i. if i == 0 then 0x5003 else 0;
  directory_virtual = λ i. if i == 0 then 0x5000 else 0;
  tables = λ t i. i * 4096 + 3;
  free = 0x100000 ∷ 0x101000 ∷ 0x102000 ∷ 0x103000 ∷ [];
}

abbrev kernel : Kernel
kernel = record {
  files = record { table = replicate 100 0; table_len = 100; fileno = λ q. none };
  tasks = record {
    links = single 64;
    current_task = 64;
    kernel_stack_pointer = λ x. 0;
    n_switches = λ x. 0;
    tss_esp0 = 0;
    cr3 = 0;
    directory = λ x. 0;
  };
  processes = record { links = single 32; system_process = 32; processes = 32 ∷ replicate 1023 0 };
  info = λ q. none;
  words = λ a. 0;
  kernel = kernel_directory;
  pse = false;
  physical = λ t. t;
  blocks = 0x30000 ∷ 0x20000 ∷ 0x40000 ∷ [];
}

abbrev directory_of : Outcome (Directory × Result ℕ) → Directory
directory_of (done r) = r.0
directory_of fault = kernel_directory
directory_of out_of_fuel = kernel_directory

abbrev made : Directory
made = directory_of (process_map_memory kernel 0x10000 5000 0x20000)

memory_mapped : process_map_memory kernel 0x10000 5000 0x20000 ≡ done (made, ok 0)
unfolding process_map_memory map_region virtual_to_physical_addr paging_align_address
    paging_map_from_to paging_map_range map_loop paging_map_page with_table add_table set_entry
    paging_addr_is_page_aligned directory_index table_index frame_index page_entry_addr is_pse
    paging_clone_directory clone_loop share_entry map_self
memory_mapped = refl

process_init-Starts_example :
    Starts kernel 0x30000 0x40000 1
      (new_info (65 ∷ []) 1 0x10000 5000 0x20000 0x40000 made)
      []
      []
      (process_init kernel (65 ∷ []) 0x10000 5000 false 1)
process_init-Starts_example =
    process_init-Starts kernel (65 ∷ []) 0x10000 5000 false 1 0x30000 0x20000 0x40000 [] [] [] made
      refl refl refl refl memory_mapped (omega arith) (ground arith) refl (ground arith) refl
