-- ===== src/Loading.antt =====
-- src/kernel/task/process.c: loading a program into a new process. The calls of `kzalloc` return the entries
-- of a list, which may be NULL, and NULL when the list has ended; page tables come from the pages of the kernel's directory. The bytes
-- of the program are not followed: reading a file gives their number.
mod Tests
pub mod Started
use avocad_os.Base.{
  ℕ, zero, suc, ◌+◌, ◌-◌, ◌*◌, ◌/◌, ◌%◌, ◌^◌, Bool, true, false, Option, none, some, List, [], ◌∷◌,
  ltb, ◌==◌, if◌then◌else◌, get_or, set, take, Result, ok, err, eio, einval, enomem, Outcome, done,
  fault, ◌>>=◌,
}
use avocad_os.Files.{FileTable, FopenMode, fclose, fread, fstat}
use avocad_os.Files.Open.{fopen}
use avocad_os.Paging.{
  Directory, virtual_to_physical_addr, paging_align_address, paging_map_from_to,
  paging_clone_directory,
}
use avocad_os.Tasks.{Tasks}
use avocad_os.Frames.{task_new}
use avocad_os.Processes.{Processes, max_processes, process_list_insert, find_slot}

-- PROGRAM_BASE_VIRT_ADDR, PROGRAM_STACK_TOP_VIRT_ADDR, PROGRAM_STACK_SIZE
abbrev pub program_base : ℕ
program_base = 0x400000

abbrev pub program_stack_top : ℕ
program_stack_top = 0x4000000

abbrev pub program_stack_size : ℕ
program_stack_size = 4096

-- The operations of the file system of disk 0, by the descriptor of a file.
pub record FileSystem : Type 0 where
  pub mounted : Bool
  pub open_file : List (List ℕ) → FopenMode → ℕ
  pub close : ℕ → Result ℕ
  pub read : ℕ → ℕ
  pub stat : ℕ → Result ℕ

-- The fields of `struct process` besides its links.
pub record ProcessInfo : Type 0 where
  pub pid : ℕ
  pub name : List ℕ
  pub task : ℕ
  pub page_directory : Directory
  pub memory : ℕ
  pub memory_size : ℕ
  pub stack : ℕ

-- The state that loading a program goes over. `words` is the memory of the kernel stacks, `kernel` the
-- kernel's page directory, which is the current one, and `physical` what it gives for a new page table.
pub record Kernel : Type 0 where
  pub files : FileTable
  pub tasks : Tasks
  pub processes : Processes
  pub info : ℕ → Option ProcessInfo
  pub words : ℕ → ℕ
  pub kernel : Directory
  pub pse : Bool
  pub physical : ℕ → ℕ
  pub blocks : List ℕ

-- `kzalloc`
unfoldable pub next_block : List ℕ → ℕ × List ℕ
next_block [] = (0, [])
next_block (b ∷ blocks) = (b, blocks)

-- The end of `process_load_binary` after an error: the stream, which may be NULL, is closed, and closed
-- again if it is not NULL, which reads a block that was freed if the first call closed the file.
unfoldable pub close_twice : FileSystem → FileTable → ℕ → ℕ → Outcome (FileTable × Result (ℕ × ℕ))
close_twice fs t fd e = fclose fs.close t fd >>= (λ r. elim r.1.0 [
  | freed ∷ _ ↦ fault
  | [] ↦ elim (fd == 0) [
    | true ↦ done (r.0, err e)
    | false ↦ fclose fs.close r.0 fd >>= (λ r. done (r.0, err e))
  ]
])

-- `process_load_binary` from the open stream on, with the memory that `kzalloc` returned.
unfoldable pub read_binary :
    FileSystem → FileTable → (fd memory : ℕ) → Outcome (FileTable × Result (ℕ × ℕ))
read_binary fs t fd memory = elim (t.fileno fd) [
  | none ↦ fault
  | some fileno ↦ fstat fs.stat t fileno >>= (λ s. elim s [
    | err e ↦ close_twice fs t fd e
    | ok size ↦ elim (memory == 0) [
      | true ↦ close_twice fs t fd enomem
      | false ↦ fread fs.read t fd >>= (λ read_bytes. elim (read_bytes == size) [
        | false ↦ close_twice fs t fd eio
        | true ↦ fclose fs.close t fd >>= (λ r. done (r.0, ok (memory, size)))
      ])
    ]
  ])
]

-- `process_load_binary`: the memory and its size. 114 is 'r'.
unfoldable pub process_load_binary :
    FileSystem
    → (fuel budget : ℕ) → FileTable
    → (descriptor memory : ℕ) → (filename : List ℕ) → Outcome (FileTable × Result (ℕ × ℕ))
process_load_binary fs fuel budget t descriptor memory filename =
    fopen fs.mounted fs.open_file fuel budget t descriptor filename (114 ∷ []) >>= (λ r.
      elim (r.1 == 0) [ true ↦ close_twice fs r.0 r.1 eio | false ↦ read_binary fs r.0 r.1 memory ])

-- One region of `process_map_memory`, from an address of the kernel: PAGING_WRITABLE_PAGE |
-- PAGING_ACCESS_FROM_ALL | PAGING_PRESENT is 7.
unfoldable pub map_region :
    Kernel → Directory → (virt_addr pointer size : ℕ) → Outcome (Directory × Result ℕ)
map_region k handle virt_addr pointer size =
    virtual_to_physical_addr k.pse k.kernel pointer >>= (λ begin.
      paging_map_from_to k.physical handle virt_addr begin
        (paging_align_address ((begin + size) % 2 ^ 32)) 7)

-- `process_map_memory` of a process with this memory and stack: its page directory.
unfoldable pub process_map_memory :
    Kernel → (memory memory_size stack : ℕ) → Outcome (Directory × Result ℕ)
process_map_memory k memory memory_size stack = elim (memory == 0) [
  | true ↦ fault
  | false ↦ paging_clone_directory k.physical k.kernel k.kernel k.kernel.free >>= (λ handle.
      map_region k handle program_base memory memory_size >>= (λ r. elim r.1 [
        | err e ↦ done r
        | ok _ ↦ map_region k r.0 program_stack_top stack program_stack_size
      ]))
]

-- `*process = kzalloc(...)` on the slot: the process stays in it, also when a later step fails.
unfoldable pub set_slot : Kernel → (slot process : ℕ) → Kernel
set_slot k slot process = record k {
  processes = record k.processes { processes = set k.processes.processes slot process };
}

-- `process_init` from the page directory on.
unfoldable pub start_process :
    Kernel → ProcessInfo → (process : ℕ) → (privileged : Bool) → (task : ℕ) → Kernel × Result ℕ
start_process k info process privileged task =
    let t =
      task_new k.words k.tasks task process (info.page_directory.directory 1023) privileged
        program_base (program_stack_top + program_stack_size) in
    elim (t.1.1 == 0) [
      | true ↦ (record k { words = t.0; tasks = t.1.0 }, err enomem)
      | false ↦ (
        record k {
          words = t.0;
          tasks = t.1.0;
          info = λ q. if process == q then some (record info { task = t.1.1 }) else k.info q;
          processes = process_list_insert k.processes process;
        },
        ok 0,
      )
    ]

-- `process_init` after `process_map_memory`; 250 is the length of the field for the name. What it frees
-- after an error is not followed.
unfoldable pub init_mapped :
    Kernel
    → (name : List ℕ) → (memory memory_size : ℕ) → Bool
    → (slot process stack : ℕ) → List ℕ
    → Directory × Result ℕ
    → Kernel × Result ℕ
init_mapped k name memory memory_size privileged slot process stack blocks r =
    let k = record (set_slot k slot process) {
      blocks = blocks;
      kernel = record k.kernel { tables = r.0.tables; free = r.0.free };
    } in
    elim r.1 [
      | err e ↦ (k, err e)
      | ok _ ↦
          let task = next_block blocks in
          start_process (record k { blocks = task.1 })
            (record {
              pid = slot;
              name = take 250 name;
              task = 0;
              page_directory = r.0;
              memory = memory;
              memory_size = memory_size;
              stack = stack;
            })
            process privileged task.0
    ]

-- `process_init`, with what `kzalloc` returned for the process and for its stack.
unfoldable pub init_blocks :
    Kernel
    → (name : List ℕ) → (memory memory_size : ℕ) → Bool
    → (slot process stack : ℕ) → List ℕ
    → Outcome (Kernel × Result ℕ)
init_blocks k name memory memory_size privileged slot process stack blocks = elim (stack == 0) [
  | true ↦ done (set_slot (record k { blocks = blocks }) slot process, err einval)
  | false ↦
      process_map_memory k memory memory_size stack
      >>= (λ r. done (init_mapped k name memory memory_size privileged slot process stack blocks r))
]

-- `process_init` with the results of `kzalloc` that are left.
unfoldable pub init_process :
    Kernel
    → (name : List ℕ) → (memory memory_size : ℕ) → Bool
    → (slot : ℕ) → List ℕ
    → Outcome (Kernel × Result ℕ)
init_process k name memory memory_size privileged slot blocks =
    let process = next_block blocks in
    elim (process.0 == 0) [
      | true ↦ done (set_slot (record k { blocks = process.1 }) slot 0, err enomem)
      | false ↦
          let stack = next_block process.1 in
          init_blocks k name memory memory_size privileged slot process.0 stack.0 stack.1
    ]

-- `process_init`
unfoldable pub process_init :
    Kernel
    → (name : List ℕ) → (memory memory_size : ℕ) → Bool
    → (slot : ℕ) → Outcome (Kernel × Result ℕ)
process_init k name memory memory_size privileged slot =
    init_process k name memory memory_size privileged slot k.blocks

-- `process_load`: what `process_load_binary` returns is not used; after an error the memory is NULL. The
-- first two blocks are those of the stream and of the program.
unfoldable pub process_load :
    FileSystem → (fuel budget : ℕ) → Kernel → (filename : List ℕ) → Outcome (Kernel × Result ℕ)
process_load fs fuel budget k filename = elim (find_slot k.processes max_processes 0) [
  | none ↦ done (k, err enomem)
  | some slot ↦
      let descriptor = next_block k.blocks in
      let memory = next_block descriptor.1 in
      process_load_binary fs fuel budget k.files descriptor.0 memory.0 filename >>= (λ r.
        let k = record k { files = r.0; blocks = memory.1 } in
        elim r.1 [
          | err e ↦ process_init k filename 0 0 false slot
          | ok m ↦ process_init k filename m.0 m.1 false slot
        ])
]
