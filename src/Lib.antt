-- ===== src/Lib.antt =====
-- AvocadOS: the core of the kernel and two stand-alone data structures of the repository.
--
-- The kernel's memory comes from a heap of 4 KiB blocks (src/memory/heap.c), whose table has one byte
-- per block. Paging (src/memory/paging.c) takes page tables from it and maps pages. The scheduler
-- (src/kernel/task/task.c) goes round a ring of tasks on each timer interrupt (src/idt/idt.c), on
-- stacks that it keeps per task; the processes (src/kernel/task/process.c) form another ring and stand in a table of slots.
-- A file is opened by a path (src/fs/path_parser.c) and gets a number in the table of open files
-- (src/fs/file_table.c); its bytes come from clusters of a FAT16 disk (src/fs/fat16.c), read through a
-- stream (src/disk/disk_stream.c). src/string/string.c and src/termio/termio.c serve all of them.
--
-- Files, and what they model:
--   Base       shared names: lists and tests over the native numbers, outcomes, memory, bits
--   Str        src/string/string.c: Mem has the block operations, Text the strings, Number
--              itoa
--   Heap       src/memory/heap.c: the table's bytes, search, reservation, release
--   Kheap      src/memory/kheap.c: the place of the kernel's heap
--   Memcheck   src/memory/memcheck.c
--   Links      circular doubly linked lists by address, shared by Tasks, Processes and Nodes
--   Tasks      src/kernel/task/task.c: the ring of tasks and schedule
--   Frames     src/kernel/task/task.c: new tasks and their first frame
--   Processes  src/kernel/task/process.c: the ring of processes and the search for a slot
--   Loading    src/kernel/task/process.c: a program of the disk becomes a process
--   Nodes      list.c
--   Buffers    buffer.c
--   Terminal   src/termio/termio.c
--   Files      src/fs/file_table.c, and the calls of src/fs/file.c: Open has fopen
--   Interrupts src/idt/idt.c: Gates has the table, Dispatch and Reach what interrupts do to the tasks
--   Disk       src/disk/disk_stream.c over src/disk/disk.c
--   Fat        src/fs/fat16.c: Chain and Volume have the clusters, Cursor and Read the reading of a file,
--              Names, Entries and Search the directories, Probe the recognition of a volume
--   Paths      src/fs/path_parser.c
--   Gdt        src/kernel/gdt.c: the encoding of segments, the task state segment
--   Paging     src/memory/paging.c: mapping, translation, and Clone, the directory of a process
-- Functions keep their names. The Tests module of a component holds its concrete runs.
--
-- Conventions: a pointer is a number, 0 for NULL; an int that is -code on failure is a Result; an
-- access that C leaves undefined, and a panic, is the outcome `fault`. Counters, positions and sectors
-- that can wrap are written with their modulus; addresses of memory do not wrap. A loop whose end depends on data runs on fuel, and the theorems
-- state how much is enough: one round per block that the search of the heap passes, per node of a
-- ring, per part of a path, per character of a string.
--
-- Not modelled: port input and output, assembly, processor registers, the start-up sequence, the
-- traces on the terminal, the release of paths, descriptors and private data, and src/fs/fat.cc, which
-- is not compiled.
pub mod Base
pub mod Str
pub mod Heap
pub mod Links
pub mod Tasks
pub mod Processes
pub mod Nodes
pub mod Buffers
pub mod Terminal
pub mod Files
pub mod Paths
pub mod Gdt
pub mod Paging
pub mod Disk
pub mod Fat
pub mod Memcheck
pub mod Loading
pub mod Interrupts
pub mod Frames
pub mod Kheap
