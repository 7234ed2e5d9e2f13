-- ===== src/Files.antt =====
-- src/fs/file_table.c and the parts of src/fs/file.c that go through the table. A descriptor is its
-- address, 0 for NULL; `none` is the file number -1.
mod Tests
pub mod Table
pub mod Stream
pub mod Open
use avocad_os.Base.{
  ℕ, zero, suc, ◌+◌, Bool, true, false, Option, none, some, List, [], ◌∷◌, ltb, ◌==◌, if◌then◌else◌,
  get_or, set, replicate, Result, ok, err, Outcome, done, fault, ebadf, emfile, eio, ◌>>=◌, is_zero,
}
use avocad_os.Str.Text.{strncmp}

-- MAX_OPEN_FILES
abbrev pub max_open_files : ℕ
max_open_files = 100

-- `file_table`, and the field `fileno` of every descriptor.
pub record FileTable : Type 0 where
  pub table : List ℕ
  pub table_len : ℕ
  pub fileno : ℕ → Option ℕ

unfoldable pub file_table_init : FileTable → FileTable
file_table_init t = record t { table = replicate max_open_files 0; table_len = max_open_files }

-- The loop of `file_table_find_free_slot`, with `k` slots left from slot `i` on.
unfoldable pub find_slot : FileTable → ℕ → ℕ → Option ℕ
find_slot t zero i = none
find_slot t (suc k) i = elim (get_or t.table i 0 == 0) [
  | true ↦ some i
  | false ↦ find_slot t k (i + 1)
]

unfoldable pub file_table_find_free_slot : FileTable → Result ℕ
file_table_find_free_slot t = elim (find_slot t t.table_len 0) [ none ↦ err emfile | some i ↦ ok i ]

abbrev pub set_fileno : FileTable → ℕ → Option ℕ → FileTable
set_fileno t d n = record t { fileno = λ q. if d == q then n else t.fileno q }

unfoldable pub file_table_open_file : FileTable → ℕ → FileTable × Result ℕ
file_table_open_file t descriptor = elim (file_table_find_free_slot t) [
  | err e ↦ (t, err e)
  | ok index ↦
      let t = set_fileno t descriptor (some index) in
      (record t { table = set t.table index descriptor }, ok index)
]

-- The result 0 is written `ok 0`.
unfoldable pub file_table_close_file : FileTable → ℕ → FileTable × Result ℕ
file_table_close_file t descriptor = elim (t.fileno descriptor) [
  | none ↦ (t, err ebadf)
  | some fd ↦ elim (ltb fd t.table_len) [
    | false ↦ (t, err ebadf)
    | true ↦ let t = record t { table = set t.table fd 0 } in (set_fileno t descriptor none, ok 0)
  ]
]

-- A file number from 0 on.
unfoldable pub file_table_get_descriptor : FileTable → ℕ → ℕ
file_table_get_descriptor t fd = if ltb fd t.table_len then get_or t.table fd 0 else 0

-- `file_table.table[stream->fileno]`: a file number outside the table is read all the same, which
-- C leaves undefined.
unfoldable pub table_entry : FileTable → Option ℕ → Outcome ℕ
table_entry t none = fault
table_entry t (some fd) = elim (ltb fd max_open_files) [
  | true ↦ done (get_or t.table fd 0)
  | false ↦ fault
]

-- `FS_CLOSE`, `FS_READ`, `FS_SEEK` and `FS_STAT` of the file system of a descriptor are arguments,
-- by the descriptor.

-- `fclose` from the descriptor on: the table, the descriptors that are freed with their paths, and
-- the result. Any result of `close` but 0 leaves the descriptor.
unfoldable pub close_descriptor : (ℕ → Result ℕ) → FileTable → ℕ → FileTable × (List ℕ × Result ℕ)
close_descriptor close t descriptor = elim (descriptor == 0) [
  | true ↦ (t, ([], err ebadf))
  | false ↦
      let r = file_table_close_file t descriptor in
      elim r.1 [
        | err e ↦ (r.0, ([], err e))
        | ok _ ↦ elim (close descriptor) [
          | err e ↦ (r.0, ([], err e))
          | ok res ↦ elim (res == 0) [
            | true ↦ (r.0, (descriptor ∷ [], ok 0))
            | false ↦ (r.0, ([], ok res))
          ]
        ]
      ]
]

-- `stream->fileno`: reading it through NULL is a fault.
unfoldable pub stream_entry : FileTable → ℕ → Outcome ℕ
stream_entry t stream = elim (stream == 0) [
  | true ↦ fault
  | false ↦ table_entry t (t.fileno stream)
]

unfoldable pub fclose : (ℕ → Result ℕ) → FileTable → ℕ → Outcome (FileTable × (List ℕ × Result ℕ))
fclose close t stream =
    stream_entry t stream >>= (λ descriptor. done (close_descriptor close t descriptor))

-- `fread`: 0 without a descriptor.
unfoldable pub fread : (ℕ → ℕ) → FileTable → ℕ → Outcome ℕ
fread read t stream =
    stream_entry t stream >>= (λ descriptor. done (if descriptor == 0 then 0 else read descriptor))

unfoldable pub fseek : (ℕ → Result ℕ) → FileTable → ℕ → Outcome (Result ℕ)
fseek seek t stream =
    stream_entry t stream
    >>= (λ descriptor. done (if descriptor == 0 then err ebadf else seek descriptor))

unfoldable pub fstat : (ℕ → Result ℕ) → FileTable → ℕ → Outcome (Result ℕ)
fstat stat t fd =
    table_entry t (some fd)
    >>= (λ descriptor. done (if descriptor == 0 then err ebadf else stat descriptor))

-- The loop of `fs_register_fs`, with `k` entries left from entry `i` on.
unfoldable pub register_loop : List ℕ → ℕ → ℕ → ℕ → List ℕ × Result ℕ
register_loop registered operations zero i = (registered, err eio)
register_loop registered operations (suc k) i = elim (get_or registered i 0 == 0) [
  | true ↦ (set registered i operations, ok 0)
  | false ↦ register_loop registered operations k (i + 1)
]

-- `fs_register_fs`; 5 is MAX_FILESYSTEMS.
unfoldable pub fs_register_fs : List ℕ → ℕ → List ℕ × Result ℕ
fs_register_fs registered operations = register_loop registered operations 5 0

-- `fs_probe_fs`: a structure that does not probe is followed by whatever stands behind it in memory,
-- which C leaves undefined.
unfoldable pub fs_probe_fs : (ℕ → Bool) → List ℕ → Outcome ℕ
fs_probe_fs probes registered =
    let fs_op = get_or registered 0 0 in
    elim (fs_op == 0) [
      | true ↦ done 0
      | false ↦ elim (probes fs_op) [ true ↦ done fs_op | false ↦ fault ]
    ]

-- `enum fopen_mode`
pub data FopenMode : Type 0 where
  open_mode_invalid : FopenMode
  open_mode_read : FopenMode
  open_mode_write : FopenMode
  open_mode_rw : FopenMode
  open_mode_append : FopenMode

-- `file_mode_from_string`; 119, 114 and 97 are 'w', 'r' and 'a'.
unfoldable pub file_mode_from_string : List ℕ → FopenMode
file_mode_from_string str =
    if is_zero (strncmp str (119 ∷ []) 1)
    then open_mode_write
    else if is_zero (strncmp str (114 ∷ []) 1)
    then open_mode_read
    else if is_zero (strncmp str (97 ∷ []) 1)
    then open_mode_append
    else open_mode_invalid
