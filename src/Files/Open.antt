-- ===== src/Files/Open.antt =====
-- src/fs/file.c: opening a file by its path. The operation `open` of the disk's file system is an
-- argument, which gives the private data of the file, 0 for NULL.
use avocad_os.Base.{
  ℕ, ◌+◌, ◌*◌, ◌≤◌, ◌<◌, ◌≡◌, ◌≢◌, ◌∙◌, refl, ap, Bool, true, false, none, some, List, [], ◌∷◌,
  ◌==◌, arith, get_or, length, Result, ok, err, Outcome, done, fault, ◌>>=◌,
}
use avocad_os.Disk.{disk_get}
use avocad_os.Paths.{PathRoot, pathparser_path_parse, max_path_len}
use avocad_os.Paths.Parse.{AreParts, print_path, pathparser_path_parse-print_path}
use avocad_os.Files.{
  FileTable, FopenMode, open_mode_invalid, open_mode_read, open_mode_write, open_mode_rw,
  open_mode_append, file_mode_from_string, file_table_open_file, max_open_files,
}
use avocad_os.Files.Table.{IsValid, Opened, file_table_open_file-Opened}

-- The mode is one that a file can be opened in.
unfoldable pub is_mode : FopenMode → Bool
is_mode m = elim m [
  | open_mode_invalid ↦ false
  | open_mode_read ↦ true
  | open_mode_write ↦ true
  | open_mode_rw ↦ true
  | open_mode_append ↦ true
]

-- `descriptor` when the table took it, and NULL when it did not.
abbrev pub handle_of : Result ℕ → ℕ → ℕ
handle_of (ok fileno) descriptor = descriptor
handle_of (err e) descriptor = 0

-- `fopen` once the path has a first part, for the descriptor that `kzalloc` returned: without memory,
-- without a file system on the disk, without the file, or without a slot the result is NULL. When there
-- is no such disk, the clean-up reads the disk of the descriptor through NULL.
unfoldable pub open_path :
    (mounted : Bool)
    → (List (List ℕ) → FopenMode → ℕ)
    → FileTable
    → (descriptor : ℕ) → PathRoot
    → FopenMode
    → Outcome (FileTable × ℕ)
open_path mounted open_file t descriptor path mode = elim (descriptor == 0) [
  | true ↦ done (t, 0)
  | false ↦ elim (disk_get path.drive_number) [
    | err e ↦ fault
    | ok disk ↦ elim mounted [
      | false ↦ done (t, 0)
      | true ↦ elim (open_file path.first mode == 0) [
        | true ↦ done (t, 0)
        | false ↦ let r = file_table_open_file t descriptor in done (r.0, handle_of r.1 descriptor)
      ]
    ]
  ]
]

-- `fopen`; `fuel` and `budget` are those of the path parser.
unfoldable pub fopen :
    (mounted : Bool)
    → (List (List ℕ) → FopenMode → ℕ)
    → (fuel budget : ℕ) → FileTable
    → (descriptor : ℕ) → (filename str_mode : List ℕ) → Outcome (FileTable × ℕ)
fopen mounted open_file fuel budget t descriptor filename str_mode =
    elim (is_mode (file_mode_from_string str_mode)) [
      | false ↦ done (t, 0)
      | true ↦ pathparser_path_parse fuel budget filename >>= (λ path. elim path [
        | none ↦ done (t, 0)
        | some path ↦ elim path.first [
          | [] ↦ done (t, 0)
          | part ∷ parts ↦
              open_path mounted open_file t descriptor path (file_mode_from_string str_mode)
        ]
      ])
    ]

open_path-table :
    (open_file : List (List ℕ) → FopenMode → ℕ) (t : FileTable) (descriptor : ℕ) (path : PathRoot)
    (mode : FopenMode)
    → (descriptor == 0) ≡ false
    → path.drive_number ≡ 0
    → (open_file path.first mode == 0) ≡ false
    → open_path true open_file t descriptor path mode
      ≡ done (
        (file_table_open_file t descriptor).0,
        handle_of (file_table_open_file t descriptor).1 descriptor,
      )
unfolding open_path disk_get
open_path-table open_file t descriptor path mode d z o = rw (open_path, d, ap disk_get z, o) refl

fopen-path :
    (mounted : Bool) (open_file : List (List ℕ) → FopenMode → ℕ) (fuel budget : ℕ) (t : FileTable)
    (descriptor : ℕ) (filename str_mode : List ℕ) (drive : ℕ) (p : List ℕ) (ps : List (List ℕ))
    → is_mode (file_mode_from_string str_mode) ≡ true
    → pathparser_path_parse fuel budget filename
      ≡ done (some (record { drive_number = drive; first = p ∷ ps }))
    → fopen mounted open_file fuel budget t descriptor filename str_mode
      ≡ open_path mounted open_file t descriptor
          (record { drive_number = drive; first = p ∷ ps })
          (file_mode_from_string str_mode)
unfolding fopen
fopen-path mounted open_file fuel budget t descriptor filename str_mode drive p ps m e =
    rw (fopen, m, e) refl

-- What opening a file leaves: the descriptor stands in the table, as `Opened` says, and is the result;
-- or the table is full and stays, and the result is NULL.
abbrev pub FileOpened : FileTable → ℕ → Outcome (FileTable × ℕ) → Type 0
FileOpened t descriptor outcome =
    (r : FileTable × Result ℕ) × (outcome ≡ done (r.0, handle_of r.1 descriptor))
    × Opened t descriptor r

-- For a path on drive 0 printed from parts without slashes, a mode that is known, a disk with a file system
-- that opens the file, memory for the path, a descriptor that is not NULL and in no slot of a valid
-- table: `fopen` ends, and the descriptor is put into the lowest free slot and returned; only if every
-- slot is in use it returns NULL, and the table stays.
pub fopen-FileOpened :
    (open_file : List (List ℕ) → FopenMode → ℕ) (fuel budget : ℕ) (t : FileTable) (descriptor : ℕ)
    (p : List ℕ) (ps : List (List ℕ)) (str_mode : List ℕ)
    → IsValid t
    → ((j : ℕ) → j < max_open_files → get_or t.table j 0 ≢ descriptor)
    → (descriptor == 0) ≡ false
    → is_mode (file_mode_from_string str_mode) ≡ true
    → (open_file (p ∷ ps) (file_mode_from_string str_mode) == 0) ≡ false
    → AreParts (p ∷ ps)
    → length (print_path 0 p ps) ≤ max_path_len
    → length ps < fuel
    → 2 * length ps + 3 ≤ budget
    → FileOpened t descriptor
        (fopen true open_file fuel budget t descriptor (print_path 0 p ps) str_mode)
fopen-FileOpened open_file fuel budget t descriptor p ps str_mode v fresh d m o parts short enough
      memory =
    (
      file_table_open_file t descriptor,
      fopen-path true open_file fuel budget t descriptor (print_path 0 p ps) str_mode 0 p ps m (
            pathparser_path_parse-print_path fuel budget 0 p ps (omega arith) parts short enough
              memory)
          ∙ open_path-table open_file t descriptor (record { drive_number = 0; first = p ∷ ps })
              (file_mode_from_string str_mode) d refl o,
      file_table_open_file-Opened t descriptor v fresh,
    )
