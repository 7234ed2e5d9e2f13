-- ===== src/Fat/Directory.antt =====
-- src/fs/fat16.c: directories, paths, opening a file and probing a volume. `kzalloc` is taken as a
-- budget of calls that still return memory; blocks that are freed are not counted back.
use avocad_os.Base.{
  ℕ, zero, suc, ◌+◌, ◌-◌, ◌*◌, ◌%◌, ◌^◌, bit_and, Bool, true, false, not, ◌&&◌, ◌||◌, List, [], ◌∷◌,
  ◌++◌, ltb, leb, ◌==◌, if◌then◌else◌, Option, none, some, take, drop, length, get_or, replicate,
  is_zero, Result, ok, err, eio, Outcome, done, fault, out_of_fuel, ◌>>=◌,
}
use avocad_os.Str.Text.{strncmp}
use avocad_os.Fat.{FatPrivateData, fat16_cluster_number_to_data_sector}
use avocad_os.Fat.Descriptor.{
  FatEntry, FatItem, FatDescriptor, directory_flag, file_flag, root_directory_flag, subdirectory,
  reset_cursors, descriptor_read, descriptor_open,
}

-- The bytes before the first NUL, at most `n`: their number is `strnlen`.
unfoldable pub text_before : ℕ → List ℕ → List ℕ
text_before zero bytes = []
text_before (suc n) [] = []
text_before (suc n) (c ∷ bytes) = elim (c == 0) [ true ↦ [] | false ↦ c ∷ text_before n bytes ]

-- An array of `n` spaces with a text copied over its front; a longer text is written past its end.
unfoldable pub padded : ℕ → List ℕ → Outcome (List ℕ)
padded n text = elim (leb (length text) n) [
  | true ↦ done (text ++ replicate (n - length text) 32)
  | false ↦ fault
]

-- The text before the first '.' and the text behind it; `none` without one. 46 is '.'.
unfoldable pub split_point : List ℕ → List ℕ × Option (List ℕ)
split_point [] = ([], none)
split_point (c ∷ text) =
    let (before, behind) = split_point text in
    elim (c == 46) [ true ↦ ([], some text) | false ↦ (c ∷ before, behind) ]

-- `fat16_split_entry_name`: the name and the extension.
unfoldable pub fat16_split_entry_name : List ℕ → Outcome (List ℕ × List ℕ)
fat16_split_entry_name name =
    let (before, behind) = split_point (text_before 12 name) in
    elim behind [
      | none ↦ padded 8 before >>= (λ filename_out. done (filename_out, replicate 3 32))
      | some text ↦ padded 8 before >>= (λ filename_out.
          padded 3 text >>= (λ extension_out. done (filename_out, extension_out)))
    ]

-- sizeof(struct fat_entry_t)
abbrev pub entry_size : ℕ
entry_size = 32

-- A little-endian word of two bytes.
unfoldable pub word_at : List ℕ → ℕ → ℕ
word_at bytes i = get_or bytes i 0 + get_or bytes (i + 1) 0 * 256

-- The fields of a `struct fat_entry_t` in its bytes.
unfoldable pub decode_entry : List ℕ → FatEntry
decode_entry bytes = record {
  filename = take 8 bytes;
  extension = take 3 (drop 8 bytes);
  attributes = get_or bytes 11 0;
  first_cluster = word_at bytes 26;
  size_bytes = word_at bytes 28 + word_at bytes 30 * 2 ^ 16;
}

-- FAT16_FILE_LFN, FAT16_FILE_VOLUME_LABEL
abbrev pub file_lfn : ℕ
file_lfn = 0x0F

abbrev pub volume_label : ℕ
volume_label = 0x8

-- An entry that the loops pass over.
unfoldable pub is_skipped : FatEntry → Bool
is_skipped entry = entry.attributes == file_lfn || not (bit_and entry.attributes volume_label == 0)

-- The entry that ends a directory.
unfoldable pub is_last : FatEntry → Bool
is_last entry = get_or entry.filename 0 0 == 0

-- The loop of `fat16_count_dir_items`: the descriptor and the number, or an error. A read that does
-- not fill the entry leaves bytes without a value, and they are used.
unfoldable pub count_loop :
    FatPrivateData → ℕ → FatDescriptor → ℕ → Outcome (FatDescriptor × Result ℕ)
count_loop fat zero d count = out_of_fuel
count_loop fat (suc fuel) d count = elim d.eof [
  | true ↦ done (reset_cursors d, ok count)
  | false ↦ descriptor_read fat d entry_size >>= (λ r. elim r.1.1 [
    | err e ↦ done (r.0, err eio)
    | ok n ↦ elim (ltb (length (r.1.0)) entry_size) [
      | true ↦ fault
      | false ↦
          let entry = decode_entry r.1.0 in
          elim (is_skipped entry) [
            | true ↦ count_loop fat fuel r.0 count
            | false ↦ elim (is_last entry) [
              | true ↦ done (reset_cursors (record r.0 { eof = true }), ok count)
              | false ↦ count_loop fat fuel r.0 (count + 1)
            ]
          ]
    ]
  ])
]

unfoldable pub fat16_count_dir_items :
    FatPrivateData → ℕ → FatDescriptor → Outcome (FatDescriptor × Result ℕ)
fat16_count_dir_items fat fuel d = count_loop fat fuel (reset_cursors d) 0

-- The comparison with an entry, both parts.
unfoldable pub is_named : (filename extension : List ℕ) → FatEntry → Bool
is_named filename extension entry =
    is_zero (strncmp filename entry.filename 8) && is_zero (strncmp extension entry.extension 3)

-- The item that is made of the entry found.
unfoldable pub found_item : FatPrivateData → FatDescriptor → FatEntry → ℕ → FatItem
found_item fat d entry dir_pos = record {
  kind = if bit_and subdirectory entry.attributes == 0 then file_flag else directory_flag;
  entry = entry;
  first_sector = fat16_cluster_number_to_data_sector fat entry.first_cluster;
  parent_dir_first_sector = d.item.first_sector;
  parent_dir_position = dir_pos;
}

-- What the loop of `fat16_find_entry_in_dir` does with an entry, where `rest` is its next round. Without
-- memory for the item the cursor is left where it is.
unfoldable pub visit_entry :
    FatPrivateData
    → ℕ
    → (filename extension : List ℕ) → FatDescriptor
    → FatEntry
    → ℕ
    → Outcome (FatDescriptor × Option FatItem)
    → Outcome (FatDescriptor × Option FatItem)
visit_entry fat budget filename extension d entry dir_pos rest = elim (is_skipped entry) [
  | true ↦ rest
  | false ↦ elim (is_last entry) [
    | true ↦ done (reset_cursors (record d { eof = true }), none)
    | false ↦ elim (is_named filename extension entry) [
      | false ↦ rest
      | true ↦ elim budget [
        | zero ↦ done (d, none)
        | suc _ ↦ done (reset_cursors d, some (found_item fat d entry dir_pos))
      ]
    ]
  ]
]

-- The loop of `fat16_find_entry_in_dir`: the entry is a buffer that a read overwrites as far as it
-- goes.
unfoldable pub find_loop :
    FatPrivateData
    → ℕ
    → ℕ
    → (filename extension : List ℕ) → FatDescriptor
    → List ℕ
    → ℕ
    → Outcome (FatDescriptor × Option FatItem)
find_loop fat budget zero filename extension d buffer dir_pos = out_of_fuel
find_loop fat budget (suc fuel) filename extension d buffer dir_pos = elim d.eof [
  | true ↦ done (reset_cursors d, none)
  | false ↦ descriptor_read fat d entry_size >>= (λ r. elim r.1.1 [
    | err e ↦ done (reset_cursors r.0, none)
    | ok n ↦
        let buffer = r.1.0 ++ drop (length (r.1.0)) buffer in
        let dir_pos = (dir_pos + 1) % 2 ^ 32 in
        visit_entry fat budget filename extension r.0 (decode_entry buffer) dir_pos
          (find_loop fat budget fuel filename extension r.0 buffer dir_pos)
  ])
]

unfoldable pub fat16_find_entry_in_dir :
    FatPrivateData
    → ℕ
    → ℕ
    → FatDescriptor
    → (filename extension : List ℕ) → Outcome (FatDescriptor × Option FatItem)
fat16_find_entry_in_dir fat budget fuel d filename extension =
    elim (d.item.kind == directory_flag || d.item.kind == root_directory_flag) [
      | false ↦ done (d, none)
      | true ↦ padded 8 (text_before 8 filename) >>= (λ padded_filename.
          padded 3 (text_before 3 extension) >>= (λ padded_extension.
            find_loop fat budget fuel padded_filename padded_extension (reset_cursors d)
              (replicate entry_size 0) 0))
    ]

-- `root_directory` of the private data.
unfoldable pub root_directory : FatPrivateData → FatItem
root_directory fat = record {
  kind = root_directory_flag;
  entry = record {
    filename = replicate 8 0;
    extension = replicate 3 0;
    attributes = 0;
    first_cluster = 0;
    size_bytes = 0;
  };
  first_sector = fat.root_sector;
  parent_dir_first_sector = 0;
  parent_dir_position = 0;
}

-- The loop of `traverse_path` with what is left of the budget; each part takes memory for a descriptor
-- and for an item.
unfoldable pub traverse_loop :
    FatPrivateData → ℕ → ℕ → FatItem → List (List ℕ) → Outcome (ℕ × Option FatItem)
traverse_loop fat budget fuel item [] = done (budget, some item)
traverse_loop fat zero fuel item (part ∷ path) = done (0, none)
traverse_loop fat (suc budget) fuel item (part ∷ path) = fat16_split_entry_name part >>= (λ name.
    fat16_find_entry_in_dir fat budget fuel (descriptor_open fat item) name.0 name.1 >>= (λ r.
      elim r.1 [
        | none ↦ done (budget, none)
        | some item ↦ traverse_loop fat (budget - 1) fuel item path
      ]))

-- `traverse_path`: the item is written without a test for memory.
unfoldable pub traverse_path : FatPrivateData → ℕ → ℕ → List (List ℕ) → Outcome (ℕ × Option FatItem)
traverse_path fat zero fuel path = fault
traverse_path fat (suc budget) fuel path = traverse_loop fat budget fuel (root_directory fat) path

-- `fat16_open`; `none` is NULL.
unfoldable pub fat16_open : FatPrivateData → ℕ → ℕ → List (List ℕ) → Outcome (Option FatDescriptor)
fat16_open fat budget fuel path = traverse_path fat budget fuel path >>= (λ r. elim r.1 [
  | none ↦ done none
  | some item ↦ elim (r.0 == 0) [
    | true ↦ done none
    | false ↦ done (some (descriptor_open fat item))
  ]
])
