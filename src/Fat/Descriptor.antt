-- ===== src/Fat/Descriptor.antt =====
-- src/fs/fat16.c: open files and directories. The cursor of a descriptor is its position, the cluster
-- that holds it, and the position within that cluster.
use avocad_os.Base.{
  ℕ, zero, suc, ◌+◌, ◌-◌, ◌*◌, ◌/◌, ◌%◌, ◌^◌, bit_and, Bool, true, false, not, ◌&&◌, ◌||◌, List, [],
  ◌++◌, ltb, leb, ◌==◌, if◌then◌else◌, Result, ok, err, eio, Outcome, done, out_of_fuel, ◌>>=◌,
}
use avocad_os.Disk.{smaller, read_count}
use avocad_os.Fat.{
  FatPrivateData, chain_end, cluster_bad, cluster_reserved, stream_read, fat16_follow_cluster_chain,
  fat16_sector_to_cluster_number, fat16_cluster_number_to_data_sector,
}

-- The fields of `struct fat_entry_t` that the code reads.
pub record FatEntry : Type 0 where
  pub filename : List ℕ
  pub extension : List ℕ
  pub attributes : ℕ
  pub first_cluster : ℕ
  pub size_bytes : ℕ

-- FAT16_DIRECTORY_FLAG, FAT16_FILE_FLAG, FAT16_ROOT_DIRECTORY_FLAG
abbrev pub directory_flag : ℕ
directory_flag = 0

abbrev pub file_flag : ℕ
file_flag = 1

abbrev pub root_directory_flag : ℕ
root_directory_flag = 255

-- FAT16_FILE_SUBDIRECTORY
abbrev pub subdirectory : ℕ
subdirectory = 0x10

-- `struct fat_item_t`
pub record FatItem : Type 0 where
  pub kind : ℕ
  pub entry : FatEntry
  pub first_sector : ℕ
  pub parent_dir_first_sector : ℕ
  pub parent_dir_position : ℕ

-- `struct fat_descriptor_t`; its disk is always disk 0, whose private data is an argument.
pub record FatDescriptor : Type 0 where
  pub item : FatItem
  pub eof : Bool
  pub pos : ℕ
  pub relative_pos : ℕ
  pub current_cluster_first_sector : ℕ
  pub error : ℕ

unfoldable pub fat16_item_is_root_dir : FatPrivateData → FatItem → Bool
fat16_item_is_root_dir fat dir =
    dir.kind == root_directory_flag && dir.first_sector == fat.root_sector

-- `__fat16_adjust_cursors_root_dir`
unfoldable pub adjust_cursors_root_dir : FatPrivateData → FatDescriptor → FatDescriptor × Result ℕ
adjust_cursors_root_dir fat d =
    let d = record d { relative_pos = d.pos } in
    elim (leb fat.data_sector d.pos) [
      | false ↦ (d, ok 0)
      | true ↦
          let d = record d { eof = true } in
          elim (ltb fat.data_sector d.pos) [
            | true ↦ (record d { error = eio }, err eio)
            | false ↦ (d, ok 0)
          ]
    ]

-- The cursor at a cluster of the chain.
unfoldable pub place_cursor : FatPrivateData → FatDescriptor → ℕ → FatDescriptor × Result ℕ
place_cursor fat d current_cluster =
    let d = record d { relative_pos = d.pos % fat.bytes_per_cluster } in
    elim (current_cluster == cluster_reserved || current_cluster == cluster_bad) [
      | true ↦ (record d { error = eio }, err eio)
      | false ↦ elim (ltb current_cluster chain_end) [
        | true ↦ (
          record d {
            current_cluster_first_sector = fat16_cluster_number_to_data_sector fat current_cluster;
          },
          ok 0,
        )
        | false ↦ (record d { eof = true }, ok 0)
      ]
    ]

-- `__fat16_adjust_cursors_non_root`
unfoldable pub adjust_cursors_non_root :
    FatPrivateData → FatDescriptor → Outcome (FatDescriptor × Result ℕ)
adjust_cursors_non_root fat d = elim (d.item.entry.first_cluster == 0) [
  | true ↦ done (record d { eof = true }, ok 0)
  | false ↦
      fat16_follow_cluster_chain fat (fat16_sector_to_cluster_number fat d.item.first_sector)
        (d.pos / fat.bytes_per_cluster)
      >>= (λ current_cluster. done (place_cursor fat d current_cluster))
]

-- `__fat16_adjust_cursors`, for an offset from 0 on.
unfoldable pub adjust_cursors :
    FatPrivateData → FatDescriptor → ℕ → Outcome (FatDescriptor × Result ℕ)
adjust_cursors fat d offset =
    let d = record d { pos = (d.pos + offset) % 2 ^ 32 } in
    elim (fat16_item_is_root_dir fat d.item) [
      | true ↦ done (adjust_cursors_root_dir fat d)
      | false ↦ adjust_cursors_non_root fat d
    ]

-- `__fat16_descriptor_to_absolute_address`
unfoldable pub absolute_address : FatPrivateData → FatDescriptor → ℕ
absolute_address fat d =
    (d.current_cluster_first_sector * fat.bytes_per_sector % 2 ^ 32 + d.relative_pos) % 2 ^ 32

-- `__fat16_reset_cursors`
unfoldable pub reset_cursors : FatDescriptor → FatDescriptor
reset_cursors d = record d {
  pos = 0;
  relative_pos = 0;
  current_cluster_first_sector = d.item.first_sector;
  eof = false;
}

-- What a read leaves: the descriptor, the bytes put into the buffer, and the number of bytes or an
-- error.
abbrev pub Reading : Type 0
Reading = FatDescriptor × (List ℕ × Result ℕ)

-- The bytes up to the end of the cluster, an unsigned difference.
unfoldable pub rest_of_cluster : FatPrivateData → FatDescriptor → ℕ
rest_of_cluster fat d = (fat.bytes_per_cluster + 2 ^ 32 - d.relative_pos) % 2 ^ 32

-- The loop of `__fat16_read`.
unfoldable pub read_chunks : FatPrivateData → ℕ → FatDescriptor → (read len : ℕ) → Outcome Reading
read_chunks fat zero d read len = out_of_fuel
read_chunks fat (suc fuel) d read len = elim (ltb read len && not d.eof) [
  | false ↦ done (d, ([], ok read))
  | true ↦
      let to_read_sequentially = smaller (len - read) (rest_of_cluster fat d) in
      let chunk = read_count to_read_sequentially in
      stream_read fat (absolute_address fat d) to_read_sequentially >>= (λ r. elim r [
        | err e ↦ done (record d { error = e }, ([], err e))
        | ok bytes ↦ elim (chunk == 0) [
          | true ↦ done (record d { error = 0 }, ([], ok 0))
          | false ↦ adjust_cursors fat d chunk >>= (λ a. elim a.1 [
            | err e ↦ done (a.0, (bytes, err e))
            | ok _ ↦
                read_chunks fat fuel a.0 (read + chunk) len
                >>= (λ rest. done (rest.0, (bytes ++ rest.1.0, rest.1.1)))
          ])
        ]
      ])
]

-- `__fat16_read`: every round but the last one reads a byte at least.
unfoldable pub descriptor_read : FatPrivateData → FatDescriptor → ℕ → Outcome Reading
descriptor_read fat d len = read_chunks fat (suc len) d 0 len

-- The end mark after a read that reaches the size of the file.
unfoldable pub mark_end : FatDescriptor → FatDescriptor
mark_end d = elim (ltb d.pos d.item.entry.size_bytes) [ true ↦ d | false ↦ record d { eof = true } ]

-- What `fat16_read` and `fat16_read_file` do before they read: nothing is left to read when the end
-- is reached.
unfoldable pub fat16_read : FatPrivateData → FatDescriptor → (size nmemb : ℕ) → Outcome Reading
fat16_read fat d size nmemb = adjust_cursors fat d 0 >>= (λ a. elim a.1 [
  | err e ↦ done (a.0, ([], err e))
  | ok _ ↦
      let d = a.0 in
      elim d.eof [
        | true ↦ done (d, ([], ok 0))
        | false ↦ elim (ltb d.pos d.item.entry.size_bytes) [
          | false ↦ done (record d { eof = true }, ([], ok 0))
          | true ↦
              descriptor_read fat d
                (smaller (size * nmemb % 2 ^ 32) (d.item.entry.size_bytes - d.pos))
              >>= (λ r. done (mark_end r.0, r.1))
        ]
      ]
])

-- `fat16_read_file` returns before it marks the end, unless nothing was read.
unfoldable pub fat16_read_file : FatPrivateData → FatDescriptor → ℕ → Outcome Reading
fat16_read_file fat d len = adjust_cursors fat d 0 >>= (λ a. elim a.1 [
  | err e ↦ done (a.0, ([], err e))
  | ok _ ↦
      let d = a.0 in
      elim d.eof [
        | true ↦ done (d, ([], ok 0))
        | false ↦ elim (ltb d.pos d.item.entry.size_bytes) [
          | false ↦ done (record d { eof = true }, ([], ok 0))
          | true ↦ descriptor_read fat d (smaller len (d.item.entry.size_bytes - d.pos)) >>= (λ r.
              elim r.1.1 [
                | err e ↦ done r
                | ok n ↦ elim (n == 0) [ false ↦ done r | true ↦ done (mark_end r.0, r.1) ]
              ])
        ]
      ]
])

-- SEEK_SET, SEEK_CUR, SEEK_END
abbrev pub seek_set : ℕ
seek_set = 0

abbrev pub seek_cur : ℕ
seek_cur = 1

abbrev pub seek_end : ℕ
seek_end = 2

-- `__fat16_seek_set`
unfoldable pub seek_to : FatDescriptor → ℕ → FatDescriptor
seek_to d pos = record d { pos = pos % 2 ^ 32; eof = false }

-- `fat16_seek`: the descriptor and the result; a negative offset is given modulo 2 ^ 32.
unfoldable pub fat16_seek : FatDescriptor → ℕ → ℕ → FatDescriptor × ℕ
fat16_seek d offset whence =
    if whence == seek_set
    then (seek_to d offset, 0)
    else if whence == seek_cur
    then (seek_to d (d.pos + offset), 0)
    else if whence == seek_end
    then (seek_to d d.item.entry.size_bytes, 0)
    else (d, 1)

-- `fat16_stat`: the device and the size.
unfoldable pub fat16_stat : FatDescriptor → ℕ × ℕ
fat16_stat d = (0, d.item.entry.size_bytes)

-- `__fat16_open` on a block of memory.
unfoldable pub descriptor_open : FatPrivateData → FatItem → FatDescriptor
descriptor_open fat item =
    let kind =
      if fat16_item_is_root_dir fat item
      then root_directory_flag
      else if bit_and item.entry.attributes subdirectory == 0
      then file_flag
      else directory_flag in
    record {
      item = record item { kind = kind };
      eof = false;
      pos = 0;
      relative_pos = 0;
      current_cluster_first_sector = item.first_sector;
      error = 0;
    }
