-- ===== src/Fat/Probe.antt =====
-- src/fs/fat16.c: probing a disk for a volume.
use avocad_os.Base.{
  ℕ, zero, suc, ◌+◌, ◌-◌, ◌*◌, ◌/◌, ◌≤◌, ◌<◌, ◌≡◌, ◌∙◌, refl, ap, true, false, List, [], ◌∷◌, ◌==◌,
  arith, take, drop, get_or, is_zero, Result, ok, err, eio, enomem, emediumtype, Outcome, done,
  fault, ◌>>=◌,
}
use native.Mathlib.Nat.{div-add-mod', mod-lt}
use avocad_os.Disk.Stream.{slice, Serves, diskstream_read-slice}
use avocad_os.Str.Text.{strncmp, strncmp_loop, char_difference}
use avocad_os.Disk.{DiskStream, disk_get, diskstream_new, diskstream_read}
use avocad_os.Fat.{FatPrivateData}
use avocad_os.Fat.Directory.{entry_size, word_at}

-- The fields of `struct fat_header_t` that the code reads.
pub record FatHeader : Type 0 where
  pub bytes_per_sector : ℕ
  pub sectors_per_cluster : ℕ
  pub reserved_sectors : ℕ
  pub fat_copies : ℕ
  pub root_dir_entries : ℕ
  pub sectors_per_fat : ℕ
  pub signature : ℕ
  pub system_id_string : List ℕ

-- sizeof(struct fat_header_t)
abbrev pub header_size : ℕ
header_size = 62

unfoldable pub decode_header : List ℕ → FatHeader
decode_header bytes = record {
  bytes_per_sector = word_at bytes 11;
  sectors_per_cluster = get_or bytes 13 0;
  reserved_sectors = word_at bytes 14;
  fat_copies = get_or bytes 16 0;
  root_dir_entries = word_at bytes 17;
  sectors_per_fat = word_at bytes 22;
  signature = get_or bytes 38 0;
  system_id_string = take 8 (drop 54 bytes);
}

-- FAT16_SIGNATURE, and FAT16_SYSTEM_ID: "FAT16   "
abbrev pub fat16_signature : ℕ
fat16_signature = 0x29

abbrev pub fat16_system_id : List ℕ
fat16_system_id = 70 ∷ 65 ∷ 84 ∷ 49 ∷ 54 ∷ 32 ∷ 32 ∷ 32 ∷ []

-- `root_directory.first_sector`
unfoldable pub root_first_sector : FatHeader → ℕ
root_first_sector header = header.reserved_sectors + header.fat_copies * header.sectors_per_fat

-- The sectors of the root directory, rounded up.
unfoldable pub root_dir_sector_len : FatHeader → ℕ
root_dir_sector_len header =
    (header.root_dir_entries * entry_size + header.bytes_per_sector - 1) / header.bytes_per_sector

-- The private data for a header.
unfoldable pub fat_private : (ℕ → Result (List ℕ)) → FatHeader → FatPrivateData
fat_private dev header = record {
  reserved_sectors = header.reserved_sectors;
  bytes_per_sector = header.bytes_per_sector;
  sectors_per_cluster = header.sectors_per_cluster;
  bytes_per_cluster = header.bytes_per_sector * header.sectors_per_cluster;
  data_sector = root_first_sector header + root_dir_sector_len header;
  root_sector = root_first_sector header;
  dev = dev;
}

-- `diskstream_new` with a budget of calls of `kzalloc` that still return memory: without one, the disk is
-- written through NULL.
unfoldable pub stream_new : ℕ → ℕ → Outcome (Result DiskStream)
stream_new budget disk_id = elim (disk_get disk_id) [
  | err e ↦ done (err e)
  | ok disk ↦ elim budget [ zero ↦ fault | suc _ ↦ done (diskstream_new disk_id) ]
]

-- `fat16_probe` after the header was read, with what is left of the budget. A sector of no bytes is
-- divided by.
unfoldable pub probe_header :
    (ℕ → Result (List ℕ)) → ℕ → ℕ → FatHeader → Outcome (Result FatPrivateData)
probe_header dev budget disk_id header = elim (header.signature == fat16_signature) [
  | false ↦ done (err emediumtype)
  | true ↦ elim (is_zero (strncmp header.system_id_string fat16_system_id 8)) [
    | false ↦ done (err emediumtype)
    | true ↦ elim budget [
      | zero ↦ done (err enomem)
      | suc budget ↦ elim (header.bytes_per_sector == 0) [
        | true ↦ fault
        | false ↦ stream_new budget disk_id >>= (λ s. elim s [
          | err _ ↦ done (err enomem)
          | ok stream ↦ done (ok (fat_private dev header))
        ])
      ]
    ]
  ]
]

-- `fat16_probe`: the private data that becomes that of the disk, or an error. The stream takes the first
-- block of the budget.
unfoldable pub fat16_probe : (ℕ → Result (List ℕ)) → ℕ → ℕ → Outcome (Result FatPrivateData)
fat16_probe dev budget disk_id = stream_new budget disk_id >>= (λ s. elim s [
  | err _ ↦ done (err enomem)
  | ok stream ↦ diskstream_read dev (suc header_size) stream header_size >>= (λ r. elim r.1 [
    | err _ ↦ done (err eio)
    | ok bytes ↦ probe_header dev (budget - 1) disk_id (decode_header bytes)
  ])
])

-- A little-endian word of the image.
abbrev pub word : (ℕ → ℕ) → ℕ → ℕ
word image p = image p + image (p + 1) * 256

-- The volume that the first sector of a FAT16 image describes: bytes per sector at 11, sectors per
-- cluster at 13, reserved sectors at 14, copies of the table at 16, entries of the root directory at 17,
-- sectors per table at 22. The root directory takes the sectors from its first one up to the data
-- sector, with less than a sector to spare.
abbrev pub HasLayout : (ℕ → ℕ) → (ℕ → Result (List ℕ)) → Outcome (Result FatPrivateData) → Type 0
HasLayout image dev outcome =
    (fat : FatPrivateData) × (outcome ≡ done (ok fat))
    × (fat.dev ≡ dev)
    × (fat.bytes_per_sector ≡ word image 11)
    × (fat.sectors_per_cluster ≡ image 13)
    × (fat.bytes_per_cluster ≡ word image 11 * image 13)
    × (fat.reserved_sectors ≡ word image 14)
    × (fat.root_sector ≡ word image 14 + image 16 * word image 22)
    × (fat.root_sector * word image 11 + word image 17 * 32 ≤ fat.data_sector * word image 11)
    × (fat.data_sector * word image 11
        < fat.root_sector * word image 11 + word image 17 * 32 + word image 11)

-- A number rounded up to a multiple.
rounded : (n b : ℕ) → 0 < b → (n ≤ (n + b - 1) / b * b) × ((n + b - 1) / b * b < n + b)
rounded n b lt =
    let d = div-add-mod' (n + b - 1) b in
    let m = mod-lt (n + b - 1) lt in (omega arith, omega arith)

probe_header-ok :
    (dev : ℕ → Result (List ℕ)) (budget : ℕ) (header : FatHeader)
    → header.signature ≡ fat16_signature
    → header.system_id_string ≡ fat16_system_id
    → 0 < header.bytes_per_sector
    → probe_header dev (suc (suc budget)) 0 header ≡ done (ok (fat_private dev header))
unfolding probe_header strncmp stream_new diskstream_new disk_get strncmp_loop char_difference
    fat_private root_first_sector root_dir_sector_len
probe_header-ok dev budget header s n lt =
    let b : (header.signature == fat16_signature) ≡ true = ground arith in
    let z : (header.bytes_per_sector == 0) ≡ false = ground arith in rw (probe_header, b, n, z) refl

probe-header :
    (dev : ℕ → Result (List ℕ)) (image : ℕ → ℕ) (budget : ℕ)
    → Serves dev image
    → fat16_probe dev (suc budget) 0
      ≡ probe_header dev (suc budget - 1) 0 (decode_header (slice image 0 header_size))
unfolding fat16_probe stream_new diskstream_new disk_get
probe-header dev image budget s =
    rw
      (
        fat16_probe,
        diskstream_read-slice dev image (suc header_size) 0 header_size s (omega arith)
            (omega arith),
      )
      refl

-- When the disk shows an image with the signature 0x29 at byte 38, the text "FAT16   " at 54 and sectors
-- of some bytes, and three blocks of memory are left, `fat16_probe` of disk 0 succeeds: its numbers are
-- those at their places in the image, the root directory starts behind the reserved sectors and the
-- copies of the table, and the data sector is the first one behind the bytes of its entries.
pub fat16_probe-HasLayout :
    (dev : ℕ → Result (List ℕ)) (image : ℕ → ℕ) (budget : ℕ)
    → Serves dev image
    → image 38 ≡ 0x29
    → slice image 54 8 ≡ 70 ∷ 65 ∷ 84 ∷ 49 ∷ 54 ∷ 32 ∷ 32 ∷ 32 ∷ []
    → 0 < word image 11
    → HasLayout image dev (fat16_probe dev (suc (suc (suc budget))) 0)
unfolding fat_private root_first_sector root_dir_sector_len decode_header word_at
fat16_probe-HasLayout dev image budget s sig id lt =
    let header = decode_header (slice image 0 header_size) in
    let r = rounded (word image 17 * 32) (word image 11) lt in
    let lo = r.0 in
    let hi = r.1 in
    (
      fat_private dev header,
      probe-header dev image (suc (suc budget)) s
          ∙ ap (λ b. probe_header dev b 0 header) (omega arith)
          ∙ probe_header-ok dev budget header sig id lt,
      refl,
      refl,
      refl,
      refl,
      refl,
      refl,
      omega arith,
      omega arith,
    )
