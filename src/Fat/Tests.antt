-- ===== src/Fat/Tests.antt =====
-- Examples for the FAT16 file system: a file and a directory of two clusters.
use avocad_os.Base.{
  ℕ, ◌*◌, ◌%◌, ◌-◌, ◌/◌, ◌≡◌, ◌≤◌, ◌<◌, leb, ◌&&◌, some, refl, false, [], ◌∷◌, ltb, ◌==◌, arith,
  if◌then◌else◌, replicate, ok,
}
use avocad_os.Disk.Stream.{slice, Serves}
use avocad_os.Fat.{FatPrivateData, fat16_cluster_number_to_data_sector}
use avocad_os.Fat.Chain.{Linked}
use avocad_os.Fat.Descriptor.{FatItem, FatDescriptor, fat16_item_is_root_dir, fat16_read}
use avocad_os.Fat.Volume.{Volume}
use avocad_os.Fat.Bytes.{file_bytes}
use avocad_os.Fat.Cursor.{Regular}
use avocad_os.Fat.Read.{Delivers, fat16_read-Delivers}
use avocad_os.Fat.Entries.{IsName, Finds, item_of, lookup, entries}
use avocad_os.Fat.Directory.{fat16_find_entry_in_dir, text_before, padded}
use avocad_os.Fat.Probe.{fat16_probe, HasLayout, fat16_probe-HasLayout}
use avocad_os.Fat.Search.{fat16_find_entry_in_dir-Finds}

-- Byte `i` of the entries "AAAAAAAA.B" at the start of cluster 5: a volume label and a file in cluster 9.
abbrev entry_byte : ℕ → ℕ → ℕ
entry_byte k i =
    if ltb i 8
    then 65
    else if i == 8
    then 66
    else if ltb i 11
    then 32
    else if i == 11
    then (if k == 0 then 8 else 32)
    else if i == 26
    then 9
    else 0

-- The allocation table lies in sector 1; cluster 5 leads to cluster 9, which is the last one.
abbrev image : ℕ → ℕ
image p =
    if p == 522
    then 9
    else if p == 523
    then 0
    else if p == 530
    then 255
    else if p == 531
    then 255
    else if leb 3584 p && ltb p 3648
    then entry_byte ((p - 3584) / 32) ((p - 3584) % 32)
    else p % 251

abbrev volume : FatPrivateData
volume = record {
  reserved_sectors = 1;
  bytes_per_sector = 512;
  sectors_per_cluster = 1;
  bytes_per_cluster = 512;
  data_sector = 4;
  root_sector = 3;
  dev = λ sector. ok (slice image (sector * 512) 512);
}

volume-Serves : Serves volume.dev image
volume-Serves sector = refl

volume-Volume : Volume volume image
volume-Volume = record {
  serves = volume-Serves;
  some_sector = omega arith;
  some_byte = omega arith;
  word_size = omega arith;
  table_fits = omega arith;
  sectors_fit = λ c h. ground arith;
  bytes_fit = λ c h. ground arith;
}

five-Linked : Linked volume image 5 (9 ∷ [])
five-Linked = (refl, refl, (refl, omega arith))

-- A file of 700 bytes and a directory in these clusters.
abbrev item : ℕ → FatItem
item kind = record {
  kind = kind;
  entry = record {
    filename = replicate 8 65;
    extension = replicate 3 66;
    attributes = 0;
    first_cluster = 5;
    size_bytes = 700;
  };
  first_sector = 7;
  parent_dir_first_sector = 3;
  parent_dir_position = 1;
}

abbrev opened : ℕ → FatDescriptor
opened kind = record {
  item = item kind;
  eof = false;
  pos = 100;
  relative_pos = 100;
  current_cluster_first_sector = 7;
  error = 0;
}

item-Regular : (kind : ℕ) → kind ≤ 1 → Regular volume (item kind) 5
unfolding fat16_item_is_root_dir fat16_cluster_number_to_data_sector
item-Regular kind e = record { not_root = ground arith; some_cluster = refl; at_cluster = refl }

-- The read goes over the border of the clusters and is cut at the end of the file.
fat16_read-Delivers_example :
    Delivers
      (file_bytes volume image (5 ∷ 9 ∷ []))
      (opened 1)
      600
      (fat16_read volume (opened 1) 1 650)
fat16_read-Delivers_example =
    fat16_read-Delivers volume image 5 (9 ∷ []) (opened 1) 1 650 volume-Volume five-Linked
      (item-Regular 1 (omega arith)) refl (omega arith) (omega arith) (omega arith)

eight_three-IsName : IsName (replicate 8 65) (66 ∷ 32 ∷ 32 ∷ [])
eight_three-IsName = record {
  filename_length = refl;
  extension_length = refl;
  filename_bytes = (
    omega arith,
    (
      omega arith,
      (omega arith, (omega arith, (omega arith, (omega arith, (omega arith, (omega arith, tt)))))),
    ),
  );
  extension_bytes = (omega arith, (omega arith, (omega arith, tt)));
}

image_bytes : (a : ℕ) → image a < 256
image_bytes a = ground arith

-- The volume label is passed over.
second_found :
    lookup (replicate 8 65) (66 ∷ 32 ∷ 32 ∷ []) (entries 2 (slice image 3584 64)) 0
    ≡ some (slice image 3616 32, 2)
second_found = refl

fat16_find_entry_in_dir-Finds_example :
    Finds
      (item 0)
      (item_of volume (item 0) (
        lookup
          (replicate 8 65)
          (66 ∷ 32 ∷ 32 ∷ [])
          (entries 32 (file_bytes volume image (5 ∷ 9 ∷ [])))
          0))
      (fat16_find_entry_in_dir volume 1 40 (opened 0) (replicate 8 65) (66 ∷ []))
unfolding text_before padded
fat16_find_entry_in_dir-Finds_example =
    fat16_find_entry_in_dir-Finds volume image 5 (9 ∷ []) (opened 0) 0 40 32 (replicate 8 65)
      (66 ∷ []) (replicate 8 65) (66 ∷ 32 ∷ 32 ∷ []) volume-Volume five-Linked
      (item-Regular 0 (omega arith)) refl refl refl eight_three-IsName image_bytes (omega arith)
      (omega arith) (omega arith)

-- A volume with one reserved sector, one table of one sector and 20 entries in the root directory.
abbrev boot : ℕ → ℕ
boot p =
    if p == 12
    then 2
    else if p == 13
    then 1
    else if p == 14
    then 1
    else if p == 16
    then 1
    else if p == 17
    then 20
    else if p == 22
    then 1
    else if p == 38
    then 0x29
    else if p == 54
    then 70
    else if p == 55
    then 65
    else if p == 56
    then 84
    else if p == 57
    then 49
    else if p == 58
    then 54
    else if ltb 58 p
    then 32
    else 0

fat16_probe-HasLayout_example :
    HasLayout boot
      (λ sector. ok (slice boot (sector * 512) 512))
      (fat16_probe (λ sector. ok (slice boot (sector * 512) 512)) 3 0)
fat16_probe-HasLayout_example =
    fat16_probe-HasLayout (λ sector. ok (slice boot (sector * 512) 512)) boot 0 (λ sector. refl)
      refl refl (omega arith)
