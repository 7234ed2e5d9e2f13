-- ===== src/Fat/Volume.antt =====
-- A volume whose numbers fit in 32 bits: where a cluster lies, and what a read of the stream gives.
use native.Mathlib.Nat.{mul-add-div_right, zero-div, div-eq_of_lt, mod-add-div'}
use avocad_os.Base.{
  ℕ, suc, ◌+◌, ◌-◌, ◌*◌, ◌/◌, ◌%◌, ◌^◌, ◌≤◌, ◌<◌, ◌≡◌, ◌∙◌, ap, Bool, true, false, ◌&&◌, ltb, leb,
  arith, ok, done, ◌>>=◌,
}
use avocad_os.Disk.Stream.{slice, Serves, diskstream_read-slice}
use avocad_os.Fat.{
  FatPrivateData, chain_end, cluster_reserved, stream_read, fat_entry_address, fat16_read_fat,
  fat16_cluster_number_to_data_sector, fat16_sector_to_cluster_number,
}

-- A cluster that holds data.
abbrev pub is_data : ℕ → Bool
is_data cluster = leb 2 cluster && ltb cluster cluster_reserved

-- The entry of a cluster in the allocation table of the image: the table starts behind the reserved
-- sectors, and an entry has two bytes, the lower one first.
abbrev pub table_entry : FatPrivateData → (ℕ → ℕ) → ℕ → ℕ
table_entry fat image c =
    let p = fat.reserved_sectors * fat.bytes_per_sector + 2 * c in image p + 256 * image (p + 1)

-- The first byte of a cluster with data.
abbrev pub cluster_start : FatPrivateData → ℕ → ℕ
cluster_start fat c = (fat.data_sector + (c - 2) * fat.sectors_per_cluster) * fat.bytes_per_sector

-- The disk shows the image, a cluster has a sector and a byte at least, and the allocation table and
-- every cluster with data lie below 2 ^ 32.
pub record Volume (fat : FatPrivateData) (image : ℕ → ℕ) : Type 0 where
  pub serves : Serves fat.dev image
  pub some_sector : 0 < fat.sectors_per_cluster
  pub some_byte : 0 < fat.bytes_per_cluster
  pub word_size : fat.bytes_per_cluster < 2 ^ 31
  pub table_fits : fat.reserved_sectors * fat.bytes_per_sector + 2 ^ 17 ≤ 2 ^ 32
  pub sectors_fit :
      (c : ℕ) → is_data c ≡ true → fat.data_sector + (c - 2) * fat.sectors_per_cluster < 2 ^ 32
  pub bytes_fit : (c : ℕ) → is_data c ≡ true → cluster_start fat c + fat.bytes_per_cluster ≤ 2 ^ 32

pub stream_read-slice :
    (fat : FatPrivateData) (image : ℕ → ℕ) (address len : ℕ)
    → Serves fat.dev image
    → len < 2 ^ 31
    → stream_read fat address len ≡ done (ok (slice image address len))
unfolding stream_read
stream_read-slice fat image address len s lt =
    let e = diskstream_read-slice fat.dev image (suc len) address len s lt (omega arith) in
    ap (λ o. o >>= (λ r. done (r.1))) e

-- The code reads the entry of a cluster with data.
pub fat16_read_fat-image :
    (fat : FatPrivateData) (image : ℕ → ℕ) (c : ℕ)
    → Volume fat image
    → is_data c ≡ true
    → fat16_read_fat fat c ≡ done (table_entry fat image c)
unfolding fat16_read_fat fat_entry_address
fat16_read_fat-image fat image c v d =
    let h : leb chain_end c ≡ false = ground arith in
    let fits = v.table_fits in
    let a : fat_entry_address fat c ≡ fat.reserved_sectors * fat.bytes_per_sector + 2 * c =
      ground arith in
    let word : image (fat_entry_address fat c) + image (fat_entry_address fat c + 1) * 256
        ≡ table_entry fat image c =
      ap (λ p. image p + image (p + 1) * 256) a ∙ omega arith in
    rw
      (
        fat16_read_fat,
        h,
        stream_read-slice fat image (fat_entry_address fat c) 2 v.serves (omega arith),
      )
      (ap done word)

sector-data :
    (fat : FatPrivateData) (c : ℕ)
    → is_data c ≡ true
    → fat.data_sector + (c - 2) * fat.sectors_per_cluster < 2 ^ 32
    → fat16_cluster_number_to_data_sector fat c
      ≡ fat.data_sector + (c - 2) * fat.sectors_per_cluster
unfolding fat16_cluster_number_to_data_sector
sector-data fat c h lt = let n : ltb c 2 ≡ false = ground arith in rw n (omega arith)

-- The sector of a cluster with data leads back to the cluster.
pub fat16_sector_to_cluster_number-sector :
    (fat : FatPrivateData) (image : ℕ → ℕ) (c : ℕ)
    → Volume fat image
    → is_data c ≡ true
    → fat16_sector_to_cluster_number fat (fat16_cluster_number_to_data_sector fat c) ≡ c
unfolding fat16_sector_to_cluster_number
fat16_sector_to_cluster_number-sector fat image c v h =
    let k = (c - 2) * fat.sectors_per_cluster in
    let d : k / fat.sectors_per_cluster ≡ c - 2 =
      ap (λ n. n / fat.sectors_per_cluster) (omega arith)
      ∙ mul-add-div_right v.some_sector (c - 2) 0
      ∙ ap (λ n. c - 2 + n) (zero-div fat.sectors_per_cluster)
      ∙ omega arith in
    let lo : 2 ≤ c = ground arith in
    let hi : c < 65526 = ground arith in
    let fit = v.sectors_fit c h in
    let s : (fat.data_sector + k + 2 ^ 32 - fat.data_sector) % 2 ^ 32 ≡ k = omega arith in
    ap (λ n. (2 + (n + 2 ^ 32 - fat.data_sector) % 2 ^ 32 / fat.sectors_per_cluster) % 2 ^ 16)
      (sector-data fat c h (v.sectors_fit c h))
    ∙ ap (λ n. (2 + n / fat.sectors_per_cluster) % 2 ^ 16) s
    ∙ ap (λ n. (2 + n) % 2 ^ 16) d
    ∙ omega arith

-- The address of a byte of a cluster.
pub cluster_address :
    (fat : FatPrivateData) (image : ℕ → ℕ) (c r : ℕ)
    → Volume fat image
    → is_data c ≡ true
    → r < fat.bytes_per_cluster
    → (fat16_cluster_number_to_data_sector fat c * fat.bytes_per_sector % 2 ^ 32 + r) % 2 ^ 32
      ≡ cluster_start fat c + r
cluster_address fat image c r v h lt =
    let fit = v.bytes_fit c h in
    ap (λ n. (n * fat.bytes_per_sector % 2 ^ 32 + r) % 2 ^ 32)
      (sector-data fat c h (v.sectors_fit c h))
    ∙ omega arith

-- A position is split into a cluster and the place in it.
pub div-position : (b q r : ℕ) → r < b → (q * b + r) / b ≡ q
div-position b q r lt =
    mul-add-div_right (omega arith) q r ∙ ap (λ n. q + n) (div-eq_of_lt lt) ∙ omega arith

pub mod-position : (b q r : ℕ) → r < b → (q * b + r) % b ≡ r
mod-position b q r lt =
    let d = div-position b q r lt in
    let m = mod-add-div' (q * b + r) b in
    let e : (q * b + r) / b * b ≡ q * b = ap (λ n. n * b) d in omega arith
