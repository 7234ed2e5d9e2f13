-- ===== src/Fat.antt =====
-- src/fs/fat16.c: clusters, and their chains in the allocation table. The disk is that of Disk: its
-- sectors are read by port input, which is the field `dev`.
mod Tests
pub mod Chain
pub mod Descriptor
pub mod Volume
pub mod Bytes
pub mod Cursor
pub mod Rounds
pub mod Read
pub mod Directory
pub mod Names
pub mod Entries
pub mod Search
pub mod Probe
use avocad_os.Base.{
  ℕ, zero, suc, ◌+◌, ◌-◌, ◌*◌, ◌/◌, ◌%◌, ◌^◌, Bool, true, false, not, ◌&&◌, ◌||◌, List, ltb, leb,
  ◌==◌, if◌then◌else◌, get_or, Result, ok, err, einval, eio, enospc, Outcome, done, fault, ◌>>=◌,
}
use avocad_os.Disk.{diskstream_read}

-- FAT16_CLUSTER_RESERVED, FAT16_CLUSTER_BAD_OR_RESERVED, FAT16_CLUSTER_CHAIN_END_BEGIN
abbrev pub cluster_reserved : ℕ
cluster_reserved = 0xFFF6

abbrev pub cluster_bad : ℕ
cluster_bad = 0xFFF7

abbrev pub chain_end : ℕ
chain_end = 0xFFF8

-- The fields of `struct fat_private_data_t` and of its header that the code reads after the volume
-- was probed; `root_sector` is `root_directory.first_sector`.
pub record FatPrivateData : Type 0 where
  pub reserved_sectors : ℕ
  pub bytes_per_sector : ℕ
  pub sectors_per_cluster : ℕ
  pub bytes_per_cluster : ℕ
  pub data_sector : ℕ
  pub root_sector : ℕ
  pub dev : ℕ → Result (List ℕ)

-- `diskstream_seek` and `diskstream_read`: one round for each byte is more than enough.
unfoldable pub stream_read : FatPrivateData → ℕ → ℕ → Outcome (Result (List ℕ))
stream_read fat address len =
    diskstream_read fat.dev (suc len) (record { disk = 0; ppos = address }) len
    >>= (λ r. done (r.1))

unfoldable pub fat16_cluster_number_to_data_sector : FatPrivateData → ℕ → ℕ
fat16_cluster_number_to_data_sector fat cluster =
    if ltb cluster 2
    then 0
    else (fat.data_sector + (cluster - 2) * fat.sectors_per_cluster) % 2 ^ 32

unfoldable pub fat16_cluster_number_to_data_address : FatPrivateData → ℕ → ℕ
fat16_cluster_number_to_data_address fat cluster =
    fat16_cluster_number_to_data_sector fat cluster * fat.bytes_per_sector % 2 ^ 32

-- The difference of two sectors is unsigned.
unfoldable pub fat16_sector_to_cluster_number : FatPrivateData → ℕ → ℕ
fat16_sector_to_cluster_number fat sector =
    (2 + (sector + 2 ^ 32 - fat.data_sector) % 2 ^ 32 / fat.sectors_per_cluster) % 2 ^ 16

-- The address of the entry of a cluster in the allocation table.
unfoldable pub fat_entry_address : FatPrivateData → ℕ → ℕ
fat_entry_address fat cluster = (fat.reserved_sectors * fat.bytes_per_sector + cluster * 2) % 2 ^ 32

-- A failed read leaves the entry without a value, and it is used all the same.
unfoldable pub fat16_read_fat : FatPrivateData → ℕ → Outcome ℕ
fat16_read_fat fat cluster = elim (leb chain_end cluster) [
  | true ↦ done chain_end
  | false ↦ stream_read fat (fat_entry_address fat cluster) 2 >>= (λ r. elim r [
    | err e ↦ fault
    | ok bytes ↦ done (get_or bytes 0 0 + get_or bytes 1 0 * 256)
  ])
]

-- `fat16_write_fat` and `fat16_get_free_cluster` are placeholders of the source.
unfoldable pub fat16_write_fat : ℕ → ℕ → Result ℕ
fat16_write_fat cluster value = ok 0

unfoldable pub fat16_get_free_cluster : ℕ
fat16_get_free_cluster = chain_end

-- The test that ends `fat16_follow_cluster_chain` early.
unfoldable pub is_broken : ℕ → Bool
is_broken next_cluster =
    next_cluster == 0 || (next_cluster == cluster_reserved || next_cluster == cluster_bad)

unfoldable pub fat16_follow_cluster_chain : FatPrivateData → ℕ → ℕ → Outcome ℕ
fat16_follow_cluster_chain fat next_cluster zero = done next_cluster
fat16_follow_cluster_chain fat next_cluster (suc steps) = elim (ltb next_cluster chain_end) [
  | false ↦ done next_cluster
  | true ↦ fat16_read_fat fat next_cluster >>= (λ next_cluster. elim (is_broken next_cluster) [
    | true ↦ done next_cluster
    | false ↦ fat16_follow_cluster_chain fat next_cluster steps
  ])
]

-- `struct fat_cluster_chain`
pub record FatClusterChain : Type 0 where
  pub first : ℕ
  pub previous : ℕ
  pub current : ℕ

unfoldable pub fat16_cluster_chain_init : ℕ → FatClusterChain
fat16_cluster_chain_init begin = record { first = begin; previous = begin; current = begin }

unfoldable pub fat16_cluster_chain_next : FatPrivateData → FatClusterChain → Outcome FatClusterChain
fat16_cluster_chain_next fat chain =
    elim (chain.current == cluster_bad
      || (chain.current == cluster_reserved || leb chain_end chain.current)) [
        | true ↦ done chain
        | false ↦
            fat16_read_fat fat chain.current
            >>= (λ next. done (record chain { previous = chain.current; current = next }))
      ]

unfoldable pub fat16_cluster_chain_is_over : FatClusterChain → Bool
fat16_cluster_chain_is_over chain = chain.current == chain_end

unfoldable pub fat16_cluster_chain_ok : FatClusterChain → Bool
fat16_cluster_chain_ok chain =
    not (chain.current == cluster_bad) && not (chain.current == cluster_reserved)

-- `fat16_cluster_allocate_next`
unfoldable pub fat16_cluster_allocate_next : FatClusterChain → FatClusterChain × Result ℕ
fat16_cluster_allocate_next chain = elim (fat16_cluster_chain_is_over chain) [
  | false ↦ (chain, err einval)
  | true ↦ elim (leb chain_end fat16_get_free_cluster) [
    | true ↦ (chain, err enospc)
    | false ↦ elim (fat16_write_fat fat16_get_free_cluster chain_end) [
      | err e ↦ (chain, err eio)
      | ok _ ↦ elim (fat16_write_fat chain.previous fat16_get_free_cluster) [
        | err e ↦ (chain, err eio)
        | ok _ ↦ (record chain { current = fat16_get_free_cluster }, ok 0)
      ]
    ]
  ]
]
