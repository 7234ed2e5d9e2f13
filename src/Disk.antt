-- ===== src/Disk.antt =====
-- src/disk/disk_stream.c over src/disk/disk.c. The disk is read by port input, which is a parameter:
-- `read_sector` gives the 512 bytes of a sector, or an error code.
mod Tests
pub mod Stream
use avocad_os.Base.{
  ℕ, zero, suc, ◌+◌, ◌-◌, ◌*◌, ◌/◌, ◌%◌, ◌^◌, Bool, true, false, List, [], ◌∷◌, ◌++◌, ltb, ◌==◌,
  if◌then◌else◌, take, drop, length, Result, ok, err, Outcome, done, out_of_fuel, ◌>>=◌, enomedium,
}

-- DISK_SECTOR_SIZE
abbrev pub disk_sector_size : ℕ
disk_sector_size = 512

-- `disk_get`: the only disk is number 0.
unfoldable pub disk_get : ℕ → Result ℕ
disk_get disk_index = if disk_index == 0 then ok 0 else err enomedium

-- `disk_read_block` of one sector, on the disk with this number.
unfoldable pub disk_read_block : (ℕ → Result (List ℕ)) → ℕ → ℕ → Result (List ℕ)
disk_read_block read_sector disk lba = if disk == 0 then read_sector lba else err enomedium

-- `struct disk_stream`
pub record DiskStream : Type 0 where
  pub disk : ℕ
  pub ppos : ℕ

unfoldable pub diskstream_new : ℕ → Result DiskStream
diskstream_new disk_id = elim (disk_get disk_id) [
  | err e ↦ err e
  | ok disk ↦ ok (record { disk = disk; ppos = 0 })
]

unfoldable pub diskstream_seek : DiskStream → ℕ → DiskStream
diskstream_seek stream ppos = record stream { ppos = ppos }

abbrev pub smaller : ℕ → ℕ → ℕ
smaller a b = if ltb a b then a else b

-- The loop of `diskstream_read`, with `remaining` bytes to read: the bytes that are put into the
-- buffer.
unfoldable pub read_loop :
    (ℕ → Result (List ℕ)) → ℕ → ℕ → (sector offset remaining : ℕ) → Outcome (Result (List ℕ))
read_loop read_sector disk fuel sector offset zero = done (ok [])
read_loop read_sector disk zero sector offset (suc remaining) = out_of_fuel
read_loop read_sector disk (suc fuel) sector offset (suc remaining) =
    elim (disk_read_block read_sector disk sector) [
      | err e ↦ done (err e)
      | ok sector_buffer ↦
          let to_copy = smaller (suc remaining) (disk_sector_size - offset) in
          read_loop read_sector disk fuel (sector + 1) 0 (suc remaining - to_copy) >>= (λ rest.
            elim rest [
              | err e ↦ done (err e)
              | ok bytes ↦ done (ok (take to_copy (drop offset sector_buffer) ++ bytes))
            ])
    ]

-- The bytes that a read of `len` bytes reads: `len` is an `int`, given modulo 2 ^ 32, and nothing is
-- read for a negative one.
unfoldable pub read_count : ℕ → ℕ
read_count len = if ltb len (2 ^ 31) then len else 0

-- `diskstream_read`: the stream and the bytes read. The position moves only when all were read.
unfoldable pub diskstream_read :
    (ℕ → Result (List ℕ)) → ℕ → DiskStream → ℕ → Outcome (DiskStream × Result (List ℕ))
diskstream_read read_sector fuel stream len =
    read_loop read_sector stream.disk fuel (stream.ppos / disk_sector_size)
      (stream.ppos % disk_sector_size) (read_count len)
    >>= (λ r. elim r [
      | err e ↦ done (stream, err e)
      | ok bytes ↦ done (record stream { ppos = (stream.ppos + read_count len) % 2 ^ 32 }, ok bytes)
    ])
