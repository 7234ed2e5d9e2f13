-- ===== src/Disk/Tests.antt =====
-- Reading across the border of two sectors.
use avocad_os.Base.{ℕ, ◌*◌, ◌%◌, ◌≡◌, refl, List, [], ◌∷◌, arith, Result, ok, err, done, enomedium}
use avocad_os.Disk.{disk_sector_size, disk_get, diskstream_new, diskstream_read}
use avocad_os.Disk.Stream.{slice, Serves, diskstream_read-slice}

-- A byte of this disk is the last byte of its address.
abbrev image : ℕ → ℕ
image a = a % 256

abbrev read_sector : ℕ → Result (List ℕ)
read_sector sector = ok (slice image (sector * disk_sector_size) disk_sector_size)

image-Serves : Serves read_sector image
image-Serves sector = refl

diskstream_read-slice_example :
    diskstream_read read_sector 2 (record { disk = 0; ppos = 510 }) 4
    ≡ done (record { disk = 0; ppos = 514 }, ok (254 ∷ 255 ∷ 0 ∷ 1 ∷ []))
diskstream_read-slice_example =
    diskstream_read-slice read_sector image 2 510 4 image-Serves (omega arith) (omega arith)

no_second_disk : diskstream_new 1 ≡ err enomedium
unfolding diskstream_new disk_get
no_second_disk = refl
