-- ===== src/Disk/Stream.antt =====
-- Reading a stream gives the bytes of the disk image at its position.
use avocad_os.Base.{
  ℕ, zero, suc, ◌+◌, ◌-◌, ◌*◌, ◌/◌, ◌%◌, ◌^◌, ◌≤◌, ◌<◌, ◌≡◌, ◌∙◌, refl, ap, ap₂, inl, inr, List, [],
  ◌∷◌, ◌++◌, ltb, take, drop, arith, Result, ok, done, Bool-cases,
}
use avocad_os.Disk.{
  DiskStream, disk_sector_size, disk_read_block, smaller, read_loop, read_count, diskstream_read,
}

-- `n` bytes of an image from position `p` on.
abbrev pub slice : (ℕ → ℕ) → ℕ → ℕ → List ℕ
slice image p zero = []
slice image p (suc n) = image p ∷ slice image (p + 1) n

-- Every sector is read without an error, as the image has it.
abbrev pub Serves : (ℕ → Result (List ℕ)) → (ℕ → ℕ) → Type 0
Serves read_sector image =
    (sector : ℕ)
    → read_sector sector ≡ ok (slice image (sector * disk_sector_size) disk_sector_size)

pub drop-slice :
    (image : ℕ → ℕ) (k p n q : ℕ) → q ≡ p + k → drop k (slice image p (k + n)) ≡ slice image q n
drop-slice image zero p n q e = ap₂ (slice image) (omega arith) (omega arith)
drop-slice image (suc k) p n q e =
    let s : suc k + n ≡ suc (k + n) = omega arith in
    ap (λ m. drop (suc k) (slice image p m)) s ∙ drop-slice image k (p + 1) n q (omega arith)

pub take-slice : (image : ℕ → ℕ) (k p n : ℕ) → k ≤ n → take k (slice image p n) ≡ slice image p k
take-slice image zero p n le = refl
take-slice image (suc k) p zero le = absurd (omega arith)
take-slice image (suc k) p (suc n) le =
    ap (◌∷◌ (image p)) (take-slice image k (p + 1) n (omega arith))

slice-append :
    (image : ℕ → ℕ) (k p n q m : ℕ)
    → q ≡ p + k
    → m ≡ k + n
    → slice image p k ++ slice image q n ≡ slice image p m
slice-append image zero p n q m e h = ap₂ (slice image) (omega arith) (omega arith)
slice-append image (suc k) p n q zero e h = absurd (omega arith)
slice-append image (suc k) p n q (suc m) e h =
    ap (◌∷◌ (image p)) (slice-append image k (p + 1) n q m (omega arith) (omega arith))

-- What one round copies.
chunk :
    (image : ℕ → ℕ) (sector offset k p : ℕ)
    → p ≡ sector * disk_sector_size + offset
    → offset < disk_sector_size
    → k ≤ disk_sector_size - offset
    → take k (drop offset (slice image (sector * disk_sector_size) disk_sector_size))
      ≡ slice image p k
chunk image sector offset k p e lt le =
    let s : disk_sector_size ≡ offset + (disk_sector_size - offset) = omega arith in
    ap (λ n. take k (drop offset (slice image (sector * disk_sector_size) n))) s
    ∙ ap (take k)
        (drop-slice image offset (sector * disk_sector_size) (disk_sector_size - offset) p e)
    ∙ take-slice image k p (disk_sector_size - offset) le

loop-step :
    (read_sector : ℕ → Result (List ℕ)) (fuel sector offset remaining k : ℕ) (buffer bytes : List ℕ)
    → read_sector sector ≡ ok buffer
    → smaller (suc remaining) (disk_sector_size - offset) ≡ k
    → read_loop read_sector 0 fuel (sector + 1) 0 (suc remaining - k) ≡ done (ok bytes)
    → read_loop read_sector 0 (suc fuel) sector offset (suc remaining)
      ≡ done (ok (take k (drop offset buffer) ++ bytes))
unfolding read_loop disk_read_block
loop-step read_sector fuel sector offset remaining k buffer bytes e s h =
    rw (e, s, h) (ap (λ n. done (ok (take n (drop offset buffer) ++ bytes))) s)

pub small-chunk : (a b : ℕ) → a < b → smaller a b ≡ a
small-chunk a b lt = ground arith

pub large-chunk : (a b : ℕ) → b ≤ a → smaller a b ≡ b
large-chunk a b le = ground arith

read_loop-slice :
    (read_sector : ℕ → Result (List ℕ)) (image : ℕ → ℕ) (fuel sector offset remaining p : ℕ)
    → Serves read_sector image
    → p ≡ sector * disk_sector_size + offset
    → offset < disk_sector_size
    → offset + remaining ≤ fuel * disk_sector_size
    → read_loop read_sector 0 fuel sector offset remaining ≡ done (ok (slice image p remaining))
unfolding read_loop
read_loop-slice read_sector image fuel sector offset zero p serves e lt le = refl
read_loop-slice read_sector image zero sector offset (suc remaining) p serves e lt le =
    absurd (omega arith)
read_loop-slice read_sector image (suc fuel) sector offset (suc remaining) p serves e lt le =
    elim (Bool-cases (ltb (suc remaining) (disk_sector_size - offset))) [
      | inl c ↦
          let k = suc remaining in
          let s = small-chunk k (disk_sector_size - offset) (ground arith) in
          let z : k - k ≡ 0 = omega arith in
          loop-step read_sector fuel sector offset remaining k
            (slice image (sector * disk_sector_size) disk_sector_size) (slice image (p + k) 0)
            (serves sector) s (ap (read_loop read_sector 0 fuel (sector + 1) 0) z)
          ∙ ap (λ b. done (ok (b ++ slice image (p + k) 0)))
              (chunk image sector offset k p e lt (ground arith))
          ∙ ap (λ b. done (ok b)) (slice-append image k p 0 (p + k) k refl (omega arith))
      | inr c ↦
          let k = disk_sector_size - offset in
          let lo : k ≤ suc remaining = ground arith in
          let rest = suc remaining - k in
          loop-step read_sector fuel sector offset remaining k
            (slice image (sector * disk_sector_size) disk_sector_size) (slice image (p + k) rest)
            (serves sector) (large-chunk (suc remaining) k lo)
            (read_loop-slice read_sector image fuel (sector + 1) 0 rest (p + k) serves (omega arith)
              (omega arith) (omega arith))
          ∙ ap (λ b. done (ok (b ++ slice image (p + k) rest)))
              (chunk image sector offset k p e lt (omega arith))
          ∙ ap (λ b. done (ok b))
              (slice-append image k p rest (p + k) (suc remaining) refl (omega arith))
    ]

read-done :
    (read_sector : ℕ → Result (List ℕ)) (fuel : ℕ) (stream : DiskStream) (len : ℕ) (bytes : List ℕ)
    → read_loop read_sector stream.disk fuel
        (stream.ppos / disk_sector_size)
        (stream.ppos % disk_sector_size)
        (read_count len)
      ≡ done (ok bytes)
    → diskstream_read read_sector fuel stream len
      ≡ done (record stream { ppos = (stream.ppos + read_count len) % 2 ^ 32 }, ok bytes)
unfolding diskstream_read
read-done read_sector fuel stream len bytes e = rw (diskstream_read, e)

pub read_count-same : (len : ℕ) → len < 2 ^ 31 → read_count len ≡ len
unfolding read_count
read_count-same len lt = ground arith

-- On disk 0, with every sector read as the disk image has it, `diskstream_read` of `len` bytes,
-- fewer than 2 ^ 31, returns the bytes of the image from the position on, across the borders of
-- sectors, and moves the position behind them, modulo 2 ^ 32; one round per sector is enough.
pub diskstream_read-slice :
    (read_sector : ℕ → Result (List ℕ)) (image : ℕ → ℕ) (fuel ppos len : ℕ)
    → Serves read_sector image
    → len < 2 ^ 31
    → ppos % disk_sector_size + len ≤ fuel * disk_sector_size
    → diskstream_read read_sector fuel (record { disk = 0; ppos = ppos }) len
      ≡ done (record { disk = 0; ppos = (ppos + len) % 2 ^ 32 }, ok (slice image ppos len))
diskstream_read-slice read_sector image fuel ppos len serves lt le =
    let c = read_count-same len lt in
    read-done read_sector fuel (record { disk = 0; ppos = ppos }) len (slice image ppos len)
      (ap (read_loop read_sector 0 fuel (ppos / disk_sector_size) (ppos % disk_sector_size)) c
        ∙ read_loop-slice read_sector image fuel (ppos / disk_sector_size) (ppos % disk_sector_size)
            len ppos serves (omega arith) (omega arith) le)
    ∙ ap (λ n. done (record { disk = 0; ppos = (ppos + n) % 2 ^ 32 }, ok (slice image ppos len))) c
