-- ===== src/Fat/Search.antt =====
-- Searching a directory finds the first entry with the name.
use avocad_os.Base.{
  ℕ, zero, suc, ◌+◌, ◌*◌, ◌/◌, ◌^◌, ◌≤◌, ◌<◌, ◌≡◌, ◌∙◌, refl, ap, sym, subst, inl, inr, true, List,
  [], ◌∷◌, ◌==◌, ◌||◌, arith, replicate, length, take, drop, length-append, length-take, done,
}
use avocad_os.Fat.{FatPrivateData}
use avocad_os.Fat.Chain.{Linked}
use avocad_os.Fat.Descriptor.{
  FatItem, FatDescriptor, directory_flag, root_directory_flag, reset_cursors, descriptor_read,
}
use avocad_os.Disk.Stream.{slice}
use avocad_os.Fat.Volume.{Volume, cluster_start, div-position}
use avocad_os.Fat.Bytes.{file_bytes, drop-drop, length-slice}
use avocad_os.Fat.Cursor.{Regular, Cursor}
use avocad_os.Fat.Rounds.{Reads, Cursor-Placed, read_chunks-Reads}
use avocad_os.Fat.Read.{descriptor_read-run}
use avocad_os.Fat.Directory.{entry_size, find_loop, fat16_find_entry_in_dir, text_before, padded}
use avocad_os.Fat.Names.{Bytes-take, Bytes-drop, Bytes-file_bytes}
use avocad_os.Fat.Entries.{
  entries, lookup, item_of, Finds, IsName, length-drop, find-over, find-next, visit_entry-Finds,
}

length-file_bytes :
    (fat : FatPrivateData) (image : ℕ → ℕ) (cs : List ℕ)
    → length (file_bytes fat image cs) ≡ length cs * fat.bytes_per_cluster
length-file_bytes fat image [] = omega arith
length-file_bytes fat image (c ∷ cs) =
    let l = length-slice image (cluster_start fat c) fat.bytes_per_cluster in
    let h = length-file_bytes fat image cs in
    let row : suc (length cs) * fat.bytes_per_cluster
        ≡ fat.bytes_per_cluster + length cs * fat.bytes_per_cluster =
      omega arith in
    length-append (slice image (cluster_start fat c) fat.bytes_per_cluster)
      (file_bytes fat image cs)
    ∙ omega arith

-- A cursor at the end of the chain has the end mark, and one before it has not.
Cursor-end :
    (fat : FatPrivateData) (cs : List ℕ) (d : FatDescriptor)
    → 0 < fat.bytes_per_cluster
    → Cursor fat cs d
    → d.pos ≡ length cs * fat.bytes_per_cluster
    → d.eof ≡ true
Cursor-end fat cs d some_byte at e = elim at [
  | inr h ↦ h.1
  | inl p ↦
      let b = fat.bytes_per_cluster in
      let x : p.0 ≡ length cs =
        sym (div-position b p.0 p.1 p.2.in_cluster)
        ∙ ap (λ n. n / b) (sym p.2.position ∙ e ∙ omega arith)
        ∙ div-position b (length cs) 0 some_byte in
      let lt = p.2.in_chain in absurd (omega arith)
]

-- One entry is read, and the cursor stands behind it.
entry-Reads :
    (fat : FatPrivateData) (image : ℕ → ℕ) (c : ℕ) (ds : List ℕ) (d : FatDescriptor)
    → Volume fat image
    → Linked fat image c ds
    → Regular fat d.item c
    → Cursor fat (c ∷ ds) d
    → d.pos + entry_size ≤ length (c ∷ ds) * fat.bytes_per_cluster
    → length (c ∷ ds) * fat.bytes_per_cluster < 2 ^ 32
    → Reads fat image (c ∷ ds) d entry_size entry_size (descriptor_read fat d entry_size)
entry-Reads fat image c ds d v l g at le fits =
    let run =
      read_chunks-Reads fat image c ds (suc entry_size) d 0 entry_size entry_size v l g at
        (omega arith) (omega arith) le fits in
    (run.0, descriptor_read-run fat d entry_size ∙ run.1, run.2, run.3, run.4)

find_loop-Finds :
    (fat : FatPrivateData) (image : ℕ → ℕ) (c : ℕ) (ds : List ℕ) (dir : FatItem)
    (budget fuel n i : ℕ) (filename extension : List ℕ) (d : FatDescriptor) (buffer : List ℕ)
    → Volume fat image
    → Linked fat image c ds
    → Regular fat dir c
    → d.item ≡ dir
    → Cursor fat (c ∷ ds) d
    → d.pos + n * entry_size ≡ length (c ∷ ds) * fat.bytes_per_cluster
    → length (c ∷ ds) * fat.bytes_per_cluster < 2 ^ 32
    → length buffer ≡ entry_size
    → i + n < 2 ^ 32
    → IsName filename extension
    → ((a : ℕ) → image a < 256)
    → n < fuel
    → Finds dir
        (item_of fat dir
          (lookup filename extension (entries n (drop d.pos (file_bytes fat image (c ∷ ds)))) i))
        (find_loop fat (suc budget) fuel filename extension d buffer i)
unfolding reset_cursors
find_loop-Finds fat image c ds dir budget zero n i filename extension d buffer v l g same at end
      fits lb lt name small le =
    absurd (omega arith)
find_loop-Finds fat image c ds dir budget (suc fuel) zero i filename extension d buffer v l g same
      at end fits lb lt name small le =
    (
      reset_cursors d,
      find-over fat (suc budget) fuel filename extension d buffer i
          (Cursor-end fat (c ∷ ds) d v.some_byte at (omega arith)),
      same,
      refl,
    )
find_loop-Finds fat image c ds dir budget (suc fuel) (suc n) i filename extension d buffer v l g
      same at end fits lb lt name small le =
    let file = file_bytes fat image (c ∷ ds) in
    let lf = length-file_bytes fat image (c ∷ ds) in
    let ld = length-drop d.pos file in
    let placed = Cursor-Placed fat (c ∷ ds) d at (omega arith) in
    let r =
      entry-Reads fat image c ds d v l (subst (λ item. Regular fat item c) (sym same) g) at
        (omega arith) fits in
    let e = r.0 in
    let pos = r.2 in
    let bytes = take entry_size (drop d.pos file) in
    let bytes_length = length-take entry_size (drop d.pos file) (omega arith) in
    let rest =
      find_loop-Finds fat image c ds dir budget fuel n (i + 1) filename extension e bytes v l g
        (r.3 ∙ same) r.4 (omega arith) fits bytes_length (omega arith) name small (omega arith) in
    let behind : drop e.pos file ≡ drop entry_size (drop d.pos file) =
      sym (drop-drop d.pos entry_size e.pos file pos) in
    let found =
      visit_entry-Finds fat budget filename extension dir e bytes
        (entries n (drop entry_size (drop d.pos file))) i
        (find_loop fat (suc budget) fuel filename extension e bytes (i + 1)) name bytes_length
        (Bytes-take entry_size (drop d.pos file)
          (Bytes-drop d.pos file (Bytes-file_bytes fat image (c ∷ ds) small)))
        (r.3 ∙ same)
        (subst
          (λ bs.
            Finds dir (item_of fat dir (lookup filename extension (entries n bs) (i + 1)))
              (find_loop fat (suc budget) fuel filename extension e bytes (i + 1)))
          behind rest) in
    (
      found.0,
      find-next fat budget fuel filename extension d e buffer bytes i entry_size placed.2.more r.1
            bytes_length lb (omega arith)
          ∙ found.1,
      found.2,
      found.3,
    )

reset-Cursor :
    (fat : FatPrivateData) (c : ℕ) (ds : List ℕ) (d : FatDescriptor)
    → 0 < fat.bytes_per_cluster
    → Regular fat d.item c
    → Cursor fat (c ∷ ds) (reset_cursors d)
unfolding reset_cursors
reset-Cursor fat c ds d some_byte g = inl (
  0,
  0,
  record {
    position = omega arith;
    in_cluster = some_byte;
    in_chain = omega arith;
    offset = refl;
    sector = g.at_cluster;
    more = refl;
  },
)

-- On a volume whose disk shows the image of bytes, for the descriptor of a directory whose chain is a
-- list of clusters with data, ending at any end mark, that hold `n` entries, for a name and an extension
-- that padding with spaces makes eight and three bytes, memory for an item and more fuel than entries:
-- `fat16_find_entry_in_dir` ends with the cursor at the start and gives the item of the first entry
-- whose eleven bytes are those of the name and that no ending entry comes before, passing over long
-- names and volume labels, with its fields, its kind, its first sector, the sector of the directory and
-- its number; without such an entry it gives NULL.
pub fat16_find_entry_in_dir-Finds :
    (fat : FatPrivateData) (image : ℕ → ℕ) (c : ℕ) (ds : List ℕ) (d : FatDescriptor)
    (budget fuel n : ℕ) (filename extension name suffix : List ℕ)
    → Volume fat image
    → Linked fat image c ds
    → Regular fat d.item c
    → d.item.kind ≡ directory_flag
    → padded 8 (text_before 8 filename) ≡ done name
    → padded 3 (text_before 3 extension) ≡ done suffix
    → IsName name suffix
    → ((a : ℕ) → image a < 256)
    → n * entry_size ≡ length (c ∷ ds) * fat.bytes_per_cluster
    → n * entry_size < 2 ^ 32
    → n < fuel
    → Finds d.item
        (item_of fat d.item (lookup name suffix (entries n (file_bytes fat image (c ∷ ds))) 0))
        (fat16_find_entry_in_dir fat (suc budget) fuel d filename extension)
unfolding fat16_find_entry_in_dir reset_cursors
fat16_find_entry_in_dir-Finds fat image c ds d budget fuel n filename extension name suffix v l g
      kind pf pe named small total fits enough =
    let b : (d.item.kind == directory_flag || d.item.kind == root_directory_flag) ≡ true =
      ground arith in
    let found =
      find_loop-Finds fat image c ds d.item budget fuel n 0 name suffix (reset_cursors d)
        (replicate entry_size 0) v l g refl (reset-Cursor fat c ds d v.some_byte g) (omega arith)
        (omega arith) refl (omega arith) named small enough in
    (found.0, rw (fat16_find_entry_in_dir, b, pf, pe) found.1, found.2, found.3)
