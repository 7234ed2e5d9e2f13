-- ===== src/Fat/Rounds.antt =====
-- The loop of `__fat16_read`: its rounds deliver the bytes of the clusters.
use avocad_os.Base.{
  ℕ, zero, suc, ◌+◌, ◌-◌, ◌*◌, ◌%◌, ◌^◌, ◌≤◌, ◌<◌, ◌≡◌, ◌∙◌, refl, ap, ap₂, sym, subst, inl, inr,
  true, false, not, ◌&&◌, List, [], ◌∷◌, ◌++◌, ltb, ◌==◌, arith, get_or, length, take, drop, ok,
  Outcome, done,
}
use avocad_os.Disk.{smaller, read_count}
use avocad_os.Disk.Stream.{read_count-same}
use avocad_os.Fat.{FatPrivateData, chain_end, stream_read}
use avocad_os.Fat.Chain.{Linked}
use avocad_os.Fat.Descriptor.{
  FatDescriptor, adjust_cursors, absolute_address, rest_of_cluster, read_chunks, Reading,
}
use avocad_os.Fat.Volume.{Volume, cluster_start, stream_read-slice, cluster_address}
use avocad_os.Fat.Bytes.{file_bytes, take-split, drop-drop, cluster_bytes}
use avocad_os.Fat.Cursor.{Regular, Placed, Cursor, get_or-data, adjust-Cursor}

-- The bytes that a round asks for.
abbrev asked : FatPrivateData → FatDescriptor → (read len : ℕ) → ℕ
asked fat d read len = smaller (len - read) (rest_of_cluster fat d)

read-step :
    (fat : FatPrivateData) (fuel : ℕ) (d e f : FatDescriptor) (read len : ℕ) (bytes rest : List ℕ)
    → (ltb read len && not d.eof) ≡ true
    → stream_read fat (absolute_address fat d) (asked fat d read len) ≡ done (ok bytes)
    → (read_count (asked fat d read len) == 0) ≡ false
    → adjust_cursors fat d (read_count (asked fat d read len)) ≡ done (e, ok 0)
    → read_chunks fat fuel e (read + read_count (asked fat d read len)) len
      ≡ done (f, (rest, ok len))
    → read_chunks fat (suc fuel) d read len ≡ done (f, (bytes ++ rest, ok len))
unfolding read_chunks
read-step fat fuel d e f read len bytes rest more stream some adjust next =
    rw (read_chunks, more, stream) (ground arith)

read-over :
    (fat : FatPrivateData) (fuel : ℕ) (d : FatDescriptor) (len : ℕ)
    → read_chunks fat (suc fuel) d len len ≡ done (d, ([], ok len))
unfolding read_chunks
read-over fat fuel d len =
    let b : (ltb len len && not d.eof) ≡ false = ground arith in rw (read_chunks, b) refl

-- The bytes of the round that starts at place `r` of cluster `q`.
stream_read-place :
    (fat : FatPrivateData) (image : ℕ → ℕ) (c : ℕ) (ds : List ℕ) (d : FatDescriptor) (q r k : ℕ)
    → Volume fat image
    → Linked fat image c ds
    → Placed fat (c ∷ ds) d q r
    → r + k ≤ fat.bytes_per_cluster
    → stream_read fat (absolute_address fat d) k
      ≡ done (ok (take k (drop d.pos (file_bytes fat image (c ∷ ds)))))
unfolding absolute_address
stream_read-place fat image c ds d q r k v l p le =
    let cs = c ∷ ds in
    let x = get_or cs q chain_end in
    let address =
      ap₂ (λ s o. (s * fat.bytes_per_sector % 2 ^ 32 + o) % 2 ^ 32) p.sector p.offset
      ∙ cluster_address fat image x r v (get_or-data fat image c ds q l p.in_chain) p.in_cluster in
    let w = v.word_size in
    ap (λ a. stream_read fat a k) address
    ∙ stream_read-slice fat image (cluster_start fat x + r) k v.serves (omega arith)
    ∙ ap (λ bs. done (ok bs)) (sym (cluster_bytes fat image cs q r k p.in_chain le))
    ∙ ap (λ n. done (ok (take k (drop n (file_bytes fat image cs))))) (sym p.position)

rest_of_cluster-place :
    (fat : FatPrivateData) (image : ℕ → ℕ) (cs : List ℕ) (d : FatDescriptor) (q r : ℕ)
    → Volume fat image
    → Placed fat cs d q r
    → rest_of_cluster fat d ≡ fat.bytes_per_cluster - r
unfolding rest_of_cluster
rest_of_cluster-place fat image cs d q r v p =
    let w = v.word_size in let lt = p.in_cluster in let o = p.offset in omega arith

-- What a run of the loop that has `m` bytes to read leaves.
abbrev pub Reads :
    FatPrivateData → (ℕ → ℕ) → List ℕ → FatDescriptor → (m : ℕ) → (n : ℕ) → Outcome Reading → Type 0
Reads fat image cs d m n outcome =
    (e : FatDescriptor) × (outcome
      ≡ done (e, (take m (drop d.pos (file_bytes fat image cs)), ok n)))
    × (e.pos ≡ d.pos + m)
    × (e.item ≡ d.item)
    × Cursor fat cs e

pub Cursor-Placed :
    (fat : FatPrivateData) (cs : List ℕ) (d : FatDescriptor)
    → Cursor fat cs d
    → d.pos < length cs * fat.bytes_per_cluster
    → (q : ℕ) × (r : ℕ) × Placed fat cs d q r
Cursor-Placed fat cs d c lt = elim c [ inl p ↦ p | inr e ↦ (let h = e.0 in absurd (omega arith)) ]

smaller-bounds :
    (a b : ℕ) → 0 < a → 0 < b → (0 < smaller a b) × (smaller a b ≤ a) × (smaller a b ≤ b)
smaller-bounds a b la lb = (ground arith, ground arith, ground arith)

-- One round, and what remains after it.
read_chunks-round :
    (fat : FatPrivateData) (image : ℕ → ℕ) (c : ℕ) (ds : List ℕ) (fuel : ℕ) (d e : FatDescriptor)
    (q r read m len k : ℕ)
    → Volume fat image
    → Linked fat image c ds
    → Placed fat (c ∷ ds) d q r
    → len ≡ read + m
    → 0 < m
    → smaller m (fat.bytes_per_cluster - r) ≡ k
    → adjust_cursors fat d k ≡ done (e, ok 0)
    → e.pos ≡ d.pos + k
    → Reads fat image (c ∷ ds) e (m - k) len (read_chunks fat fuel e (read + k) len)
    → (f : FatDescriptor) × (read_chunks fat (suc fuel) d read len
        ≡ done (f, (take m (drop d.pos (file_bytes fat image (c ∷ ds))), ok len)))
      × (f.pos ≡ e.pos + (m - k))
      × (f.item ≡ e.item)
      × Cursor fat (c ∷ ds) f
read_chunks-round fat image c ds fuel d e q r read m len k v l p total some chunk adjust pos rest =
    let file = file_bytes fat image (c ∷ ds) in
    let i = p.in_cluster in
    let bounds = smaller-bounds m (fat.bytes_per_cluster - r) some (omega arith) in
    let k_some : 0 < k = subst (λ k. 0 < k) chunk bounds.0 in
    let k_all : k ≤ m = subst (λ k. k ≤ m) chunk bounds.1 in
    let k_cluster : k ≤ fat.bytes_per_cluster - r =
      subst (λ k. k ≤ fat.bytes_per_cluster - r) chunk bounds.2 in
    let more = p.more in
    let same : smaller (len - read) (rest_of_cluster fat d) ≡ k =
      ap₂ smaller (omega arith) (rest_of_cluster-place fat image (c ∷ ds) d q r v p) ∙ chunk in
    let count : read_count (asked fat d read len) ≡ k =
      ap read_count same ∙ read_count-same k (let w = v.word_size in omega arith) in
    let all : take k (drop d.pos file) ++ take (m - k) (drop e.pos file)
        ≡ take m (drop d.pos file) =
      ap (λ bs. take k (drop d.pos file) ++ take (m - k) bs)
        (sym (drop-drop d.pos k e.pos file pos))
      ∙ sym (take-split k (m - k) m (drop d.pos file) (omega arith)) in
    (
      rest.0,
      read-step fat fuel d e rest.0 read len (take k (drop d.pos file))
            (take (m - k) (drop e.pos file)) (ground arith)
            (ap (stream_read fat (absolute_address fat d)) same
              ∙ stream_read-place fat image c ds d q r k v l p (omega arith))
            (ap (λ n. n == 0) count ∙ ground arith) (ap (adjust_cursors fat d) count ∙ adjust)
            (ap (λ n. read_chunks fat fuel e (read + n) len) count ∙ rest.1)
          ∙ ap (λ bs. done (rest.0, (bs, ok len))) all,
      rest.2,
      rest.3,
      rest.4,
    )

pub read_chunks-Reads :
    (fat : FatPrivateData) (image : ℕ → ℕ) (c : ℕ) (ds : List ℕ) (fuel : ℕ) (d : FatDescriptor)
    (read m len : ℕ)
    → Volume fat image
    → Linked fat image c ds
    → Regular fat d.item c
    → Cursor fat (c ∷ ds) d
    → len ≡ read + m
    → m < fuel
    → d.pos + m ≤ length (c ∷ ds) * fat.bytes_per_cluster
    → length (c ∷ ds) * fat.bytes_per_cluster < 2 ^ 32
    → Reads fat image (c ∷ ds) d m len (read_chunks fat fuel d read len)
read_chunks-Reads fat image c ds zero d read m len v l g at e lt le fits = absurd (omega arith)
read_chunks-Reads fat image c ds (suc fuel) d read zero len v l g at e lt le fits =
    let s : read ≡ len = omega arith in
    (
      d,
      ap (λ n. read_chunks fat (suc fuel) d n len) s ∙ read-over fat fuel d len,
      omega arith,
      refl,
      at,
    )
read_chunks-Reads fat image c ds (suc fuel) d read (suc m) len v l g at e lt le fits =
    let placed = Cursor-Placed fat (c ∷ ds) d at (omega arith) in
    let k = smaller (suc m) (fat.bytes_per_cluster - placed.1) in
    let i = placed.2.in_cluster in
    let bounds =
      smaller-bounds (suc m) (fat.bytes_per_cluster - placed.1) (omega arith) (omega arith) in
    let some : 0 < k = bounds.0 in
    let all : k ≤ suc m = bounds.1 in
    let a = adjust-Cursor fat image c ds d k v l g placed.2.more (omega arith) fits in
    let pos = a.2 in
    let rest =
      read_chunks-Reads fat image c ds fuel a.0 (read + k) (suc m - k) len v l
        (subst (λ item. Regular fat item c) (sym a.3) g) a.4 (omega arith) (omega arith)
        (omega arith) fits in
    let round =
      read_chunks-round fat image c ds fuel d a.0 placed.0 placed.1 read (suc m) len k v l placed.2
        e (omega arith) refl a.1 pos rest in
    let end = round.2 in (round.0, round.1, omega arith, round.3 ∙ a.3, round.4)
