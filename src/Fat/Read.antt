-- ===== src/Fat/Read.antt =====
-- Reading a file gives the bytes of its clusters, in the order of their chain.
use avocad_os.Base.{
  ℕ, suc, ◌+◌, ◌-◌, ◌*◌, ◌%◌, ◌^◌, ◌≤◌, ◌<◌, ◌≡◌, ◌∙◌, refl, ap, ap₂, sym, subst, inl, inr, true,
  false, List, [], ◌∷◌, ltb, arith, length, take, drop, Bool-cases, Result, ok, Outcome, done,
}
use avocad_os.Disk.{smaller}
use avocad_os.Disk.Stream.{large-chunk}
use avocad_os.Fat.{FatPrivateData}
use avocad_os.Fat.Chain.{Linked}
use avocad_os.Fat.Descriptor.{
  FatDescriptor, adjust_cursors, read_chunks, Reading, descriptor_read, mark_end, fat16_read,
}
use avocad_os.Fat.Volume.{Volume}
use avocad_os.Fat.Bytes.{file_bytes}
use avocad_os.Fat.Cursor.{Regular, adjust-Cursor}
use avocad_os.Fat.Rounds.{Cursor-Placed, read_chunks-Reads}

mark_end-same : (d : FatDescriptor) → ((mark_end d).pos ≡ d.pos) × ((mark_end d).item ≡ d.item)
unfolding mark_end
mark_end-same d = elim (Bool-cases (ltb d.pos d.item.entry.size_bytes)) [
  | inl h ↦ (rw (mark_end, h) refl, rw (mark_end, h) refl)
  | inr h ↦ (rw (mark_end, h) refl, rw (mark_end, h) refl)
]

fat16_read-more :
    (fat : FatPrivateData) (d e f : FatDescriptor) (size nmemb : ℕ) (rest : List ℕ × Result ℕ)
    → adjust_cursors fat d 0 ≡ done (e, ok 0)
    → e.eof ≡ false
    → ltb e.pos e.item.entry.size_bytes ≡ true
    → descriptor_read fat e (smaller (size * nmemb % 2 ^ 32) (e.item.entry.size_bytes - e.pos))
      ≡ done (f, rest)
    → fat16_read fat d size nmemb ≡ done (mark_end f, rest)
unfolding fat16_read
fat16_read-more fat d e f size nmemb rest adjust more lt next =
    rw (fat16_read, adjust, more, lt, next) refl

fat16_read-over :
    (fat : FatPrivateData) (d e : FatDescriptor) (size nmemb : ℕ)
    → adjust_cursors fat d 0 ≡ done (e, ok 0)
    → ltb e.pos e.item.entry.size_bytes ≡ false
    → fat16_read fat d size nmemb ≡ done (record e { eof = true }, ([], ok 0))
unfolding fat16_read
fat16_read-over fat d e size nmemb adjust lt = elim (Bool-cases e.eof) [
  | inl h ↦ rw (fat16_read, adjust, h) (ap (λ b. done (record e { eof = b }, ([], ok 0))) h)
  | inr h ↦ rw (fat16_read, adjust, h, lt) refl
]

pub descriptor_read-run :
    (fat : FatPrivateData) (d : FatDescriptor) (n : ℕ)
    → descriptor_read fat d n ≡ read_chunks fat (suc n) d 0 n
unfolding descriptor_read
descriptor_read-run fat d n = refl

smaller-right : (a b : ℕ) → smaller a b ≤ b
smaller-right a b = ground arith

-- What a read of `n` bytes at the position of `d` leaves.
abbrev pub Delivers : List ℕ → FatDescriptor → ℕ → Outcome Reading → Type 0
Delivers file d n outcome =
    (e : FatDescriptor) × (outcome ≡ done (e, (take n (drop d.pos file), ok n)))
    × (e.pos ≡ d.pos + n)
    × (e.item ≡ d.item)

-- On a volume whose disk shows the image, for the descriptor of a file whose chain is a list of clusters
-- with data, ending at any end mark, with the position within the file, the end mark unset and the size at most the bytes of
-- the clusters, which are fewer than 2 ^ 32: `fat16_read` ends, delivers the bytes of the clusters
-- from the position on, as many as were asked for (modulo 2 ^ 32) and are left up to the size of the
-- file, returns their number, moves the position behind them and keeps the file.
pub fat16_read-Delivers :
    (fat : FatPrivateData) (image : ℕ → ℕ) (c : ℕ) (ds : List ℕ) (d : FatDescriptor)
    (size nmemb : ℕ)
    → Volume fat image
    → Linked fat image c ds
    → Regular fat d.item c
    → d.eof ≡ false
    → d.pos ≤ d.item.entry.size_bytes
    → d.item.entry.size_bytes ≤ length (c ∷ ds) * fat.bytes_per_cluster
    → length (c ∷ ds) * fat.bytes_per_cluster < 2 ^ 32
    → Delivers
        (file_bytes fat image (c ∷ ds))
        d
        (smaller (size * nmemb % 2 ^ 32) (d.item.entry.size_bytes - d.pos))
        (fat16_read fat d size nmemb)
fat16_read-Delivers fat image c ds d size nmemb v l g more le inside fits =
    let a = adjust-Cursor fat image c ds d 0 v l g more (omega arith) fits in
    let e = a.0 in
    let pos : e.pos ≡ d.pos = let h = a.2 in omega arith in
    let same : e.item.entry.size_bytes ≡ d.item.entry.size_bytes =
      ap (λ i. i.entry.size_bytes) a.3 in
    let n = smaller (size * nmemb % 2 ^ 32) (d.item.entry.size_bytes - d.pos) in
    elim (Bool-cases (ltb e.pos e.item.entry.size_bytes)) [
      | inr h ↦
          let z : d.item.entry.size_bytes - d.pos ≡ 0 = ground arith in
          let none : n ≡ 0 =
            ap (smaller (size * nmemb % 2 ^ 32)) z
            ∙ large-chunk (size * nmemb % 2 ^ 32) 0 (omega arith) in
          (
            record e { eof = true },
            fat16_read-over fat d e size nmemb a.1 h
                ∙ ap
                    (λ n. done (
                      record e { eof = true },
                      (take n (drop d.pos (file_bytes fat image (c ∷ ds))), ok n),
                    ))
                    (sym none),
            omega arith,
            a.3,
          )
      | inl h ↦
          let placed = Cursor-Placed fat (c ∷ ds) e a.4 (ground arith) in
          let n_le : n ≤ d.item.entry.size_bytes - d.pos =
            smaller-right (size * nmemb % 2 ^ 32) (d.item.entry.size_bytes - d.pos) in
          let run =
            read_chunks-Reads fat image c ds (suc n) e 0 n n v l
              (subst (λ item. Regular fat item c) (sym a.3) g) a.4 (omega arith) (omega arith)
              (omega arith) fits in
          let kept = mark_end-same run.0 in
          let asked : smaller (size * nmemb % 2 ^ 32) (e.item.entry.size_bytes - e.pos) ≡ n =
            ap₂ (λ s p. smaller (size * nmemb % 2 ^ 32) (s - p)) same pos in
          let end = run.2 in
          (
            mark_end run.0,
            fat16_read-more fat d e run.0 size nmemb
                  (take n (drop e.pos (file_bytes fat image (c ∷ ds))), ok n) a.1 placed.2.more h
                  (ap (descriptor_read fat e) asked ∙ descriptor_read-run fat e n ∙ run.1)
                ∙ ap
                    (λ p.
                      done
                        (mark_end run.0, (take n (drop p (file_bytes fat image (c ∷ ds))), ok n)))
                    pos,
            kept.0 ∙ (omega arith),
            kept.1 ∙ run.3 ∙ a.3,
          )
    ]
