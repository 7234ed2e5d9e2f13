-- ===== src/Fat/Cursor.antt =====
-- The cursor of a file: where `__fat16_adjust_cursors` puts it.
use native.Mathlib.Nat.{div-lt_iff_lt-mul, div-add-mod', mod-lt}
use avocad_os.Base.{
  ℕ, zero, suc, ◌+◌, ◌*◌, ◌/◌, ◌%◌, ◌^◌, ◌≤◌, ◌<◌, ◌≡◌, ◌∙◌, refl, ap, sym, ◌⊎◌, inl, inr, true,
  false, List, [], ◌∷◌, ltb, ◌==◌, ◌||◌, arith, get_or, length, Bool-cases, ok, done,
}
use avocad_os.Fat.{
  FatPrivateData, chain_end, cluster_bad, cluster_reserved, fat16_cluster_number_to_data_sector,
  fat16_sector_to_cluster_number,
}
use avocad_os.Fat.Chain.{
  Linked, Linked-data, end_mark, end_mark-end, fat16_follow_cluster_chain-get_or,
}
use avocad_os.Fat.Descriptor.{
  FatItem, FatDescriptor, fat16_item_is_root_dir, place_cursor, adjust_cursors_non_root,
  adjust_cursors,
}
use avocad_os.Fat.Volume.{Volume, is_data, fat16_sector_to_cluster_number-sector, div-position}

-- The item of a file whose chain starts at cluster `c`.
pub record Regular (fat : FatPrivateData) (item : FatItem) (c : ℕ) : Type 0 where
  pub not_root : fat16_item_is_root_dir fat item ≡ false
  pub some_cluster : (item.entry.first_cluster == 0) ≡ false
  pub at_cluster : item.first_sector ≡ fat16_cluster_number_to_data_sector fat c

-- The cursor stands at place `r` of cluster `q` of the list.
pub record Placed (fat : FatPrivateData) (cs : List ℕ) (d : FatDescriptor) (q r : ℕ) : Type 0 where
  pub position : d.pos ≡ q * fat.bytes_per_cluster + r
  pub in_cluster : r < fat.bytes_per_cluster
  pub in_chain : q < length cs
  pub offset : d.relative_pos ≡ r
  pub sector :
      d.current_cluster_first_sector
      ≡ fat16_cluster_number_to_data_sector fat (get_or cs q chain_end)
  pub more : d.eof ≡ false

-- The cursor stands within the chain, or behind its last cluster with the end mark set.
abbrev pub Cursor : FatPrivateData → List ℕ → FatDescriptor → Type 0
Cursor fat cs d =
    ((q : ℕ) × (r : ℕ) × Placed fat cs d q r)
    ⊎ ((d.pos ≡ length cs * fat.bytes_per_cluster) × (d.eof ≡ true))

pub get_or-data :
    (fat : FatPrivateData) (image : ℕ → ℕ) (c : ℕ) (ds : List ℕ) (q : ℕ)
    → Linked fat image c ds
    → q < length (c ∷ ds)
    → is_data (get_or (c ∷ ds) q chain_end) ≡ true
get_or-data fat image c ds zero l lt = Linked-data fat image c ds l
get_or-data fat image c [] (suc q) l lt = absurd (omega arith)
get_or-data fat image c (d ∷ ds) (suc q) l lt = get_or-data fat image d ds q l.2 (omega arith)

-- Within a list the default does not matter.
get_or-default : (cs : List ℕ) (q x y : ℕ) → q < length cs → get_or cs q x ≡ get_or cs q y
get_or-default [] q x y lt = absurd (omega arith)
get_or-default (c ∷ cs) zero x y lt = refl
get_or-default (c ∷ cs) (suc q) x y lt = get_or-default cs q x y (omega arith)

get_or-behind : (cs : List ℕ) (z : ℕ) → get_or cs (length cs) z ≡ z
get_or-behind [] z = refl
get_or-behind (c ∷ cs) z = get_or-behind cs z

-- The descriptor after `place_cursor` within the chain and behind it.
place-data :
    (fat : FatPrivateData) (d : FatDescriptor) (c : ℕ)
    → is_data c ≡ true
    → place_cursor fat d c ≡ (
      record d {
        relative_pos = d.pos % fat.bytes_per_cluster;
        current_cluster_first_sector = fat16_cluster_number_to_data_sector fat c;
      },
      ok 0,
    )
unfolding place_cursor
place-data fat d c h =
    let a : (c == cluster_reserved || c == cluster_bad) ≡ false = ground arith in
    let b : ltb c chain_end ≡ true = ground arith in rw (place_cursor, a, b) refl

place-end :
    (fat : FatPrivateData) (d : FatDescriptor) (e : ℕ)
    → 0xFFF8 ≤ e
    → place_cursor fat d e
      ≡ (record d { relative_pos = d.pos % fat.bytes_per_cluster; eof = true }, ok 0)
unfolding place_cursor
place-end fat d e le =
    let a : (e == cluster_reserved || e == cluster_bad) ≡ false = ground arith in
    let b : ltb e chain_end ≡ false = ground arith in rw (place_cursor, a, b) refl

adjust-non_root :
    (fat : FatPrivateData) (d : FatDescriptor) (k : ℕ)
    → fat16_item_is_root_dir fat d.item ≡ false
    → d.pos + k < 2 ^ 32
    → adjust_cursors fat d k ≡ adjust_cursors_non_root fat (record d { pos = d.pos + k })
unfolding adjust_cursors
adjust-non_root fat d k h lt =
    let p : (d.pos + k) % 2 ^ 32 ≡ d.pos + k = omega arith in
    rw (adjust_cursors, h) (ap (λ n. adjust_cursors_non_root fat (record d { pos = n })) p)

adjust_non_root-place :
    (fat : FatPrivateData) (image : ℕ → ℕ) (c : ℕ) (ds : List ℕ) (d : FatDescriptor)
    → Volume fat image
    → Linked fat image c ds
    → Regular fat d.item c
    → adjust_cursors_non_root fat d
      ≡ done (
          place_cursor fat d
            (get_or (c ∷ ds) (d.pos / fat.bytes_per_cluster) (end_mark fat image c ds)))
unfolding adjust_cursors_non_root
adjust_non_root-place fat image c ds d v l g =
    let n =
      ap (fat16_sector_to_cluster_number fat) g.at_cluster
      ∙ fat16_sector_to_cluster_number-sector fat image c v (Linked-data fat image c ds l) in
    let f = fat16_follow_cluster_chain-get_or fat image c ds (d.pos / fat.bytes_per_cluster) v l in
    rw (adjust_cursors_non_root, g.some_cluster, n, f) refl

adjust-place :
    (fat : FatPrivateData) (image : ℕ → ℕ) (c : ℕ) (ds : List ℕ) (d : FatDescriptor) (k : ℕ)
    → Volume fat image
    → Linked fat image c ds
    → Regular fat d.item c
    → d.pos + k < 2 ^ 32
    → adjust_cursors fat d k
      ≡ done (
          place_cursor fat
            (record d { pos = d.pos + k })
            (get_or (c ∷ ds) ((d.pos + k) / fat.bytes_per_cluster) (end_mark fat image c ds)))
adjust-place fat image c ds d k v l g lt =
    adjust-non_root fat d k g.not_root lt
    ∙ adjust_non_root-place fat image c ds (record d { pos = d.pos + k }) v l g

pub adjust-Cursor :
    (fat : FatPrivateData) (image : ℕ → ℕ) (c : ℕ) (ds : List ℕ) (d : FatDescriptor) (k : ℕ)
    → Volume fat image
    → Linked fat image c ds
    → Regular fat d.item c
    → d.eof ≡ false
    → d.pos + k ≤ length (c ∷ ds) * fat.bytes_per_cluster
    → length (c ∷ ds) * fat.bytes_per_cluster < 2 ^ 32
    → (e : FatDescriptor) × (adjust_cursors fat d k ≡ done (e, ok 0))
      × (e.pos ≡ d.pos + k)
      × (e.item ≡ d.item)
      × Cursor fat (c ∷ ds) e
adjust-Cursor fat image c ds d k v l g more le fits =
    let cs = c ∷ ds in
    let b = fat.bytes_per_cluster in
    let p = d.pos + k in
    let a = adjust-place fat image c ds d k v l g (omega arith) in
    elim (Bool-cases (ltb p (length cs * b))) [
      | inl h ↦
          let q = p / b in
          let r = p % b in
          let lt : q < length cs = (div-lt_iff_lt-mul v.some_byte).1 (ground arith) in
          let split : p ≡ q * b + r = sym (div-add-mod' p b) in
          let x = get_or cs q chain_end in
          (
            record d {
              pos = p;
              relative_pos = r;
              current_cluster_first_sector = fat16_cluster_number_to_data_sector fat x;
            },
            a
                ∙ ap (λ n. done (place_cursor fat (record d { pos = p }) n))
                    (get_or-default cs q (end_mark fat image c ds) chain_end lt)
                ∙ ap done
                    (place-data fat (record d { pos = p }) x (get_or-data fat image c ds q l lt)),
            refl,
            refl,
            inl (
              q,
              r,
              record {
                position = split;
                in_cluster = mod-lt p v.some_byte;
                in_chain = lt;
                offset = refl;
                sector = refl;
                more = more;
              },
            ),
          )
      | inr h ↦
          let e : p ≡ length cs * b = ground arith in
          let e0 : p ≡ length cs * b + 0 = omega arith in
          let q : p / b ≡ length cs =
            ap (λ n. n / b) e0 ∙ div-position b (length cs) 0 v.some_byte in
          let mark = end_mark fat image c ds in
          let z = ap (λ n. get_or cs n mark) q ∙ get_or-behind cs mark in
          (
            record d { pos = p; relative_pos = p % b; eof = true },
            a
                ∙ ap (λ n. done (place_cursor fat (record d { pos = p }) n)) z
                ∙ ap done
                    (place-end fat (record d { pos = p }) mark (end_mark-end fat image c ds l)),
            refl,
            refl,
            inr (e, refl),
          )
    ]
