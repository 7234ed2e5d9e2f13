-- ===== src/Fat/Chain.antt =====
-- Chains of clusters in the allocation table of a disk image.
use avocad_os.Base.{
  ℕ, zero, suc, ◌≤◌, ◌≡◌, ◌∙◌, refl, ap, true, false, List, [], ◌∷◌, ltb, get_or, arith, done,
}
use avocad_os.Fat.{FatPrivateData, chain_end, is_broken, fat16_read_fat, fat16_follow_cluster_chain}
use avocad_os.Fat.Volume.{Volume, is_data, table_entry, fat16_read_fat-image}

-- The entries of the allocation table in the image lead from `c`, a cluster with data, through the
-- clusters of the list, each of them with data; the entry of the last one is an end mark, from 0xFFF8
-- on.
abbrev pub Linked : FatPrivateData → (ℕ → ℕ) → ℕ → List ℕ → Type 0
Linked fat image c [] = (is_data c ≡ true) × (0xFFF8 ≤ table_entry fat image c)
Linked fat image c (d ∷ ds) =
    (is_data c ≡ true) × (table_entry fat image c ≡ d) × Linked fat image d ds

pub Linked-data :
    (fat : FatPrivateData) (image : ℕ → ℕ) (c : ℕ) (ds : List ℕ)
    → Linked fat image c ds
    → is_data c ≡ true
Linked-data fat image c [] l = l.0
Linked-data fat image c (d ∷ ds) l = l.0

-- The end mark of the chain.
abbrev pub end_mark : FatPrivateData → (ℕ → ℕ) → ℕ → List ℕ → ℕ
end_mark fat image c [] = table_entry fat image c
end_mark fat image c (d ∷ ds) = end_mark fat image d ds

pub end_mark-end :
    (fat : FatPrivateData) (image : ℕ → ℕ) (c : ℕ) (ds : List ℕ)
    → Linked fat image c ds
    → 0xFFF8 ≤ end_mark fat image c ds
end_mark-end fat image c [] l = l.1
end_mark-end fat image c (d ∷ ds) l = end_mark-end fat image d ds l.2

data_ok : (c : ℕ) → is_data c ≡ true → is_broken c ≡ false
unfolding is_broken
data_ok c h = ground arith

follow-step :
    (fat : FatPrivateData) (c d steps : ℕ)
    → is_data c ≡ true
    → fat16_read_fat fat c ≡ done d
    → is_broken d ≡ false
    → fat16_follow_cluster_chain fat c (suc steps) ≡ fat16_follow_cluster_chain fat d steps
unfolding fat16_follow_cluster_chain
follow-step fat c d steps h r b =
    let lt : ltb c chain_end ≡ true = ground arith in
    rw (fat16_follow_cluster_chain, lt, r) (ground arith)

end_ok : (e : ℕ) → 0xFFF8 ≤ e → is_broken e ≡ false
unfolding is_broken
end_ok e le = ground arith

follow-over :
    (fat : FatPrivateData) (e steps : ℕ)
    → 0xFFF8 ≤ e
    → fat16_follow_cluster_chain fat e steps ≡ done e
unfolding fat16_follow_cluster_chain
follow-over fat e zero le = refl
follow-over fat e (suc steps) le =
    let over : ltb e chain_end ≡ false = ground arith in rw (fat16_follow_cluster_chain, over) refl

-- On a chain of clusters with data, `fat16_follow_cluster_chain` reaches the cluster that stands as many
-- steps behind the first, and the end mark when the chain is shorter.
pub fat16_follow_cluster_chain-get_or :
    (fat : FatPrivateData) (image : ℕ → ℕ) (c : ℕ) (ds : List ℕ) (steps : ℕ)
    → Volume fat image
    → Linked fat image c ds
    → fat16_follow_cluster_chain fat c steps
      ≡ done (get_or (c ∷ ds) steps (end_mark fat image c ds))
unfolding fat16_follow_cluster_chain
fat16_follow_cluster_chain-get_or fat image c ds zero v l = refl
fat16_follow_cluster_chain-get_or fat image c [] (suc steps) v l =
    let e = table_entry fat image c in
    follow-step fat c e steps l.0 (fat16_read_fat-image fat image c v l.0) (end_ok e l.1)
    ∙ follow-over fat e steps l.1
fat16_follow_cluster_chain-get_or fat image c (d ∷ ds) (suc steps) v l =
    follow-step fat c d steps l.0 (fat16_read_fat-image fat image c v l.0 ∙ ap done l.1)
      (data_ok d (Linked-data fat image d ds l.2))
    ∙ fat16_follow_cluster_chain-get_or fat image d ds steps v l.2
