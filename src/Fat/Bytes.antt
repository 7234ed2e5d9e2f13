-- ===== src/Fat/Bytes.antt =====
-- The bytes of a file: those of its clusters, in the order of their chain.
use avocad_os.Base.{
  ℕ, zero, suc, ◌+◌, ◌-◌, ◌*◌, ◌≤◌, ◌<◌, ◌≡◌, ◌∙◌, refl, ap, List, [], ◌∷◌, ◌++◌, arith, get_or,
  length, take, drop,
}
use avocad_os.Disk.Stream.{slice, drop-slice, take-slice}
use avocad_os.Fat.{FatPrivateData, chain_end}
use avocad_os.Fat.Volume.{cluster_start}

-- The bytes of the clusters of a list.
abbrev pub file_bytes : FatPrivateData → (ℕ → ℕ) → List ℕ → List ℕ
file_bytes fat image [] = []
file_bytes fat image (c ∷ cs) =
    slice image (cluster_start fat c) fat.bytes_per_cluster ++ file_bytes fat image cs

pub length-slice : (image : ℕ → ℕ) (p n : ℕ) → length (slice image p n) ≡ n
length-slice image p zero = refl
length-slice image p (suc n) = ap suc (length-slice image (p + 1) n)

drop-before : (k : ℕ) (xs ys : List ℕ) → k ≤ length xs → drop k (xs ++ ys) ≡ drop k xs ++ ys
drop-before zero xs ys le = refl
drop-before (suc k) [] ys le = absurd (omega arith)
drop-before (suc k) (x ∷ xs) ys le = drop-before k xs ys (omega arith)

drop-behind : (k : ℕ) (xs ys : List ℕ) → drop (length xs + k) (xs ++ ys) ≡ drop k ys
drop-behind k [] ys = ap (λ n. drop n ys) (omega arith)
drop-behind k (x ∷ xs) ys =
    let e : suc (length xs) + k ≡ suc (length xs + k) = omega arith in
    ap (λ n. drop n (x ∷ xs ++ ys)) e ∙ drop-behind k xs ys

take-before : (k : ℕ) (xs ys : List ℕ) → k ≤ length xs → take k (xs ++ ys) ≡ take k xs
take-before zero xs ys le = refl
take-before (suc k) [] ys le = absurd (omega arith)
take-before (suc k) (x ∷ xs) ys le = ap (◌∷◌ x) (take-before k xs ys (omega arith))

length-drop-slice : (image : ℕ → ℕ) (p k n : ℕ) → length (drop k (slice image p (k + n))) ≡ n
length-drop-slice image p k n =
    ap length (drop-slice image k p n (p + k) refl) ∙ length-slice image (p + k) n

pub take-split : (k m n : ℕ) (xs : List ℕ) → n ≡ k + m → take n xs ≡ take k xs ++ take m (drop k xs)
take-split zero m n xs e = ap (λ j. take j xs) (omega arith)
take-split (suc k) m zero xs e = absurd (omega arith)
take-split (suc k) zero (suc n) [] e = refl
take-split (suc k) (suc m) (suc n) [] e = refl
take-split (suc k) m (suc n) (x ∷ xs) e = ap (◌∷◌ x) (take-split k m n xs (omega arith))

pub drop-drop : (p k n : ℕ) (xs : List ℕ) → n ≡ p + k → drop k (drop p xs) ≡ drop n xs
drop-drop zero k n xs e = ap (λ j. drop j xs) (omega arith)
drop-drop (suc p) k zero xs e = absurd (omega arith)
drop-drop (suc p) zero (suc n) [] e = refl
drop-drop (suc p) (suc k) (suc n) [] e = refl
drop-drop (suc p) k (suc n) (x ∷ xs) e = drop-drop p k n xs (omega arith)

next_row : (q b : ℕ) → suc q * b ≡ b + q * b
next_row q b = omega arith

-- The bytes from place `r` of cluster `q` on.
pub cluster_bytes :
    (fat : FatPrivateData) (image : ℕ → ℕ) (cs : List ℕ) (q r k : ℕ)
    → q < length cs
    → r + k ≤ fat.bytes_per_cluster
    → take k (drop (q * fat.bytes_per_cluster + r) (file_bytes fat image cs))
      ≡ slice image (cluster_start fat (get_or cs q chain_end) + r) k
cluster_bytes fat image [] q r k lt le = absurd (omega arith)
cluster_bytes fat image (c ∷ cs) zero r k lt le =
    let b = fat.bytes_per_cluster in
    let s = cluster_start fat c in
    let bs : b ≡ r + (b - r) = omega arith in
    let lr : length (drop r (slice image s (r + (b - r)))) ≡ b - r =
      length-drop-slice image s r (b - r) in
    ap (λ n. take k (drop n (slice image s b ++ file_bytes fat image cs))) (omega arith)
    ∙ ap (take k) (
        drop-before r (slice image s b) (file_bytes fat image cs)
          (let l = length-slice image s b in omega arith))
    ∙ ap (λ n. take k (drop r (slice image s n) ++ file_bytes fat image cs)) bs
    ∙ take-before k (drop r (slice image s (r + (b - r)))) (file_bytes fat image cs) (omega arith)
    ∙ ap (take k) (drop-slice image r s (b - r) (s + r) refl)
    ∙ take-slice image k (s + r) (b - r) (omega arith)
cluster_bytes fat image (c ∷ cs) (suc q) r k lt le =
    let b = fat.bytes_per_cluster in
    let s = cluster_start fat c in
    let l = length-slice image s b in
    let row = next_row q b in
    let e : suc q * b + r ≡ length (slice image s b) + (q * b + r) = omega arith in
    ap (λ n. take k (drop n (slice image s b ++ file_bytes fat image cs))) e
    ∙ ap (take k) (drop-behind (q * b + r) (slice image s b) (file_bytes fat image cs))
    ∙ cluster_bytes fat image cs q r k (omega arith) le
