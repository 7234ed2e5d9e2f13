-- ===== src/Fat/Names.antt =====
-- Names in directory entries: what the comparison of the code says about their bytes.
use avocad_os.Base.{
  ℕ, zero, suc, ◌+◌, ◌<◌, ◌≡◌, ◌≢◌, ◌∙◌, refl, ap, sym, inl, inr, Bool, true, false, ◌&&◌, List, [],
  ◌∷◌, ◌++◌, take, drop, length, arith, ◌==◌, Bool-cases, is_zero,
}
use avocad_os.Str.Text.{char_difference, strncmp, strncmp_loop}
use avocad_os.Str.Text.Compare.{char_zero, char_same, ncmp-differ, ncmp-last, ncmp-next}
use avocad_os.Disk.Stream.{slice}
use avocad_os.Fat.{FatPrivateData}
use avocad_os.Fat.Volume.{cluster_start}
use avocad_os.Fat.Bytes.{file_bytes}

-- Numbers below 256.
abbrev pub Bytes : List ℕ → Type 0
Bytes [] = Unit
Bytes (c ∷ cs) = (c < 256) × Bytes cs

-- The same bytes at every place.
abbrev pub same_bytes : List ℕ → List ℕ → Bool
same_bytes [] [] = true
same_bytes [] (b ∷ ys) = false
same_bytes (a ∷ xs) [] = false
same_bytes (a ∷ xs) (b ∷ ys) = a == b && same_bytes xs ys

pub Bytes-take : (n : ℕ) (xs : List ℕ) → Bytes xs → Bytes (take n xs)
Bytes-take zero xs b = tt
Bytes-take (suc n) [] b = tt
Bytes-take (suc n) (x ∷ xs) b = (b.0, Bytes-take n xs b.1)

pub Bytes-drop : (n : ℕ) (xs : List ℕ) → Bytes xs → Bytes (drop n xs)
Bytes-drop zero xs b = b
Bytes-drop (suc n) [] b = tt
Bytes-drop (suc n) (x ∷ xs) b = Bytes-drop n xs b.1

Bytes-append : (xs ys : List ℕ) → Bytes xs → Bytes ys → Bytes (xs ++ ys)
Bytes-append [] ys b c = c
Bytes-append (x ∷ xs) ys b c = (b.0, Bytes-append xs ys b.1 c)

Bytes-slice : (image : ℕ → ℕ) (p n : ℕ) → ((a : ℕ) → image a < 256) → Bytes (slice image p n)
Bytes-slice image p zero small = tt
Bytes-slice image p (suc n) small = (small p, Bytes-slice image (p + 1) n small)

pub Bytes-file_bytes :
    (fat : FatPrivateData) (image : ℕ → ℕ) (cs : List ℕ)
    → ((a : ℕ) → image a < 256)
    → Bytes (file_bytes fat image cs)
Bytes-file_bytes fat image [] small = tt
Bytes-file_bytes fat image (c ∷ cs) small =
    Bytes-append (slice image (cluster_start fat c) fat.bytes_per_cluster) (file_bytes fat image cs)
      (Bytes-slice image (cluster_start fat c) fat.bytes_per_cluster small)
      (Bytes-file_bytes fat image cs small)

not_true : (b : Bool) → (b ≡ true → ⊥) → b ≡ false
not_true true h = absurd (h refl)
not_true false h = refl

-- With `k + 1` bytes of both texts left to compare.
ncmp-same_bytes :
    (n i k : ℕ) (xs ys : List ℕ)
    → length xs ≡ suc k
    → length ys ≡ suc k
    → Bytes xs
    → Bytes ys
    → n ≡ i + suc k
    → is_zero (strncmp_loop n i xs ys) ≡ same_bytes xs ys
ncmp-same_bytes n i k [] ys lx ly bx by e = absurd (omega arith)
ncmp-same_bytes n i k (a ∷ xs) [] lx ly bx by e = absurd (omega arith)
ncmp-same_bytes n i zero (a ∷ a' ∷ xs) (b ∷ ys) lx ly bx by e = absurd (omega arith)
ncmp-same_bytes n i zero (a ∷ []) (b ∷ b' ∷ ys) lx ly bx by e = absurd (omega arith)
ncmp-same_bytes n i zero (a ∷ []) (b ∷ []) lx ly bx by e = elim (Bool-cases (a == b)) [
  | inl h ↦
      let ab : a ≡ b = ground arith in
      ap is_zero (ncmp-last n i a b [] [] ab (omega arith))
      ∙ ap (λ x. is_zero (char_difference a x)) (sym ab)
      ∙ char_same a
      ∙ ground arith
  | inr h ↦
      let ne : a ≢ b = ground arith in
      ap is_zero (ncmp-differ n i a b [] [] ne)
      ∙ not_true _ (λ z. ne (char_zero a b bx.0 by.0 z))
      ∙ ground arith
]
ncmp-same_bytes n i (suc k) (a ∷ xs) (b ∷ ys) lx ly bx by e = elim (Bool-cases (a == b)) [
  | inl h ↦
      let ab : a ≡ b = ground arith in
      ap is_zero (ncmp-next n i a b xs ys ab (omega arith))
      ∙ ncmp-same_bytes n (i + 1) k xs ys (omega arith) (omega arith) bx.1 by.1 (omega arith)
      ∙ ground arith
  | inr h ↦
      let ne : a ≢ b = ground arith in
      ap is_zero (ncmp-differ n i a b xs ys ne)
      ∙ not_true _ (λ z. ne (char_zero a b bx.0 by.0 z))
      ∙ ground arith
]

pub strncmp-same_bytes :
    (k : ℕ) (xs ys : List ℕ)
    → length xs ≡ suc k
    → length ys ≡ suc k
    → Bytes xs
    → Bytes ys
    → is_zero (strncmp xs ys (suc k)) ≡ same_bytes xs ys
unfolding strncmp
strncmp-same_bytes k xs ys lx ly bx by = ncmp-same_bytes (suc k) 0 k xs ys lx ly bx by (omega arith)
