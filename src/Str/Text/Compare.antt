-- ===== src/Str/Text/Compare.antt =====
-- What the result 0 of a comparison says.
use avocad_os.Base.{
  ℕ, zero, suc, ◌+◌, ◌%◌, ◌<◌, ◌≡◌, ◌≢◌, ◌↔◌, ◌∙◌, refl, ap, ap₂, sym, subst, inl, inr, true, false,
  List, [], ◌∷◌, take, length, arith, ◌==◌, Bool-cases, is_zero, is_zero-difference, ==_refl, ne→==,
}
use avocad_os.Str.Text.{
  to_upper, char_difference, strcmp, strncmp_loop, strncmp, strcasecmp_loop, strcasecmp,
}

-- Bytes, none of them NUL.
abbrev pub IsText : List ℕ → Type 0
IsText [] = Unit
IsText (c ∷ s) = (0 < c) × (c < 256) × IsText s

pub char_zero : (a b : ℕ) → a < 256 → b < 256 → is_zero (char_difference a b) ≡ true → a ≡ b
unfolding char_difference
char_zero a b la lb h =
    let e = is_zero-difference ((a + 128) % 256) ((b + 128) % 256) in
    let f : (a + 128) % 256 ≡ (b + 128) % 256 = ground arith in omega arith

pub char_same : (a : ℕ) → is_zero (char_difference a a) ≡ true
unfolding char_difference
char_same a = is_zero-difference ((a + 128) % 256) ((a + 128) % 256) ∙ ==_refl ((a + 128) % 256)

strcmp-same : (a b : ℕ) (s1 s2 : List ℕ) → a ≡ b → strcmp (a ∷ s1) (b ∷ s2) ≡ strcmp s1 s2
unfolding strcmp
strcmp-same a b s1 s2 e = let n : (a == b) ≡ true = ground arith in rw (strcmp, n)

strcmp-differ : (a b : ℕ) (s1 s2 : List ℕ) → a ≢ b → strcmp (a ∷ s1) (b ∷ s2) ≡ char_difference a b
unfolding strcmp
strcmp-differ a b s1 s2 ne = rw (strcmp, ne→== a b ne)

strcmp_refl : (s : List ℕ) → is_zero (strcmp s s) ≡ true
unfolding strcmp
strcmp_refl [] = char_same 0
strcmp_refl (a ∷ s) = ap is_zero (strcmp-same a a s s refl) ∙ strcmp_refl s

strcmp-zero : (s1 s2 : List ℕ) → IsText s1 → IsText s2 → is_zero (strcmp s1 s2) ≡ true → s1 ≡ s2
unfolding strcmp
strcmp-zero [] [] t u h = refl
strcmp-zero [] (b ∷ s2) t u h = absurd (let e = char_zero 0 b (omega arith) u.1 h in omega arith)
strcmp-zero (a ∷ s1) [] t u h = absurd (let e = char_zero a 0 t.1 (omega arith) h in omega arith)
strcmp-zero (a ∷ s1) (b ∷ s2) t u h = elim (Bool-cases (a == b)) [
  | inl e ↦
      let ab : a ≡ b = ground arith in
      ap₂ (λ x xs. x ∷ xs) ab
        (strcmp-zero s1 s2 t.2 u.2 (sym (ap is_zero (strcmp-same a b s1 s2 ab)) ∙ h))
  | inr e ↦
      let ne : a ≢ b = ground arith in
      absurd (ne (char_zero a b t.1 u.1 (sym (ap is_zero (strcmp-differ a b s1 s2 ne)) ∙ h)))
]

-- `strcmp` of two strings of bytes returns 0 exactly when they are the same.
pub strcmp_iff :
    (s1 s2 : List ℕ) → IsText s1 → IsText s2 → (is_zero (strcmp s1 s2) ≡ true) ↔ (s1 ≡ s2)
strcmp_iff s1 s2 t u =
    (strcmp-zero s1 s2 t u, λ e. subst (λ s. is_zero (strcmp s1 s) ≡ true) e (strcmp_refl s1))

pub ncmp-differ :
    (n i a b : ℕ) (s1 s2 : List ℕ)
    → a ≢ b
    → strncmp_loop n i (a ∷ s1) (b ∷ s2) ≡ char_difference a b
unfolding strncmp_loop
ncmp-differ n i a b s1 s2 ne = rw (strncmp_loop, ne→== a b ne)

pub ncmp-last :
    (n i a b : ℕ) (s1 s2 : List ℕ)
    → a ≡ b
    → n ≡ i + 1
    → strncmp_loop n i (a ∷ s1) (b ∷ s2) ≡ char_difference a b
unfolding strncmp_loop
ncmp-last n i a b s1 s2 e h =
    let x : (a == b) ≡ true = ground arith in
    let y : (i + 1 == n) ≡ true = ground arith in rw (strncmp_loop, x, y)

pub ncmp-next :
    (n i a b : ℕ) (s1 s2 : List ℕ)
    → a ≡ b
    → i + 1 < n
    → strncmp_loop n i (a ∷ s1) (b ∷ s2) ≡ strncmp_loop n (i + 1) s1 s2
unfolding strncmp_loop
ncmp-next n i a b s1 s2 e h =
    let x : (a == b) ≡ true = ground arith in
    let y : (i + 1 == n) ≡ false = ground arith in rw (strncmp_loop, x, y)

-- With `k + 1` characters left to compare.
ncmp-zero :
    (n i k : ℕ) (s1 s2 : List ℕ)
    → IsText s1
    → IsText s2
    → n ≡ i + suc k
    → is_zero (strncmp_loop n i s1 s2) ≡ true
    → take (suc k) s1 ≡ take (suc k) s2
unfolding strncmp_loop
ncmp-zero n i k [] [] t u e h = refl
ncmp-zero n i k [] (b ∷ s2) t u e h =
    absurd (let e = char_zero 0 b (omega arith) u.1 h in omega arith)
ncmp-zero n i k (a ∷ s1) [] t u e h =
    absurd (let e = char_zero a 0 t.1 (omega arith) h in omega arith)
ncmp-zero n i zero (a ∷ s1) (b ∷ s2) t u e h = elim (Bool-cases (a == b)) [
  | inl q ↦ let ab : a ≡ b = ground arith in ap (λ x. x ∷ []) ab
  | inr q ↦
      let ne : a ≢ b = ground arith in
      absurd (ne (char_zero a b t.1 u.1 (sym (ap is_zero (ncmp-differ n i a b s1 s2 ne)) ∙ h)))
]
ncmp-zero n i (suc k) (a ∷ s1) (b ∷ s2) t u e h = elim (Bool-cases (a == b)) [
  | inl q ↦
      let ab : a ≡ b = ground arith in
      ap₂ (λ x xs. x ∷ xs) ab
        (ncmp-zero n (i + 1) k s1 s2 t.2 u.2 (omega arith)
          (sym (ap is_zero (ncmp-next n i a b s1 s2 ab (omega arith))) ∙ h))
  | inr q ↦
      let ne : a ≢ b = ground arith in
      absurd (ne (char_zero a b t.1 u.1 (sym (ap is_zero (ncmp-differ n i a b s1 s2 ne)) ∙ h)))
]

head_is : ℕ → List ℕ → ℕ
head_is d [] = d
head_is d (x ∷ xs) = x

tail_of : List ℕ → List ℕ
tail_of [] = []
tail_of (x ∷ xs) = xs

ncmp-same :
    (n i k : ℕ) (s1 s2 : List ℕ)
    → n ≡ i + suc k
    → take (suc k) s1 ≡ take (suc k) s2
    → is_zero (strncmp_loop n i s1 s2) ≡ true
unfolding strncmp_loop head_is tail_of
ncmp-same n i k [] [] e h = char_same 0
ncmp-same n i k [] (b ∷ s2) e h = absurd (let l = ap length h in omega arith)
ncmp-same n i k (a ∷ s1) [] e h = absurd (let l = ap length h in omega arith)
ncmp-same n i zero (a ∷ s1) (b ∷ s2) e h =
    let ab : a ≡ b = ap (head_is 0) h in
    ap is_zero (ncmp-last n i a b s1 s2 ab (omega arith))
    ∙ subst (λ c. is_zero (char_difference a c) ≡ true) ab (char_same a)
ncmp-same n i (suc k) (a ∷ s1) (b ∷ s2) e h =
    ap is_zero (ncmp-next n i a b s1 s2 (ap (head_is 0) h) (omega arith))
    ∙ ncmp-same n (i + 1) k s1 s2 (omega arith) (ap tail_of h)

-- `strncmp` of two strings of bytes with a bound of at least 1 returns 0 exactly when they are the
-- same up to the bound.
pub strncmp_iff :
    (s1 s2 : List ℕ) (n : ℕ)
    → IsText s1
    → IsText s2
    → (is_zero (strncmp s1 s2 (suc n)) ≡ true) ↔ (take (suc n) s1 ≡ take (suc n) s2)
unfolding strncmp
strncmp_iff s1 s2 n t u =
    (ncmp-zero (suc n) 0 n s1 s2 t u (omega arith), ncmp-same (suc n) 0 n s1 s2 (omega arith))

-- Up to the end of the shorter string, the characters are the same but for the case.
abbrev pub AgreeCase : List ℕ → List ℕ → Type 0
AgreeCase [] s2 = Unit
AgreeCase (a ∷ s1) [] = Unit
AgreeCase (a ∷ s1) (b ∷ s2) = (to_upper a ≡ to_upper b) × AgreeCase s1 s2

case-same :
    (c1 c2 a b : ℕ) (s1 s2 : List ℕ)
    → to_upper a ≡ to_upper b
    → strcasecmp_loop c1 c2 (a ∷ s1) (b ∷ s2) ≡ strcasecmp_loop (to_upper a) (to_upper b) s1 s2
unfolding strcasecmp_loop
case-same c1 c2 a b s1 s2 e =
    let n : (to_upper a == to_upper b) ≡ true = ground arith in rw (strcasecmp_loop, n)

agree-zero :
    (c1 c2 : ℕ) (s1 s2 : List ℕ)
    → c1 ≡ c2
    → AgreeCase s1 s2
    → is_zero (strcasecmp_loop c1 c2 s1 s2) ≡ true
unfolding strcasecmp_loop
agree-zero c1 c2 [] s2 e g = subst (λ c. is_zero (char_difference c1 c) ≡ true) e (char_same c1)
agree-zero c1 c2 (a ∷ s1) [] e g =
    subst (λ c. is_zero (char_difference c1 c) ≡ true) e (char_same c1)
agree-zero c1 c2 (a ∷ s1) (b ∷ s2) e g =
    ap is_zero (case-same c1 c2 a b s1 s2 g.0) ∙ agree-zero (to_upper a) (to_upper b) s1 s2 g.0 g.1

-- `strcasecmp` returns 0 for any two strings that agree, but for the case, up to the end of the
-- shorter one: also for a string and a proper prefix of it.
pub strcasecmp-AgreeCase : (s1 s2 : List ℕ) → AgreeCase s1 s2 → is_zero (strcasecmp s1 s2) ≡ true
unfolding strcasecmp
strcasecmp-AgreeCase s1 s2 g = agree-zero 0 0 s1 s2 refl g
