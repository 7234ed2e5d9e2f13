-- ===== src/Str/Text/Length.antt =====
-- The length of a string in memory, and what a copy of it leaves.
use avocad_os.Base.{
  ℕ, zero, suc, ◌+◌, ◌<◌, ◌≡◌, ◌∙◌, ap, subst, min, inl, ◌⊎◌, false, List, [], ◌∷◌, arith, ◌==◌,
  length, done,
}
use avocad_os.Base.Memory.{Memory, write}
use avocad_os.Str.Text.{strlen_loop, strlen, strnlen_loop, strnlen, strcpy}

-- The memory holds the bytes of the list from `p` on, none of them NUL, and then a NUL.
abbrev pub Holds : Memory → ℕ → List ℕ → Type 0
Holds m p [] = m p ≡ 0
Holds m p (c ∷ s) = (m p ≡ c) × ((c == 0) ≡ false) × Holds m (p + 1) s

strlen-stop :
    (m : Memory) (p fuel len : ℕ) → m (p + len) ≡ 0 → strlen_loop m p (suc fuel) len ≡ done len
unfolding strlen_loop
strlen-stop m p fuel len e = rw (strlen_loop, e)

strlen-step :
    (m : Memory) (p fuel len : ℕ)
    → (m (p + len) == 0) ≡ false
    → strlen_loop m p (suc fuel) len ≡ strlen_loop m p fuel (len + 1)
unfolding strlen_loop
strlen-step m p fuel len e = rw (strlen_loop, e)

strlen-Holds :
    (m : Memory) (p fuel len q : ℕ) (s : List ℕ)
    → q ≡ p + len
    → Holds m q s
    → length s < fuel
    → strlen_loop m p fuel len ≡ done (len + length s)
strlen-Holds m p zero len q s e h lt = absurd (omega arith)
strlen-Holds m p (suc fuel) len q [] e h lt =
    strlen-stop m p fuel len (subst (λ a. m a ≡ 0) e h) ∙ ap done (omega arith)
strlen-Holds m p (suc fuel) len q (c ∷ s) e h lt =
    let n : (m (p + len) == 0) ≡ false =
      subst (λ a. (m a == 0) ≡ false) e (ap (λ v. v == 0) h.0 ∙ h.1) in
    strlen-step m p fuel len n
    ∙ strlen-Holds m p fuel (len + 1) (q + 1) s (omega arith) h.2 (omega arith)
    ∙ ap done (omega arith)

-- With more fuel than the string has characters, `strlen` ends and returns their number.
pub strlen-length :
    (fuel : ℕ) (m : Memory) (p : ℕ) (s : List ℕ)
    → Holds m p s
    → length s < fuel
    → strlen fuel m p ≡ done (length s)
unfolding strlen
strlen-length fuel m p s h lt =
    strlen-Holds m p fuel 0 p s (omega arith) h lt ∙ ap done (omega arith)

strnlen-stop : (m : Memory) (p k len : ℕ) → m (p + len) ≡ 0 → strnlen_loop m p (suc k) len ≡ len
unfolding strnlen_loop
strnlen-stop m p k len e = rw (strnlen_loop, e)

strnlen-step :
    (m : Memory) (p k len : ℕ)
    → (m (p + len) == 0) ≡ false
    → strnlen_loop m p (suc k) len ≡ strnlen_loop m p k (len + 1)
unfolding strnlen_loop
strnlen-step m p k len e = rw (strnlen_loop, e)

strnlen-Holds :
    (m : Memory) (p k len q : ℕ) (s : List ℕ)
    → q ≡ p + len
    → Holds m q s
    → strnlen_loop m p k len ≡ len + min k (length s)
unfolding strnlen_loop
strnlen-Holds m p zero len q s e h = omega arith
strnlen-Holds m p (suc k) len q [] e h =
    strnlen-stop m p k len (subst (λ a. m a ≡ 0) e h) ∙ omega arith
strnlen-Holds m p (suc k) len q (c ∷ s) e h =
    let n : (m (p + len) == 0) ≡ false =
      subst (λ a. (m a == 0) ≡ false) e (ap (λ v. v == 0) h.0 ∙ h.1) in
    strnlen-step m p k len n
    ∙ strnlen-Holds m p k (len + 1) (q + 1) s (omega arith) h.2
    ∙ omega arith

-- `strnlen` returns the length of the string or the bound, whichever is less.
pub strnlen-min :
    (m : Memory) (p : ℕ) (s : List ℕ) (max_len : ℕ)
    → Holds m p s
    → strnlen m p max_len ≡ min max_len (length s)
unfolding strnlen
strnlen-min m p s max_len h = strnlen-Holds m p max_len 0 p s (omega arith) h ∙ omega arith

-- A write in front of a string or behind its NUL leaves it.
Holds-write :
    (m : Memory) (p : ℕ) (s : List ℕ) (d v : ℕ)
    → (d < p) ⊎ (p + length s < d)
    → Holds m p s
    → Holds (write m d v) p s
Holds-write m p [] d v o h = let ne : (p == d) ≡ false = ground arith in ground arith
Holds-write m p (c ∷ s) d v o h =
    let ne : (p == d) ≡ false = ground arith in
    (ground arith, h.1, Holds-write m (p + 1) s d v (ground arith) h.2)

strcpy-stop :
    (fuel : ℕ) (m : Memory) (d p : ℕ) → m p ≡ 0 → strcpy (suc fuel) m d p ≡ done (write m d 0)
unfolding strcpy
strcpy-stop fuel m d p e = rw (strcpy, e)

strcpy-step :
    (fuel : ℕ) (m : Memory) (d p c : ℕ)
    → m p ≡ c
    → (c == 0) ≡ false
    → strcpy (suc fuel) m d p ≡ strcpy fuel (write m d c) (d + 1) (p + 1)
unfolding strcpy
strcpy-step fuel m d p c e n =
    let z : (m p == 0) ≡ false = ap (λ v. v == 0) e ∙ n in
    rw (strcpy, z) (ap (λ v. strcpy fuel (write m d v) (d + 1) (p + 1)) e)

-- What a copy leaves: the string at its place, and every byte elsewhere.
pub record Copied (m : Memory) (d : ℕ) (s : List ℕ) (m' : Memory) : Type 0 where
  pub text : Holds m' d s
  pub others : (a : ℕ) → (a < d) ⊎ (d + length s < a) → m' a ≡ m a

Copied-cons :
    (m m' : Memory) (d c : ℕ) (s : List ℕ)
    → (c == 0) ≡ false
    → Copied (write m d c) (d + 1) s m'
    → Copied m d (c ∷ s) m'
Copied-cons m m' d c s n k = record {
  text = (k.others d (inl (omega arith)) ∙ (ground arith), n, k.text);
  others = λ a o.
      let e = k.others a (ground arith) in let ne : (a == d) ≡ false = ground arith in ground arith;
}

-- The destination begins before the source or behind its NUL, so no byte is written before it is
-- read. With more fuel than the string has characters, `strcpy` ends; the string stands at the
-- destination with its NUL, and no byte outside it changes.
pub strcpy-Copied :
    (fuel : ℕ) (m : Memory) (dest src : ℕ) (s : List ℕ)
    → Holds m src s
    → (dest < src) ⊎ (src + length s < dest)
    → length s < fuel
    → (m' : Memory) × (strcpy fuel m dest src ≡ done m') × Copied m dest s m'
strcpy-Copied zero m d p s h o lt = absurd (omega arith)
strcpy-Copied (suc fuel) m d p [] h o lt = (
  write m d 0,
  strcpy-stop fuel m d p h,
  record {
    text = ground arith;
    others = λ a q. let ne : (a == d) ≡ false = ground arith in ground arith;
  },
)
strcpy-Copied (suc fuel) m d p (c ∷ s) h o lt =
    let (m', e, k) =
      strcpy-Copied fuel (write m d c) (d + 1) (p + 1) s
        (Holds-write m (p + 1) s d c (ground arith) h.2) (ground arith) (omega arith) in
    (m', strcpy-step fuel m d p c h.0 h.1 ∙ e, Copied-cons m m' d c s h.1 k)
