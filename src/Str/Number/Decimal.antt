-- ===== src/Str/Number/Decimal.antt =====
-- `itoa` writes the decimal numeral of a number.
use avocad_os.Base.{
  ℕ, zero, suc, ◌+◌, ◌-◌, ◌*◌, ◌/◌, ◌%◌, ◌^◌, ◌<◌, ◌≤◌, ◌≡◌, ◌∙◌, refl, sym, subst, ap, inl, inr,
  Bool, true, false, List, [], ◌∷◌, ◌++◌, ltb, ◌==◌, arith, length, length-append, ℤ, pos, negsuc,
  Bool-cases, done, ◌>>=◌,
}
use avocad_os.Base.Memory.{Memory, write}
use avocad_os.Str.Text.{digit_to_char}
use avocad_os.Str.Text.Length.{Holds}
use avocad_os.Str.Number.{int_digits, count_digits, write_digits, put_digits, itoa}

-- The text is the decimal numeral of the number, without a leading zero; 48 is '0'.
pub data IsNumeral : List ℕ → ℕ → Type 0 where
  digit : (n : ℕ) → n < 10 → IsNumeral ((48 + n) ∷ []) n
  behind :
      (s : List ℕ) (q r : ℕ)
      → IsNumeral s q
      → (q == 0) ≡ false
      → r < 10
      → IsNumeral (s ++ (48 + r) ∷ []) (q * 10 + r)

-- The memory holds the bytes of the list from `p` on, none of them NUL.
abbrev Reads : Memory → ℕ → List ℕ → Type 0
Reads m p [] = Unit
Reads m p (c ∷ s) = (m p ≡ c) × ((c == 0) ≡ false) × Reads m (p + 1) s

Reads-append :
    (m : Memory) (p q : ℕ) (s : List ℕ) (c : ℕ)
    → q ≡ p + length s
    → Reads m p s
    → m q ≡ c
    → (c == 0) ≡ false
    → Reads m p (s ++ c ∷ [])
Reads-append m p q [] c e h a z = (subst (λ x. m x ≡ c) (omega arith) a, z, tt)
Reads-append m p q (x ∷ s) c e h a z =
    (h.0, h.1, Reads-append m (p + 1) q s c (omega arith) h.2 a z)

Reads-Holds :
    (m : Memory) (p q : ℕ) (s : List ℕ) → q ≡ p + length s → Reads m p s → m q ≡ 0 → Holds m p s
Reads-Holds m p q [] e h z = subst (λ x. m x ≡ 0) (omega arith) z
Reads-Holds m p q (c ∷ s) e h z = (h.0, h.1, Reads-Holds m (p + 1) q s (omega arith) h.2 z)

Reads-same :
    (m m' : Memory) (p : ℕ) (s : List ℕ)
    → ((a : ℕ) → p ≤ a → m' a ≡ m a)
    → Reads m p s
    → Reads m' p s
Reads-same m m' p [] e h = tt
Reads-same m m' p (c ∷ s) e h =
    (e p (omega arith) ∙ h.0, h.1, Reads-same m m' (p + 1) s (λ a le. e a (omega arith)) h.2)

char-digit : (r : ℕ) → r < 10 → digit_to_char r ≡ 48 + r
unfolding digit_to_char
char-digit r lt = ground arith

numeral-positive : (s : List ℕ) (n : ℕ) → IsNumeral s n → 0 < length s
numeral-positive _ n (digit _ lt) = omega arith
numeral-positive _ _ (behind s q r d z lt) = let l = length-append s ((48 + r) ∷ []) in omega arith

-- Every number of at most `k` digits has a numeral.
abbrev tens : ℕ → ℕ
tens zero = 1
tens (suc k) = 10 * tens k

numeral : (k n : ℕ) → n < 10 * tens k → (s : List ℕ) × IsNumeral s n × (length s ≤ suc k)
numeral zero n lt = ((48 + n) ∷ [], digit n (omega arith), omega arith)
numeral (suc k) n lt = elim (Bool-cases (n / 10 == 0)) [
  | inl z ↦ ((48 + n) ∷ [], digit n (ground arith), omega arith)
  | inr z ↦
      let (s, d, l) = numeral k (n / 10) (omega arith) in
      let e : n / 10 * 10 + n % 10 ≡ n = omega arith in
      (
        s ++ (48 + n % 10) ∷ [],
        subst (IsNumeral (s ++ (48 + n % 10) ∷ [])) e
            (behind s (n / 10) (n % 10) d z (omega arith)),
        let a = length-append s ((48 + n % 10) ∷ []) in omega arith,
      )
]

count-last :
    (fuel n ptr : ℕ) → (n / 10 == 0) ≡ true → count_digits (suc fuel) n ptr ≡ done (ptr + 1)
unfolding count_digits
count-last fuel n ptr h = rw (count_digits, h) refl

count-more :
    (fuel n ptr : ℕ)
    → (n / 10 == 0) ≡ false
    → count_digits (suc fuel) n ptr ≡ count_digits fuel (n / 10) (ptr + 1)
unfolding count_digits
count-more fuel n ptr h = rw (count_digits, h) refl

count_digits-length :
    (fuel ptr : ℕ) (s : List ℕ) (n : ℕ)
    → IsNumeral s n
    → length s ≤ fuel
    → count_digits fuel n ptr ≡ done (ptr + length s)
count_digits-length zero ptr s n d le = let l = numeral-positive s n d in absurd (omega arith)
count_digits-length (suc fuel) ptr _ n (digit _ lt) le = count-last fuel n ptr (ground arith)
count_digits-length (suc fuel) ptr _ _ (behind s q r d z lt) le =
    let l = length-append s ((48 + r) ∷ []) in
    let e : (q * 10 + r) / 10 ≡ q = omega arith in
    count-more fuel (q * 10 + r) ptr (ap (λ x. x == 0) e ∙ z)
    ∙ ap (λ x. count_digits fuel x (ptr + 1)) e
    ∙ count_digits-length fuel (ptr + 1) s q d (omega arith)
    ∙ ap done (omega arith)

write-last :
    (fuel : ℕ) (m : Memory) (n ptr : ℕ)
    → (n / 10 == 0) ≡ true
    → write_digits (suc fuel) m n ptr ≡ done (write m ptr (digit_to_char (n % 10)), ptr - 1)
unfolding write_digits
write-last fuel m n ptr h = rw (write_digits, h) refl

write-more :
    (fuel : ℕ) (m : Memory) (n ptr : ℕ)
    → (n / 10 == 0) ≡ false
    → write_digits (suc fuel) m n ptr
      ≡ write_digits fuel (write m ptr (digit_to_char (n % 10))) (n / 10) (ptr - 1)
unfolding write_digits
write-more fuel m n ptr h = rw (write_digits, h) refl

-- The numeral stands from `p` on, and nothing else is changed.
record Written (m : Memory) (p : ℕ) (s : List ℕ) (m' : Memory) : Type 0 where
  reads : Reads m' p s
  before : (a : ℕ) → a < p → m' a ≡ m a
  after : (a : ℕ) → p + length s ≤ a → m' a ≡ m a

write_digits-Written :
    (fuel p ptr : ℕ) (m : Memory) (s : List ℕ) (n : ℕ)
    → IsNumeral s n
    → length s ≤ fuel
    → ptr + 1 ≡ p + length s
    → (m' : Memory) × (write_digits fuel m n ptr ≡ done (m', p - 1)) × Written m p s m'
write_digits-Written zero p ptr m s n d le e =
    let l = numeral-positive s n d in absurd (omega arith)
write_digits-Written (suc fuel) p ptr m _ n (digit _ lt) le e =
    let same : n % 10 ≡ n = omega arith in
    let c = ap digit_to_char same ∙ char-digit n lt in
    let at : ptr ≡ p = omega arith in
    (
      write m ptr (digit_to_char (n % 10)),
      write-last fuel m n ptr (ground arith)
          ∙ ap (λ x. done (write m ptr (digit_to_char (n % 10)), x - 1)) at,
      record {
        reads = (ground arith, ground arith, tt);
        before = λ a lo. ground arith;
        after = λ a hi. ground arith;
      },
    )
write_digits-Written (suc fuel) p ptr m _ _ (behind s q r d z lt) le e =
    let n = q * 10 + r in
    let l = length-append s ((48 + r) ∷ []) in
    let some = numeral-positive s q d in
    let quotient : n / 10 ≡ q = omega arith in
    let last : n % 10 ≡ r = omega arith in
    let c : digit_to_char (n % 10) ≡ 48 + r = ap digit_to_char last ∙ char-digit r lt in
    let m1 = write m ptr (digit_to_char (n % 10)) in
    let (m', run, w) = write_digits-Written fuel p (ptr - 1) m1 s q d (omega arith) (omega arith) in
    let kept : m' ptr ≡ 48 + r = w.after ptr (omega arith) ∙ ground arith in
    (
      m',
      write-more fuel m n ptr (ap (λ x. x == 0) quotient ∙ z)
          ∙ ap (λ x. write_digits fuel m1 x (ptr - 1)) quotient
          ∙ run,
      record {
        reads = Reads-append m' p ptr s (48 + r) (omega arith) w.reads kept (ground arith);
        before = λ a lo. w.before a lo ∙ ground arith;
        after = λ a hi. w.after a (omega arith) ∙ ground arith;
      },
    )

-- Both loops leave the numeral and a NUL behind it.
put_digits-Holds :
    (m : Memory) (p : ℕ) (s : List ℕ) (n : ℕ)
    → IsNumeral s n
    → length s ≤ int_digits
    → (m' : Memory) × (put_digits m n p ≡ done (m', p - 1)) × Reads m' p s × (m' (p + length s) ≡ 0)
unfolding put_digits
put_digits-Holds m p s n d le =
    let end = p + length s in
    let l = numeral-positive s n d in
    let (m', run, w) =
      write_digits-Written int_digits p (end - 1) (write m end 0) s n d le (omega arith) in
    (
      m',
      ap (λ o. o >>= (λ end. write_digits int_digits (write m end 0) n (end - 1)))
            (count_digits-length int_digits p s n d le)
          ∙ run,
      w.reads,
      w.after end (omega arith) ∙ ground arith,
    )

-- What `itoa` leaves: the numeral of a number, with '-' in front of that of its magnitude when it is
-- negative, and a NUL behind it.
abbrev pub Shows : ℤ → ℕ → Memory → Type 0
Shows (pos n) buf m = (s : List ℕ) × IsNumeral s n × Holds m buf s
Shows (negsuc n) buf m = (s : List ℕ) × IsNumeral s (n + 1) × Holds m buf (45 ∷ s)

itoa-pos :
    (m m' : Memory) (n buf x : ℕ)
    → (n == 0) ≡ false
    → put_digits m n buf ≡ done (m', x)
    → itoa m (pos n) buf ≡ done m'
unfolding itoa
itoa-pos m m' n buf x h e = rw (itoa, h, e) refl

itoa-neg :
    (m m' : Memory) (n buf x : ℕ)
    → ltb (n + 1) (2 ^ 31) ≡ true
    → put_digits m (n + 1) (buf + 1) ≡ done (m', x)
    → itoa m (negsuc n) buf ≡ done (write m' x 45)
unfolding itoa
itoa-neg m m' n buf x h e = rw (itoa, h, e) refl

-- The magnitude is below 2 ^ 31.
abbrev pub is_int : ℤ → Bool
is_int (pos n) = ltb n (2 ^ 31)
is_int (negsuc n) = ltb (n + 1) (2 ^ 31)

-- For every `int` but the least one, `itoa` ends and leaves at the buffer its decimal numeral, with a minus
-- sign if it is negative, and a NUL behind it.
pub itoa-Shows :
    (m : Memory) (c : ℤ) (buf : ℕ)
    → is_int c ≡ true
    → (m' : Memory) × (itoa m c buf ≡ done m') × Shows c buf m'
unfolding itoa
itoa-Shows m (pos n) buf h = elim (Bool-cases (n == 0)) [
  | inl z ↦
      let none : n ≡ 0 = ground arith in
      (
        write (write m buf 48) (buf + 1) 0,
        rw (itoa, z) refl,
        (
          48 ∷ [],
          subst (IsNumeral (48 ∷ [])) (sym none) (digit 0 (omega arith)),
          (ground arith, refl, ground arith),
        ),
      )
  | inr z ↦
      let (s, d, l) = numeral 9 n (ground arith) in
      let (m', run, reads, end) = put_digits-Holds m buf s n d l in
      (
        m',
        itoa-pos m m' n buf (buf - 1) z run,
        (s, d, Reads-Holds m' buf (buf + length s) s refl reads end),
      )
]
itoa-Shows m (negsuc n) buf h =
    let (s, d, l) = numeral 9 (n + 1) (ground arith) in
    let (m', run, reads, end) = put_digits-Holds m (buf + 1) s (n + 1) d l in
    let at : buf + 1 - 1 ≡ buf = omega arith in
    let m2 = write m' (buf + 1 - 1) 45 in
    let same : (a : ℕ) → buf + 1 ≤ a → m2 a ≡ m' a = λ a le. ground arith in
    (
      m2,
      itoa-neg m m' n buf (buf + 1 - 1) h run,
      (
        s,
        d,
        (
          ground arith,
          refl,
          Reads-Holds m2 (buf + 1) (buf + 1 + length s) s refl
              (Reads-same m' m2 (buf + 1) s same reads)
              (same (buf + 1 + length s) (omega arith) ∙ end),
        ),
      ),
    )
