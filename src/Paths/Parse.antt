-- ===== src/Paths/Parse.antt =====
-- Parsing a path that was put together from a drive and its parts.
use avocad_os.Base.{
  ℕ, zero, suc, ◌+◌, ◌-◌, ◌*◌, ◌≤◌, ◌<◌, ◌≡◌, ◌∙◌, refl, ap, inl, inr, true, false, Option, none,
  some, List, [], ◌∷◌, ◌++◌, arith, ltb, ◌==◌, Bool-cases, take, drop, length, done, fault, ◌>>=◌,
  lt→ltb,
}
use avocad_os.Str.Text.{is_digit, numeric_char_to_digit}
use avocad_os.Paths.{
  max_path_len, pathparser_path_is_valid, pathparser_path_get_drive, next_slash, parse_loop,
  pathparser_path_parse,
}

-- No byte of the list is a slash.
abbrev pub NoSlash : List ℕ → Type 0
NoSlash [] = Unit
NoSlash (c ∷ s) = ((c == 47) ≡ false) × NoSlash s

-- Parts of a path: none is empty, and none has a slash.
abbrev pub AreParts : List (List ℕ) → Type 0
AreParts [] = Unit
AreParts (p ∷ ps) = (0 < length p) × NoSlash p × AreParts ps

-- The parts with a slash between each two.
abbrev pub join : List ℕ → List (List ℕ) → List ℕ
join p [] = p
join p (q ∷ qs) = p ++ 47 ∷ join q qs

-- "d:/" and the joined parts.
abbrev pub print_path : ℕ → List ℕ → List (List ℕ) → List ℕ
print_path drive p ps = (48 + drive) ∷ 58 ∷ 47 ∷ join p ps

slash-miss :
    (c : ℕ) (s : List ℕ)
    → (c == 47) ≡ false
    → next_slash (c ∷ s) ≡ (c ∷ (next_slash s).0, (next_slash s).1)
unfolding next_slash
slash-miss c s e = rw (next_slash, e)

next_slash-last : (p : List ℕ) → NoSlash p → next_slash p ≡ (p, none)
unfolding next_slash
next_slash-last [] n = refl
next_slash-last (c ∷ s) n =
    slash-miss c s n.0
    ∙ ap (λ (x : List ℕ × Option (List ℕ)). (c ∷ x.0, x.1)) (next_slash-last s n.1)

next_slash-first : (p s : List ℕ) → NoSlash p → next_slash (p ++ 47 ∷ s) ≡ (p, some s)
unfolding next_slash
next_slash-first [] s n = refl
next_slash-first (c ∷ p) s n =
    slash-miss c (p ++ 47 ∷ s) n.0
    ∙ ap (λ (x : List ℕ × Option (List ℕ)). (c ∷ x.0, x.1)) (next_slash-first p s n.1)

loop-last :
    (fuel budget : ℕ) (path p : List ℕ)
    → 0 < length p
    → 1 < budget
    → next_slash path ≡ (p, none)
    → parse_loop (suc fuel) budget path ≡ done (p ∷ [])
unfolding parse_loop
loop-last fuel budget path [] l b e = absurd (omega arith)
loop-last fuel budget path (c ∷ p) l b e =
    let r : (next_slash path).1 ≡ none = ap (λ (x : List ℕ × Option (List ℕ)). x.1) e in
    rw (parse_loop, e, lt→ltb 1 budget b, r)

loop-next :
    (fuel budget : ℕ) (path p s : List ℕ)
    → 0 < length p
    → 1 < budget
    → next_slash path ≡ (p, some s)
    → parse_loop (suc fuel) budget path
      ≡ (parse_loop fuel (budget - 2) s >>= (λ parts. done (p ∷ parts)))
unfolding parse_loop
loop-next fuel budget path [] s l b e = absurd (omega arith)
loop-next fuel budget path (c ∷ p) s l b e =
    let r : (next_slash path).1 ≡ some s = ap (λ (x : List ℕ × Option (List ℕ)). x.1) e in
    rw (parse_loop, e, lt→ltb 1 budget b, r)

loop-join :
    (fuel budget : ℕ) (p : List ℕ) (ps : List (List ℕ))
    → AreParts (p ∷ ps)
    → length ps < fuel
    → 2 * length ps + 2 ≤ budget
    → parse_loop fuel budget (join p ps) ≡ done (p ∷ ps)
loop-join zero budget p ps a f b = absurd (omega arith)
loop-join (suc fuel) budget p [] a f b =
    loop-last fuel budget p p a.0 (omega arith) (next_slash-last p a.1)
loop-join (suc fuel) budget p (q ∷ qs) a f b =
    loop-next fuel budget (p ++ 47 ∷ join q qs) p (join q qs) a.0 (omega arith)
      (next_slash-first p (join q qs) a.1)
    ∙ ap (λ o. o >>= (λ parts. done (p ∷ parts)))
        (loop-join fuel (budget - 2) q qs a.2 (omega arith) (omega arith))

take-short : (n : ℕ) (xs : List ℕ) → length xs ≤ n → take n xs ≡ xs
take-short zero [] h = refl
take-short zero (x ∷ xs) h = absurd (omega arith)
take-short (suc n) [] h = refl
take-short (suc n) (x ∷ xs) h = ap (◌∷◌ x) (take-short n xs (omega arith))

print-valid :
    (d : ℕ) (s : List ℕ) → d < 10 → pathparser_path_is_valid ((48 + d) ∷ 58 ∷ 47 ∷ s) ≡ true
unfolding pathparser_path_is_valid is_digit
print-valid d s lt = ground arith

parse-valid :
    (fuel budget : ℕ) (path : List ℕ) (parts : List (List ℕ))
    → pathparser_path_is_valid path ≡ true
    → 0 < budget
    → parse_loop fuel (budget - 1) (drop 3 (take max_path_len path)) ≡ done parts
    → pathparser_path_parse fuel budget path
      ≡ done (some (record { drive_number = pathparser_path_get_drive path; first = parts }))
unfolding pathparser_path_parse
parse-valid fuel budget path parts v b e =
    let n : (budget == 0) ≡ false = ground arith in rw (pathparser_path_parse, v, n, e)

drive-print : (d : ℕ) (s : List ℕ) → pathparser_path_get_drive ((48 + d) ∷ s) ≡ d
unfolding pathparser_path_get_drive numeric_char_to_digit
drive-print d s = omega arith

-- A path that is printed from a drive below 10 and parts that are not empty and have no slash, of at
-- most 250 bytes, is parsed back to that drive and those parts, if memory for the root and for two
-- blocks per part is left; one round of the loop per part is enough.
pub pathparser_path_parse-print_path :
    (fuel budget drive : ℕ) (p : List ℕ) (ps : List (List ℕ))
    → drive < 10
    → AreParts (p ∷ ps)
    → length (print_path drive p ps) ≤ max_path_len
    → length ps < fuel
    → 2 * length ps + 3 ≤ budget
    → pathparser_path_parse fuel budget (print_path drive p ps)
      ≡ done (some (record { drive_number = drive; first = p ∷ ps }))
pathparser_path_parse-print_path fuel budget d p ps lt a l f b =
    let short = take-short max_path_len (print_path d p ps) l in
    parse-valid fuel budget (print_path d p ps) (p ∷ ps) (print-valid d (join p ps) lt)
      (omega arith)
      (ap (λ s. parse_loop fuel (budget - 1) (drop 3 s)) short
        ∙ loop-join fuel (budget - 1) p ps a f (omega arith))
    ∙ ap (λ n. done (some (record { drive_number = n; first = p ∷ ps })))
        (drive-print d (58 ∷ 47 ∷ join p ps))

loop-fault :
    (fuel budget : ℕ) (path p : List ℕ) (rest : Option (List ℕ))
    → 0 < length p
    → budget ≤ 1
    → next_slash path ≡ (p, rest)
    → parse_loop (suc fuel) budget path ≡ fault
unfolding parse_loop
loop-fault fuel budget path [] rest l b e = absurd (omega arith)
loop-fault fuel budget path (c ∷ p) rest l b e =
    let n : ltb 1 budget ≡ false = ground arith in rw (parse_loop, e, n)

loop-short :
    (fuel budget : ℕ) (p : List ℕ) (ps : List (List ℕ))
    → AreParts (p ∷ ps)
    → length ps < fuel
    → budget < 2 * length ps + 2
    → parse_loop fuel budget (join p ps) ≡ fault
loop-short zero budget p ps a f b = absurd (omega arith)
loop-short (suc fuel) budget p [] a f b =
    loop-fault fuel budget p p none a.0 (omega arith) (next_slash-last p a.1)
loop-short (suc fuel) budget p (q ∷ qs) a f b = elim (Bool-cases (ltb 1 budget)) [
  | inl e ↦
      let lo : 1 < budget = ground arith in
      loop-next fuel budget (p ++ 47 ∷ join q qs) p (join q qs) a.0 lo
        (next_slash-first p (join q qs) a.1)
      ∙ ap (λ o. o >>= (λ parts. done (p ∷ parts)))
          (loop-short fuel (budget - 2) q qs a.2 (omega arith) (omega arith))
  | inr e ↦
      loop-fault fuel budget (p ++ 47 ∷ join q qs) p (some (join q qs)) a.0 (ground arith)
        (next_slash-first p (join q qs) a.1)
]

parse-fault :
    (fuel budget : ℕ) (path : List ℕ)
    → pathparser_path_is_valid path ≡ true
    → 0 < budget
    → parse_loop fuel (budget - 1) (drop 3 (take max_path_len path)) ≡ fault
    → pathparser_path_parse fuel budget path ≡ fault
unfolding pathparser_path_parse
parse-fault fuel budget path v b e =
    let n : (budget == 0) ≡ false = ground arith in rw (pathparser_path_parse, v, n, e)

-- On the same paths, when memory for the root is left but not for two blocks per part, the parser
-- writes through a NULL pointer: the allocations of the loop are not tested.
pub pathparser_path_parse-fault :
    (fuel budget drive : ℕ) (p : List ℕ) (ps : List (List ℕ))
    → drive < 10
    → AreParts (p ∷ ps)
    → length (print_path drive p ps) ≤ max_path_len
    → length ps < fuel
    → 0 < budget
    → budget < 2 * length ps + 3
    → pathparser_path_parse fuel budget (print_path drive p ps) ≡ fault
pathparser_path_parse-fault fuel budget d p ps lt a l f lo b =
    let short = take-short max_path_len (print_path d p ps) l in
    parse-fault fuel budget (print_path d p ps) (print-valid d (join p ps) lt) lo (
      ap (λ s. parse_loop fuel (budget - 1) (drop 3 s)) short
      ∙ loop-short fuel (budget - 1) p ps a f (omega arith))
