-- ===== src/Heap/Table.antt =====
-- The abstract view of the allocator's table: a row of free blocks and of allocated regions, and
-- what `heap_reserve_blocks` and `heap_free` of src/memory/heap.c do to it.
use avocad_os.Base.{
  ℕ, zero, suc, ◌+◌, ◌-◌, ◌<◌, ◌≡◌, refl, sym, ap, ◌∙◌, true, false, ◌||◌, List, [], ◌∷◌, ◌++◌,
  append_assoc, arith, none, some, fault, length, length-append, length-replicate, get_elem?,
  replicate, done,
}
use avocad_os.Heap.{
  is_free, is_first, set_inner, set_first, set_no_next, modify, reserve_loop, reserve_entries,
  free_loop, free_entries, count_taken,
}

-- `region n` is an allocated region of `n + 1` blocks.
pub data Segment : Type 0 where
  free : Segment
  region : ℕ → Segment

-- The bytes of a region behind its first: inner blocks have a next one, the last has none.
abbrev pub region_tail : ℕ → List ℕ
region_tail zero = []
region_tail (suc n) = replicate n 129 ++ 1 ∷ []

abbrev pub region_bytes : ℕ → List ℕ
region_bytes zero = 65 ∷ []
region_bytes (suc n) = 193 ∷ region_tail (suc n)

-- The table's bytes of a row of segments.
abbrev pub render : List Segment → List ℕ
render [] = []
render (free ∷ s) = 0 ∷ render s
render (region n ∷ s) = region_bytes n ++ render s

-- The blocks that a row of segments has in use.
abbrev pub blocks : List Segment → ℕ
blocks [] = 0
blocks (free ∷ s) = blocks s
blocks (region n ∷ s) = suc n + blocks s

pub render-append : (s t : List Segment) → render (s ++ t) ≡ render s ++ render t
render-append [] t = refl
render-append (free ∷ s) t = ap (◌∷◌ 0) (render-append s t)
render-append (region n ∷ s) t =
    ap (◌++◌ (region_bytes n)) (render-append s t)
    ∙ sym (append_assoc (region_bytes n) (render s) (render t))

pub blocks-append : (s t : List Segment) → blocks (s ++ t) ≡ blocks s + blocks t
blocks-append [] t = omega arith
blocks-append (free ∷ s) t = blocks-append s t
blocks-append (region n ∷ s) t = omega (arith, blocks-append s t)

pub modify-at :
    (f : ℕ → ℕ) (xs ys : List ℕ) (e j : ℕ)
    → j ≡ length xs
    → modify (xs ++ e ∷ ys) j f ≡ done (xs ++ f e ∷ ys)
unfolding modify
modify-at f [] ys e zero h = refl
modify-at f [] ys e (suc j) h = absurd (omega arith)
modify-at f (x ∷ xs) ys e zero h = absurd (omega arith)
modify-at f (x ∷ xs) ys e (suc j) h = rw (modify-at f xs ys e j (omega arith))

pub get_elem?-at : (xs ys : List ℕ) (e j : ℕ) → j ≡ length xs → get_elem? (xs ++ e ∷ ys) j ≡ some e
get_elem?-at [] ys e zero h = refl
get_elem?-at [] ys e (suc j) h = absurd (omega arith)
get_elem?-at (x ∷ xs) ys e zero h = absurd (omega arith)
get_elem?-at (x ∷ xs) ys e (suc j) h = get_elem?-at xs ys e j (omega arith)

-- One more byte in front of the place where the list is cut.
snoc : (xs : List ℕ) (e : ℕ) (ys : List ℕ) → xs ++ e ∷ ys ≡ (xs ++ e ∷ []) ++ ys
snoc xs e ys = sym (append_assoc xs (e ∷ []) ys)

length-snoc : (xs : List ℕ) (e : ℕ) → length (xs ++ e ∷ []) ≡ suc (length xs)
length-snoc xs e = omega (arith, length-append xs (e ∷ []))

replicate-snoc : (n e : ℕ) (ys : List ℕ) → replicate (suc n) e ++ ys ≡ replicate n e ++ e ∷ ys
replicate-snoc zero e ys = refl
replicate-snoc (suc n) e ys = ap (◌∷◌ e) (replicate-snoc n e ys)

reserve_loop-replicate :
    (k : ℕ) (xs ys : List ℕ) (j : ℕ)
    → j ≡ length xs
    → reserve_loop k j (xs ++ (replicate k 0 ++ ys)) ≡ done (xs ++ (replicate k 129 ++ ys))
unfolding reserve_loop set_inner
reserve_loop-replicate zero xs ys j h = refl
reserve_loop-replicate (suc k) xs ys j h = rw (modify-at set_inner xs (replicate k 0 ++ ys) 0 j h) (
    rw (snoc xs 129 (replicate k 0 ++ ys), snoc xs 129 (replicate k 129 ++ ys))
      (reserve_loop-replicate k (xs ++ 129 ∷ []) ys (suc j) (omega (arith, length-snoc xs 129))))

-- A byte that is neither free nor the first of a region.
abbrev pub IsInner : ℕ → Type 0
IsInner e = (is_free e || is_first e) ≡ false

abbrev pub AllInner : List ℕ → Type 0
AllInner [] = Unit {0}
AllInner (e ∷ es) = IsInner e × AllInner es

free_loop-inner :
    (fuel : ℕ) (ts xs ys : List ℕ) (z b : ℕ)
    → length ts < fuel
    → b ≡ length xs
    → AllInner ts
    → (is_free z || is_first z) ≡ true
    → free_loop fuel b (xs ++ (ts ++ z ∷ ys))
      ≡ done (xs ++ (replicate (length ts) 0 ++ z ∷ ys), length ts)
unfolding free_loop
free_loop-inner zero ts xs ys z b lt h a e = absurd (omega arith)
free_loop-inner (suc fuel) [] xs ys z b lt h a e = ground (arith, get_elem?-at xs ys z b h)
free_loop-inner (suc fuel) (t ∷ ts) xs ys z b lt h a e =
    let rest = replicate (length ts) 0 ++ z ∷ ys in
    let ih : free_loop fuel (suc b) (xs ++ 0 ∷ (ts ++ z ∷ ys)) ≡ done (xs ++ 0 ∷ rest, length ts) =
      rw (snoc xs 0 (ts ++ z ∷ ys), snoc xs 0 rest)
        (free_loop-inner fuel ts (xs ++ 0 ∷ []) ys z (suc b) (omega arith)
          (omega (arith, length-snoc xs 0)) a.1 e) in
    ground (
      arith,
      a.0,
      ih,
      get_elem?-at xs (ts ++ z ∷ ys) t b h,
      modify-at (λ _. 0) xs (ts ++ z ∷ ys) t b h,
    )

region_tail-inner : (n : ℕ) → AllInner (region_tail n)
unfolding is_free is_first
region_tail-inner zero = tt
region_tail-inner (suc n) = all n
  where
    all : (n : ℕ) → AllInner (replicate n 129 ++ 1 ∷ [])
    all zero = (refl, tt)
    all (suc n) = (refl, all n)

length-region_tail : (n : ℕ) → length (region_tail n) ≡ n
length-region_tail zero = refl
length-region_tail (suc n) =
    omega (arith, length-append {A = ℕ} (replicate n 129) (1 ∷ []), length-replicate {A = ℕ} n 129)

-- The first byte of a region: the only block has no next one.
abbrev pub region_head : ℕ → ℕ
region_head zero = 65
region_head (suc n) = 193

region_bytes-cons : (n : ℕ) → region_bytes n ≡ region_head n ∷ region_tail n
region_bytes-cons zero = refl
region_bytes-cons (suc n) = refl

-- The first byte of a row of segments is free or the first of a region.
render-stops :
    (s : Segment) (ss : List Segment)
    → (z : ℕ) × (zs : List ℕ) × (render (s ∷ ss) ≡ z ∷ zs) × ((is_free z || is_first z) ≡ true)
unfolding is_free is_first
render-stops free ss = (0, render ss, refl, refl)
render-stops (region zero) ss = (65, render ss, refl, refl)
render-stops (region (suc n)) ss = (193, region_tail (suc n) ++ render ss, refl, refl)

length-region_bytes : (n : ℕ) → length (region_bytes n) ≡ suc n
length-region_bytes zero = refl
length-region_bytes (suc n) = ap suc (length-region_tail (suc n))

count_taken-append : (xs ys : List ℕ) → count_taken (xs ++ ys) ≡ count_taken xs + count_taken ys
unfolding count_taken
count_taken-append [] ys = omega arith
count_taken-append (x ∷ xs) ys = omega (arith, count_taken-append xs ys)

count_taken-region_tail : (n : ℕ) → count_taken (region_tail n) ≡ n
unfolding count_taken
count_taken-region_tail zero = refl
count_taken-region_tail (suc n) =
    omega (arith, count_taken-append (replicate n 129) (1 ∷ []), inner n)
  where
    inner : (n : ℕ) → count_taken (replicate n 129) ≡ n
    inner zero = refl
    inner (suc n) = omega (arith, inner n)

-- The bytes with the lowest bit set are those of the blocks in use.
pub count_taken-render : (s : List Segment) → count_taken (render s) ≡ blocks s
unfolding count_taken
count_taken-render [] = refl
count_taken-render (free ∷ s) = omega (arith, count_taken-render s)
count_taken-render (region zero ∷ s) = omega (arith, count_taken-render s)
count_taken-render (region (suc n) ∷ s) = omega (
  arith,
  count_taken-append (region_tail (suc n)) (render s),
  count_taken-region_tail (suc n),
  count_taken-render s,
)

-- The last byte of a region of two blocks or more loses its link to a next block.
close_region :
    (n : ℕ) (xs ys : List ℕ) (j : ℕ)
    → j ≡ length xs + suc n
    → modify (xs ++ 193 ∷ (replicate (suc n) 129 ++ ys)) j set_no_next
      ≡ done (xs ++ (region_bytes (suc n) ++ ys))
unfolding set_no_next
close_region n xs ys j h =
    ap (λ l. modify l j set_no_next)
      (ap (λ t. xs ++ 193 ∷ t) (replicate-snoc n 129 ys) ∙ sym (append_assoc xs front (129 ∷ ys)))
    ∙ modify-at set_no_next (xs ++ front) ys 129 j
        (omega (arith, length-append xs front, length-replicate {A = ℕ} n 129))
    ∙ ap done (
        append_assoc xs front (1 ∷ ys)
        ∙ ap (λ t. xs ++ 193 ∷ t) (sym (append_assoc (replicate n 129) (1 ∷ []) ys)))
  where
    front : List ℕ
    front = 193 ∷ replicate n 129

mark_ends :
    (n : ℕ) (xs ys : List ℕ) (j : ℕ)
    → j ≡ length xs + n
    → modify (xs ++ set_first 129 ∷ (replicate n 129 ++ ys)) j set_no_next
      ≡ done (xs ++ (region_bytes n ++ ys))
unfolding set_first set_no_next
mark_ends zero xs ys j h = modify-at set_no_next xs ys (set_first 129) j (omega arith)
mark_ends (suc n) xs ys j h = close_region n xs ys j h

-- Reserving `n + 1` free blocks behind `xs` makes them one region.
pub reserve-render :
    (n : ℕ) (xs ys : List ℕ) (first : ℕ)
    → first ≡ length xs
    → reserve_entries (xs ++ (replicate (suc n) 0 ++ ys)) first (suc n)
      ≡ done (xs ++ (region_bytes n ++ ys))
unfolding reserve_entries
reserve-render n xs ys first h = rw (reserve_loop-replicate (suc n) xs ys first h) (
    rw (modify-at set_first xs (replicate n 129 ++ ys) 129 first h)
      (mark_ends n xs ys (first + suc n - 1) (omega arith)))

-- Freeing a region behind `xs` that some segment follows makes its blocks free.
pub free-render :
    (n : ℕ) (xs : List ℕ) (s : Segment) (ss : List Segment) (b : ℕ)
    → b ≡ length xs
    → free_entries (xs ++ (region_bytes n ++ render (s ∷ ss))) b
      ≡ done (xs ++ (replicate (suc n) 0 ++ render (s ∷ ss)), suc n)
unfolding free_entries
free-render n xs s ss b h =
    let (z, zs, e, stops) = render-stops s ss in
    let fuel = suc (length (xs ++ region_head n ∷ (region_tail n ++ z ∷ zs))) in
    let length-fuel : length (region_tail n) < fuel = omega (
      arith,
      length-append xs (region_head n ∷ (region_tail n ++ z ∷ zs)),
      length-append (region_tail n) (z ∷ zs),
    ) in
    rw (region_bytes-cons n, e)
      (rw (modify-at (λ _. 0) xs (region_tail n ++ z ∷ zs) (region_head n) b h) (
        rw (snoc xs 0 (region_tail n ++ z ∷ zs), snoc xs 0 (replicate n 0 ++ z ∷ zs))
          (rw
            (free_loop-inner fuel (region_tail n) (xs ++ 0 ∷ []) zs z (suc b)
              (omega (arith, length-fuel)) (omega (arith, length-snoc xs 0)) (region_tail-inner n)
              stops)
            (ap (λ k. done ((xs ++ 0 ∷ []) ++ (replicate k 0 ++ z ∷ zs), suc k))
              (length-region_tail n)))))

get_elem?-none : (xs : List ℕ) (b : ℕ) → b ≡ length xs → get_elem? (xs ++ []) b ≡ none
get_elem?-none [] zero h = refl
get_elem?-none [] (suc b) h = refl
get_elem?-none (x ∷ xs) zero h = absurd (omega arith)
get_elem?-none (x ∷ xs) (suc b) h = get_elem?-none xs b (omega arith)

free_loop_end :
    (fuel : ℕ) (ts xs : List ℕ) (b : ℕ)
    → length ts < fuel
    → b ≡ length xs
    → AllInner ts
    → free_loop fuel b (xs ++ ts) ≡ fault
unfolding free_loop
free_loop_end zero ts xs b lt h a = absurd (omega arith)
free_loop_end (suc fuel) [] xs b lt h a = ground (arith, get_elem?-none xs b h)
free_loop_end (suc fuel) (t ∷ ts) xs b lt h a =
    let ih : free_loop fuel (suc b) (xs ++ 0 ∷ ts) ≡ fault = rw (snoc xs 0 ts) (
      free_loop_end fuel ts (xs ++ 0 ∷ []) (suc b) (omega arith) (omega (arith, length-snoc xs 0))
        a.1) in
    ground (arith, a.0, ih, get_elem?-at xs ts t b h, modify-at (λ _. 0) xs ts t b h)

-- Freeing a region that nothing follows runs past the last entry.
pub free_end :
    (n : ℕ) (xs : List ℕ) (b : ℕ) → b ≡ length xs → free_entries (xs ++ region_bytes n) b ≡ fault
unfolding free_entries
free_end n xs b h = rw (region_bytes-cons n) (
    rw (modify-at (λ _. 0) xs (region_tail n) (region_head n) b h) (
      rw (snoc xs 0 (region_tail n)) (
        rw (
          free_loop_end (suc (length (xs ++ region_head n ∷ region_tail n))) (region_tail n)
            (xs ++ 0 ∷ []) (suc b) (omega (arith, length-append xs (region_head n ∷ region_tail n)))
            (omega (arith, length-snoc xs 0)) (region_tail-inner n)))))
