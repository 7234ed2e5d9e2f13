-- ===== src/Heap/Find.antt =====
-- The search of src/memory/heap.c, `find_first_block`: what its loop finds, and when it gives up.
use native.Mathlib.Nat.{mod-eq_of_lt, mod_self}
use avocad_os.Base.{
  ℕ, zero, suc, ◌+◌, ◌-◌, ◌%◌, ◌≤◌, ◌<◌, ◌≡◌, ◌≢◌, refl, ap, ap₂, ◌∙◌, ◌⊎◌, inl, inr, Bool, true,
  false, List, [], ◌∷◌, Option, none, some, arith, ltb, ◌==◌, Bool-cases, length, get_elem?, done,
  ok, err, enomem,
}
use avocad_os.Heap.{Heap, HeapTable, is_taken, find_loop, find_first_block}

-- What the search sees at block `i`: whether it is taken, `none` outside the table.
abbrev pub block_state : HeapTable → ℕ → Option Bool
block_state t i = elim (get_elem? t.entries i) [ none ↦ none | some e ↦ some (is_taken e) ]

-- The `n` blocks from `s` on are free.
abbrev pub FreeRun : HeapTable → ℕ → ℕ → Type 0
FreeRun t s n = (x : ℕ) → s ≤ x → x < s + n → block_state t x ≡ some false

get_elem?_in_range : (es : List ℕ) (i : ℕ) → i < length es → (e : ℕ) × (get_elem? es i ≡ some e)
get_elem?_in_range [] i h = elim h [ ]
get_elem?_in_range (e ∷ es) zero h = (e, refl)
get_elem?_in_range (e ∷ es) (suc i) h = get_elem?_in_range es i (omega arith)

state_in_range :
    (t : HeapTable) (i : ℕ)
    → i < length t.entries
    → (block_state t i ≡ some true) ⊎ (block_state t i ≡ some false)
state_in_range t i h =
    let (e, p) = get_elem?_in_range t.entries i h in
    elim (Bool-cases (is_taken e)) [
      | inl q ↦ inl (rw (p, block_state) (ap some q))
      | inr q ↦ inr (rw (p, block_state) (ap some q))
    ]

-- What the loop sets `found_block` to at a free block.
abbrev found_at : ℕ → Option ℕ → ℕ
found_at i found = elim found [ none ↦ i | some f ↦ f ]

module _ (fuel : ℕ) (t : HeapTable) (n i last r : ℕ) (found : Option ℕ) (go : i ≢ last) where
  step-taken :
      block_state t i ≡ some true
      → find_loop (suc fuel) t n i last (suc r) found
        ≡ find_loop fuel t n ((i + 1) % t.len) 0 n none
  unfolding find_loop
  step-taken h = ground arith

  step-free :
      block_state t i ≡ some false
      → find_loop (suc fuel) t n i last (suc r) found
        ≡ find_loop fuel t n ((i + 1) % t.len) i (suc r - 1) (some (found_at i found))
  unfolding find_loop
  step-free h = ground arith

-- How far the search has come at block `i`: a run of free blocks that began at or after `start`
-- lies behind it, or it has no run.
abbrev Progress : HeapTable → (start n i remaining : ℕ) → Option ℕ → Type 0
Progress t start n i remaining none = (remaining ≡ n) × (start ≤ i)
Progress t start n i remaining (some f) =
    (start ≤ f) × (f + n ≡ i + remaining) × (remaining ≤ n) × FreeRun t f (i - f) × (f ≤ i)

FreeRun-snoc :
    (t : HeapTable) (f i : ℕ)
    → f ≤ i
    → FreeRun t f (i - f)
    → block_state t i ≡ some false
    → FreeRun t f (i + 1 - f)
FreeRun-snoc t f i le run h x lo hi = elim (Bool-cases (x == i)) [
  | inl e ↦ let e' : x ≡ i = ground arith in rw e' h
  | inr e ↦ run x lo (ground arith)
]

-- One more free block.
Progress-free :
    (t : HeapTable) (start n i r : ℕ) (found : Option ℕ)
    → 0 < n
    → block_state t i ≡ some false
    → Progress t start n i (suc r) found
    → Progress t start n (i + 1) (suc r - 1) (some (found_at i found))
Progress-free t start n i r none pos h p = (
  p.1,
  omega arith,
  omega arith,
  FreeRun-snoc t i i (omega arith) (λ x lo hi. absurd (omega arith)) h,
  omega arith,
)
Progress-free t start n i r (some f) pos h p =
    (p.0, omega arith, omega arith, FreeRun-snoc t f i p.4 p.3 h, omega arith)

Progress-start :
    (t : HeapTable) (start n i r : ℕ) (found : Option ℕ) → Progress t start n i r found → start ≤ i
Progress-start t start n i r none p = p.1
Progress-start t start n i r (some f) p = omega arith

-- The search is not past `s`.
abbrev NotPast : (s i : ℕ) → Option ℕ → Type 0
NotPast s i none = i ≤ s
NotPast s i (some f) = f ≤ s

NotPast-found : (s i : ℕ) (found : Option ℕ) → NotPast s i found → found_at i found ≤ s
NotPast-found s i none h = h
NotPast-found s i (some f) h = h

find_loop-stop :
    (fuel : ℕ) (t : HeapTable) (n i last : ℕ) (found : Option ℕ)
    → 0 < fuel
    → find_loop fuel t n i last 0 found ≡ done (last, 0, found)
unfolding find_loop
find_loop-stop zero t n i last found h = elim h [ ]
find_loop-stop (suc fuel) t n i last found h = ground arith

next_block : (i len : ℕ) → i + 1 < len → (i + 1) % len ≡ i + 1
next_block i len h = mod-eq_of_lt h

module _ (t : HeapTable) (start n s : ℕ) (len : t.len ≡ length t.entries) (pos : 0 < n)
    (fits : s + n ≤ t.len) (room : FreeRun t s n)
    (first : (x : ℕ) → start ≤ x → x < s → ¬ FreeRun t x n) where
  -- A run in hand lies at `s` or before it, so it is not complete before block `s + n`.
  run_position :
      (i r f : ℕ) → f ≤ s → Progress t start n i r (some f) → (r ≡ 0) → (f ≡ s) × (i ≡ s + n)
  run_position i r f le p e = elim (Bool-cases (f == s)) [
    | inl q ↦ (ground arith, ground arith)
    | inr q ↦ absurd (first f p.0 (ground arith) (λ x lo hi. p.3 x lo (omega arith)))
  ]

  -- A block of the run in hand lies before block `s + n`.
  before_end :
      (i r : ℕ) (found : Option ℕ)
      → Progress t start n i (suc r) found
      → NotPast s i found
      → i < s + n
  before_end i r none p h = omega arith
  before_end i r (some f) p h = omega arith

  taken_before : (i : ℕ) → i < s + n → block_state t i ≡ some true → i < s
  taken_before i lt h = elim (Bool-cases (ltb i s)) [
    | inl q ↦ ground arith
    | inr q ↦ ground (arith, room i)
  ]

  after_free :
      (fuel i r f : ℕ)
      → Progress t start n (i + 1) (suc r - 1) (some f)
      → f ≤ s
      → s + n < i + suc fuel
      → ((k : ℕ)
          → Progress t start n (i + 1) (suc k) (some f)
          → find_loop fuel t n (i + 1) i (suc k) (some f) ≡ done (s + n - 1, 0, some s))
      → find_loop fuel t n ((i + 1) % t.len) i (suc r - 1) (some f) ≡ done (s + n - 1, 0, some s)
  after_free fuel i zero f p le enough ih =
      let (at, end) = run_position (i + 1) 0 f le p refl in
      find_loop-stop fuel t n ((i + 1) % t.len) i (some f) (omega arith)
      ∙ ap₂ (λ a b. done (a, 0, some b)) (omega arith) at
  after_free fuel i (suc r) f p le enough ih =
      let e : suc (suc r) - 1 ≡ suc r = omega arith in
      rw (next_block i t.len (omega arith), e) (ih r (rw e at p))

  find_loop-first :
      (fuel i last r : ℕ) (found : Option ℕ)
      → Progress t start n i (suc r) found
      → NotPast s i found
      → i ≢ last
      → s + n < i + fuel
      → find_loop fuel t n i last (suc r) found ≡ done (s + n - 1, 0, some s)
  find_loop-first zero i last r found p h go enough =
      absurd (omega (arith, before_end i r found p h))
  find_loop-first (suc fuel) i last r found p h go enough =
      elim (state_in_range t i (omega (arith, before_end i r found p h))) [
        | inl taken ↦
            let lt = taken_before i (before_end i r found p h) taken in
            rw (step-taken fuel t n i last r found go taken, next_block i t.len (omega arith))
              (ap (λ k. find_loop fuel t n (i + 1) 0 k none) (omega arith)
                ∙ find_loop-first fuel (i + 1) 0 (n - 1) none
                    (omega arith, omega (arith, Progress-start t start n i (suc r) found p))
                    (omega arith) (omega arith) (omega arith))
        | inr free ↦
            let le = NotPast-found s i found h in
            step-free fuel t n i last r found go free
            ∙ after_free fuel i r (found_at i found) (Progress-free t start n i r found pos free p)
                le enough
                (λ k q.
                  find_loop-first fuel (i + 1) i k (some (found_at i found)) q le (omega arith)
                    (omega arith))
      ]

-- A table with no run of `n` free blocks at or after `start`, whose last block is taken.
module _ (t : HeapTable) (start n : ℕ) (len : t.len ≡ length t.entries) (pos : 0 < n)
    (full : (x : ℕ) → start ≤ x → x + n ≤ t.len → ¬ FreeRun t x n)
    (last_taken : block_state t (t.len - 1) ≡ some true) where
  find_loop-wrapped : (fuel : ℕ) → 0 < fuel → find_loop fuel t n 0 0 n none ≡ done (0, n, none)
  unfolding find_loop
  find_loop-wrapped zero h = elim h [ ]
  find_loop-wrapped (suc fuel) h = refl

  after_taken :
      (fuel i : ℕ)
      → i < t.len
      → t.len < i + suc fuel
      → (i + 1 < t.len → find_loop fuel t n (i + 1) 0 n none ≡ done (0, n, none))
      → find_loop fuel t n ((i + 1) % t.len) 0 n none ≡ done (0, n, none)
  after_taken fuel i lt enough ih = elim (Bool-cases (ltb (i + 1) t.len)) [
    | inl q ↦ let q' : i + 1 < t.len = ground arith in rw (next_block i t.len q') (ih q')
    | inr q ↦
        let e : i + 1 ≡ t.len = ground arith in
        let z : (i + 1) % t.len ≡ 0 = rw e (mod_self t.len) in
        rw z (find_loop-wrapped fuel (omega arith))
  ]

  not_last : (i : ℕ) → i < t.len → block_state t i ≡ some false → i + 1 < t.len
  not_last i lt h = elim (Bool-cases (i + 1 == t.len)) [
    | inl q ↦ let e : t.len - 1 ≡ i = ground arith in absurd (ground (arith, ap (block_state t) e))
    | inr q ↦ ground arith
  ]

  -- A run in hand is shorter than `n`, so the search goes on.
  run_incomplete : (i r f : ℕ) → i ≤ t.len → Progress t start n i r (some f) → 0 < r
  run_incomplete i r f le p = elim (Bool-cases (r == 0)) [
    | inl q ↦ absurd (full f p.0 (ground arith) (λ x lo hi. p.3 x lo (ground arith)))
    | inr q ↦ ground arith
  ]

  find_loop-none :
      (fuel i last r : ℕ) (found : Option ℕ)
      → Progress t start n i (suc r) found
      → i ≢ last
      → i < t.len
      → t.len < i + fuel
      → find_loop fuel t n i last (suc r) found ≡ done (0, n, none)
  find_loop-none zero i last r found p go lt enough = absurd (omega arith)
  find_loop-none (suc fuel) i last r found p go lt enough =
      elim (state_in_range t i (omega arith)) [
        | inl taken ↦ rw (step-taken fuel t n i last r found go taken) (
            after_taken fuel i lt enough λ q.
              ap (λ k. find_loop fuel t n (i + 1) 0 k none) (omega arith)
              ∙ find_loop-none fuel (i + 1) 0 (n - 1) none
                  (omega arith, omega (arith, Progress-start t start n i (suc r) found p))
                  (omega arith) q (omega arith))
        | inr free ↦
            let q = not_last i lt free in
            let p' = Progress-free t start n i r found pos free p in
            let e : suc r - 1 ≡ suc (r - 1) =
              omega
                (arith, run_incomplete (i + 1) (suc r - 1) (found_at i found) (omega arith) p') in
            step-free fuel t n i last r found go free
            ∙ rw (next_block i t.len q, e)
                (find_loop-none fuel (i + 1) i (r - 1) (some (found_at i found)) (rw e at p')
                  (omega arith) q (omega arith))
      ]

-- The first `n` free blocks in a row after the last allocated one, at `s`, are what the search
-- returns, given one round for each block that it passes; it notes the last of them.
pub find_first_block-first :
    (fuel : ℕ) (h : Heap) (n s : ℕ)
    → h.table.len ≡ length h.table.entries
    → 0 < n
    → h.last_allocated_block < s
    → s + n ≤ h.table.len
    → FreeRun h.table s n
    → ((x : ℕ) → h.last_allocated_block < x → x < s → ¬ FreeRun h.table x n)
    → s + n < h.last_allocated_block + 1 + fuel
    → find_first_block fuel h n ≡ done (ok s, record h { last_allocated_block = s + n - 1 })
unfolding find_first_block
find_first_block-first fuel h n s len pos after fits room first enough =
    let last = h.last_allocated_block in
    let run : find_loop fuel h.table n (last + 1) last n none ≡ done (s + n - 1, 0, some s) =
      ap (λ k. find_loop fuel h.table n (last + 1) last k none) {x = n} {y = suc (n - 1)}
        (omega arith)
      ∙ find_loop-first h.table (last + 1) n s len pos fits room
          (λ x lo hi. first x (omega arith) hi) fuel (last + 1) last (n - 1) none
          (omega arith, omega arith) (omega arith) (omega arith) enough in
    rw run refl

-- Where no run of `n` free blocks lies behind the last allocated block, which is not the last of the
-- table, and the table's last block is taken, the search, given one round for each block behind the
-- last allocated one, ends with ENOMEM and sets the last allocated block to 0.
pub find_first_block-none :
    (fuel : ℕ) (h : Heap) (n : ℕ)
    → h.table.len ≡ length h.table.entries
    → 0 < n
    → h.last_allocated_block + 1 < h.table.len
    → ((x : ℕ) → h.last_allocated_block < x → x + n ≤ h.table.len → ¬ FreeRun h.table x n)
    → block_state h.table (h.table.len - 1) ≡ some true
    → h.table.len < h.last_allocated_block + 1 + fuel
    → find_first_block fuel h n ≡ done (err enomem, record h { last_allocated_block = 0 })
unfolding find_first_block
find_first_block-none fuel h n len pos inside full last_taken enough =
    let last = h.last_allocated_block in
    let run : find_loop fuel h.table n (last + 1) last n none ≡ done (0, n, none) =
      ap (λ k. find_loop fuel h.table n (last + 1) last k none) {x = n} {y = suc (n - 1)}
        (omega arith)
      ∙ find_loop-none h.table (last + 1) n len pos (λ x lo. full x (omega arith)) last_taken fuel
          (last + 1) last (n - 1) none (omega arith, omega arith) (omega arith) inside enough in
    rw run (ground arith)
