-- ===== src/Nodes/Walk.antt =====
-- The loops of list.c over a ring: what they visit and find.
use avocad_os.Base.{
  ℕ, zero, suc, ◌+◌, ◌<◌, ◌≡◌, ◌∙◌, ap, subst, true, false, List, [], ◌∷◌, map, ◌++◌, refl, arith,
  ◌==◌, done, ◌>>=◌, get_or, length,
}
use avocad_os.Links.{Links, Chain, has, has-append, Distinct, IsRing}
use avocad_os.Nodes.{Nodes, find_loop, find_index, visit, delete_loop, print_list, delete_list}

visit-end :
    (l : Links) (list fuel ptr : ℕ)
    → l.next ptr ≡ list
    → visit l list (suc fuel) ptr ≡ done (ptr ∷ [])
unfolding visit
visit-end l list fuel ptr e = ground arith

visit-step :
    (l : Links) (list fuel ptr q : ℕ)
    → l.next ptr ≡ q
    → (q == list) ≡ false
    → visit l list (suc fuel) ptr ≡ (visit l list fuel q >>= (λ rest. done (ptr ∷ rest)))
unfolding visit
visit-step l list fuel ptr q e ne =
    let n : (list == l.next ptr) ≡ false = ground arith in rw (visit, n, e)

visit-Chain :
    (l : Links) (list fuel a : ℕ) (xs : List ℕ)
    → Chain l a xs list
    → has list xs ≡ false
    → length xs < fuel
    → visit l list fuel a ≡ done (a ∷ xs)
visit-Chain l list zero a xs c d lt = absurd (omega arith)
visit-Chain l list (suc fuel) a [] c d lt = visit-end l list fuel a c.0
visit-Chain l list (suc fuel) a (x ∷ xs) c d lt =
    visit-step l list fuel a x c.0 (ground arith)
    ∙ ap (λ o. o >>= (λ rest. done (a ∷ rest)))
        (visit-Chain l list fuel x xs c.2 (ground arith) (omega arith))

-- On a ring of at most `fuel` nodes, none of them NULL, `print_list` ends and prints the first
-- number of each payload once, in the order of the ring.
pub print_list-ring :
    (fuel : ℕ) (s : Nodes) (x : ℕ) (xs : List ℕ)
    → IsRing s.links (x ∷ xs)
    → (x == 0) ≡ false
    → length xs < fuel
    → print_list fuel s x ≡ done (map (λ p. get_or (s.payload p) 0 0) (x ∷ xs))
unfolding print_list
print_list-ring fuel s x xs r nz lt =
    rw (print_list, nz, visit-Chain s.links x fuel x xs r.0 r.1.0 lt)

-- No node of the first list is in the second.
abbrev Apart : List ℕ → List ℕ → Type 0
Apart [] freed = Unit
Apart (x ∷ xs) freed = (has x freed ≡ false) × Apart xs freed

Apart-append :
    (xs freed : List ℕ) (a : ℕ) → Apart xs freed → has a xs ≡ false → Apart xs (freed ++ a ∷ [])
Apart-append [] freed a p d = tt
Apart-append (x ∷ xs) freed a p d =
    let ne : (a == x) ≡ false = ground arith in
    let n : (x == a) ≡ false = ground arith in
    (
      has-append x freed (a ∷ []) ∙ (let h = p.0 in ground arith),
      Apart-append xs freed a p.1 (ground arith),
    )

Apart-nil : (xs : List ℕ) → Apart xs []
Apart-nil [] = tt
Apart-nil (x ∷ xs) = (refl, Apart-nil xs)

free-end :
    (l : Links) (list fuel ptr : ℕ) (freed : List ℕ)
    → has ptr freed ≡ false
    → l.next ptr ≡ list
    → delete_loop l list (suc fuel) freed ptr ≡ done (freed ++ ptr ∷ [])
unfolding delete_loop
free-end l list fuel ptr freed h e =
    let n : (list == list) ≡ true = ground arith in rw (delete_loop, h, e, n) refl

free-step :
    (l : Links) (list fuel ptr q : ℕ) (freed : List ℕ)
    → has ptr freed ≡ false
    → l.next ptr ≡ q
    → (q == list) ≡ false
    → delete_loop l list (suc fuel) freed ptr ≡ delete_loop l list fuel (freed ++ ptr ∷ []) q
unfolding delete_loop
free-step l list fuel ptr q freed h e ne =
    let n : (list == q) ≡ false = ground arith in
    rw (delete_loop, h, e, n) (ap (delete_loop l list fuel (freed ++ ptr ∷ [])) e)

append_assoc : (xs : List ℕ) (a : ℕ) (ys : List ℕ) → (xs ++ a ∷ []) ++ ys ≡ xs ++ a ∷ ys
append_assoc [] a ys = refl
append_assoc (x ∷ xs) a ys = ap (◌∷◌ x) (append_assoc xs a ys)

free-Chain :
    (l : Links) (list fuel a : ℕ) (xs freed : List ℕ)
    → Chain l a xs list
    → has list xs ≡ false
    → Distinct (a ∷ xs)
    → Apart (a ∷ xs) freed
    → length xs < fuel
    → delete_loop l list fuel freed a ≡ done (freed ++ a ∷ xs)
free-Chain l list zero a xs freed c h d p lt = absurd (omega arith)
free-Chain l list (suc fuel) a [] freed c h d p lt = free-end l list fuel a freed p.0 c.0
free-Chain l list (suc fuel) a (x ∷ xs) freed c h d p lt =
    free-step l list fuel a x freed p.0 c.0 (ground arith)
    ∙ free-Chain l list fuel x xs (freed ++ a ∷ []) c.2 (ground arith) d.1
        (Apart-append (x ∷ xs) freed a p.1 d.0) (omega arith)
    ∙ ap done (append_assoc freed a (x ∷ xs))

-- On a ring of at most `fuel` nodes, none of them NULL, `delete_list` ends, reads no link of a node that
-- was freed, frees every node of the ring once, in its order, and sets the cell to NULL.
pub delete_list-ring :
    (fuel : ℕ) (s : Nodes) (x : ℕ) (xs : List ℕ)
    → IsRing s.links (x ∷ xs)
    → (x == 0) ≡ false
    → length xs < fuel
    → delete_list fuel s x ≡ done (x ∷ xs, 0)
unfolding delete_list
delete_list-ring fuel s x xs r nz lt =
    rw (delete_list, nz, free-Chain s.links x fuel x xs [] r.0 r.1.0 r.1 (Apart-nil (x ∷ xs)) lt)
      refl

find-hit :
    (l : Links) (list index fuel ptr i : ℕ)
    → (i == index) ≡ true
    → find_loop l list index (suc fuel) ptr i ≡ done ptr
unfolding find_loop
find-hit l list index fuel ptr i e = rw (find_loop, e)

find-end :
    (l : Links) (list index fuel ptr i : ℕ)
    → (i == index) ≡ false
    → l.next ptr ≡ list
    → find_loop l list index (suc fuel) ptr i ≡ done 0
unfolding find_loop
find-end l list index fuel ptr i ne e = ground arith

find-step :
    (l : Links) (list index fuel ptr i q : ℕ)
    → (i == index) ≡ false
    → l.next ptr ≡ q
    → (q == list) ≡ false
    → find_loop l list index (suc fuel) ptr i ≡ find_loop l list index fuel q (i + 1)
unfolding find_loop
find-step l list index fuel ptr i q ne e d =
    let n : (list == l.next ptr) ≡ false = ground arith in rw (find_loop, ne, n, e)

find-Chain :
    (l : Links) (list fuel a i k : ℕ) (xs : List ℕ)
    → Chain l a xs list
    → has list xs ≡ false
    → length xs < fuel
    → find_loop l list (i + k) fuel a i ≡ done (get_or (a ∷ xs) k 0)
find-Chain l list zero a i k xs c d lt = absurd (omega arith)
find-Chain l list (suc fuel) a i zero xs c d lt = find-hit l list (i + 0) fuel a i (ground arith)
find-Chain l list (suc fuel) a i (suc k) [] c d lt =
    find-end l list (i + suc k) fuel a i (ground arith) c.0
find-Chain l list (suc fuel) a i (suc k) (x ∷ xs) c d lt =
    find-step l list (i + suc k) fuel a i x (ground arith) c.0 (ground arith)
    ∙ ap (λ n. find_loop l list n fuel x (i + 1)) (omega arith)
    ∙ find-Chain l list fuel x (i + 1) k xs c.2 (ground arith) (omega arith)

-- On a ring of at most `fuel` nodes, none of them NULL, `find_index` ends and returns the node at
-- the index, counted from the head, and NULL for an index outside.
pub find_index-get_or :
    (fuel : ℕ) (l : Links) (x : ℕ) (xs : List ℕ) (index : ℕ)
    → IsRing l (x ∷ xs)
    → (x == 0) ≡ false
    → length xs < fuel
    → find_index fuel l x index ≡ done (get_or (x ∷ xs) index 0)
unfolding find_index
find_index-get_or fuel l x xs index r nz lt =
    let e : 0 + index ≡ index = omega arith in
    let f : find_loop l x index fuel x 0 ≡ done (get_or (x ∷ xs) index 0) =
      subst (λ n. find_loop l x n fuel x 0 ≡ done (get_or (x ∷ xs) index 0)) e
        (find-Chain l x fuel x 0 index xs r.0 r.1.0 lt) in
    rw (find_index, nz) f
