-- ===== src/Nodes/Insert.antt =====
-- `push_index` puts a node at a place of the ring.
use avocad_os.Base.{
  ℕ, zero, suc, ◌+◌, ◌<◌, ◌≡◌, ◌∙◌, refl, sym, ap, subst, true, false, not, ◌&&◌, List, [], ◌∷◌,
  ◌++◌, append_assoc, append-nil, arith, ◌==◌, done, ◌>>=◌, length,
}
use avocad_os.Links.{Links, Chain, has, has-append, IsRing, IsRing-rotate}
use avocad_os.Nodes.{Nodes, After, push_back, push_index, insert_loop, insert_at}
use avocad_os.Nodes.Ring.{Inserted, push_back-Inserted}

-- A ring may begin at any of its addresses.
rotate_many :
    (l : Links) (front : List ℕ) (b : ℕ) (bs : List ℕ)
    → IsRing l (front ++ b ∷ bs)
    → IsRing l (b ∷ bs ++ front)
rotate_many l [] b bs r = subst (λ ys. IsRing l (b ∷ ys)) (sym (append-nil bs)) r
rotate_many l (a ∷ []) b bs r = IsRing-rotate l a b bs r
rotate_many l (a ∷ c ∷ front) b bs r =
    subst (λ ys. IsRing l (b ∷ ys)) (append_assoc bs (a ∷ []) (c ∷ front))
      (rotate_many l (c ∷ front) b (bs ++ a ∷ []) (
        subst (λ ys. IsRing l (c ∷ ys)) (append_assoc front (b ∷ bs) (a ∷ []))
          (IsRing-rotate l a c (front ++ b ∷ bs) r)))

-- The place behind the first addresses: the next one, or the head of the list.
abbrev place : List ℕ → ℕ → ℕ
place [] list = list
place (q ∷ qs) list = q

insert-hit :
    (l : Links) (list index fuel ptr i : ℕ)
    → i ≡ index
    → insert_loop l list index (suc fuel) ptr i ≡ done (ptr, index)
unfolding insert_loop
insert-hit l list index fuel ptr i e =
    let b : (i == index) ≡ true = ground arith in rw (insert_loop, b) (ap (λ n. done (ptr, n)) e)

insert-end :
    (l : Links) (list index fuel ptr i : ℕ)
    → (i == index) ≡ false
    → l.next ptr ≡ list
    → insert_loop l list index (suc fuel) ptr i ≡ done (list, i + 1)
unfolding insert_loop
insert-end l list index fuel ptr i ne e =
    let b : (list == l.next ptr) ≡ true = ground arith in
    rw (insert_loop, ne, b) (ap (λ p. done (p, i + 1)) e)

insert-step :
    (l : Links) (list index fuel ptr i q : ℕ)
    → (i == index) ≡ false
    → l.next ptr ≡ q
    → (q == list) ≡ false
    → insert_loop l list index (suc fuel) ptr i ≡ insert_loop l list index fuel q (i + 1)
unfolding insert_loop
insert-step l list index fuel ptr i q ne e d =
    let b : (list == l.next ptr) ≡ false = ground arith in
    rw (insert_loop, ne, b) (ap (λ p. insert_loop l list index fuel p (i + 1)) e)

insert_loop-Chain :
    (l : Links) (list index fuel a i : ℕ) (ps qs : List ℕ)
    → Chain l a (ps ++ qs) list
    → has list (ps ++ qs) ≡ false
    → index ≡ i + suc (length ps)
    → suc (length ps) < fuel
    → insert_loop l list index fuel a i ≡ done (place qs list, index)
insert_loop-Chain l list index zero a i ps qs c d e lt = absurd (omega arith)
insert_loop-Chain l list index (suc zero) a i ps qs c d e lt = absurd (omega arith)
insert_loop-Chain l list index (suc (suc fuel)) a i [] [] c d e lt =
    insert-end l list index (suc fuel) a i (ground arith) c.0
    ∙ ap (λ n. done (list, n)) (omega arith)
insert_loop-Chain l list index (suc (suc fuel)) a i [] (q ∷ qs) c d e lt =
    insert-step l list index (suc fuel) a i q (ground arith) c.0 (ground arith)
    ∙ insert-hit l list index fuel q (i + 1) (omega arith)
insert_loop-Chain l list index (suc (suc fuel)) a i (p ∷ ps) qs c d e lt =
    insert-step l list index (suc fuel) a i p (ground arith) c.0 (ground arith)
    ∙ insert_loop-Chain l list index (suc fuel) p (i + 1) ps qs c.2 (ground arith) (omega arith)
        (omega arith)

insert_at-place :
    (s : Nodes) (n x index ptr : ℕ) (value : List ℕ) (a : After)
    → push_back s n ptr value ≡ done a
    → insert_at s n x index value (ptr, index) ≡ done (record a { cell = x })
unfolding insert_at
insert_at-place s n x index ptr value a push =
    let b : (x == ptr && not (index == index)) ≡ false = ground arith in
    rw (insert_at, b, push) refl

push_index-place :
    (fuel : ℕ) (s : Nodes) (n x index ptr : ℕ) (value : List ℕ) (a : After)
    → (x == 0) ≡ false
    → (index == 0) ≡ false
    → insert_loop s.links x index fuel x 0 ≡ done (ptr, index)
    → push_back s n ptr value ≡ done a
    → push_index fuel s n x index value ≡ done (record a { cell = x })
unfolding push_index
push_index-place fuel s n x index ptr value a nz ni loop push =
    rw (push_index, ni, nz)
      (ap (λ o. o >>= insert_at s n x index value) loop
        ∙ insert_at-place s n x index ptr value a push)

-- The ring after the node was put in front of the place, seen from the head of the list.
push_back-place :
    (s : Nodes) (n x : ℕ) (ps qs value : List ℕ)
    → IsRing s.links (x ∷ ps ++ qs)
    → has n (x ∷ ps ++ qs) ≡ false
    → has 0 (x ∷ ps ++ qs) ≡ false
    → (n == 0) ≡ false
    → (a : After) × (push_back s n (place qs x) value ≡ done a)
      × Inserted s n value x (x ∷ ps ++ n ∷ qs) (record a { cell = x })
push_back-place s n x ps [] value r fresh null nn =
    let whole : x ∷ ps ++ [] ≡ x ∷ ps = ap (◌∷◌ x) (append-nil ps) in
    let (a, e, i) =
      push_back-Inserted s n x ps value (subst (IsRing s.links) whole r)
        (subst (λ ys. has n ys ≡ false) whole fresh) (ground arith) nn in
    (
      a,
      e,
      record {
        node = i.node;
        cell_is = refl;
        value_is = i.value_is;
        others = i.others;
        ring_is = i.ring_is;
      },
    )
push_back-place s n x ps (q ∷ qs) value r fresh null nn =
    let turned = rotate_many s.links (x ∷ ps) q qs r in
    let new : has n (q ∷ qs ++ x ∷ ps) ≡ false =
      ground (arith, has-append n ps (q ∷ qs), has-append n qs (x ∷ ps)) in
    let nq : (q == 0) ≡ false = ground (arith, has-append 0 ps (q ∷ qs)) in
    let (a, e, i) = push_back-Inserted s n q (qs ++ x ∷ ps) value turned new nq nn in
    let back =
      rotate_many a.nodes.links (q ∷ qs) x (ps ++ n ∷ []) (
        subst (λ ys. IsRing a.nodes.links (q ∷ ys)) (append_assoc qs (x ∷ ps) (n ∷ []))
          i.ring_is) in
    (
      a,
      e,
      record {
        node = i.node;
        cell_is = refl;
        value_is = i.value_is;
        others = i.others;
        ring_is =
            subst (λ ys. IsRing a.nodes.links (x ∷ ys)) (append_assoc ps (n ∷ []) (q ∷ qs)) back;
      },
    )

-- A new node, neither NULL nor in the ring, is pushed to an index from 1 up to the length of a ring without
-- NULL, with two rounds more than nodes that stay in front of it besides the head: it stands at that index, the other
-- nodes keep their order, and the cell stays; its payload is the value, and the other payloads do not
-- change.
pub push_index-Inserted :
    (fuel : ℕ) (s : Nodes) (n x : ℕ) (ps qs value : List ℕ)
    → IsRing s.links (x ∷ ps ++ qs)
    → has n (x ∷ ps ++ qs) ≡ false
    → has 0 (x ∷ ps ++ qs) ≡ false
    → (n == 0) ≡ false
    → suc (length ps) < fuel
    → (r : After) × (push_index fuel s n x (suc (length ps)) value ≡ done r)
      × Inserted s n value x (x ∷ ps ++ n ∷ qs) r
push_index-Inserted fuel s n x ps qs value r fresh null nn enough =
    let (a, e, i) = push_back-place s n x ps qs value r fresh null nn in
    (
      record a { cell = x },
      push_index-place fuel s n x (suc (length ps)) (place qs x) value a (ground arith)
          (ground arith)
          (insert_loop-Chain s.links x (suc (length ps)) fuel x 0 ps qs r.0 r.1.0 (omega arith)
            enough)
          e,
      i,
    )
