-- ===== src/Nodes/Ring.antt =====
-- What the operations of list.c that change the links make of a ring.
use avocad_os.Base.{ℕ, ◌≡◌, refl, sym, subst, ◌∙◌, false, List, [], ◌∷◌, ◌++◌, arith, ◌==◌, done}
use avocad_os.Links.{has, IsRing, IsRing-rotate, IsRing-rotate_back}
use avocad_os.Links.Splice.{Spliced, Unlinked, IsRing-splice_end, IsRing-unlink, prev-mem, mem-ne}
use avocad_os.Nodes.{
  Nodes, After, link_before, add_node_before, push_back, push_front, extract_node, extract_copy,
  pop_back, pop_front,
}

-- A successful insertion: the new node holds the value, the other payloads stay, and the cell and
-- the ring are as given.
pub record Inserted (s : Nodes) (n : ℕ) (value : List ℕ) (cell : ℕ) (ring : List ℕ) (r : After)
    : Type 0 where
  pub node : r.node ≡ n
  pub cell_is : r.cell ≡ cell
  pub value_is : r.nodes.payload n ≡ value
  pub others : (q : ℕ) → (n == q) ≡ false → r.nodes.payload q ≡ s.payload q
  pub ring_is : IsRing r.nodes.links ring

link-Spliced :
    (s : Nodes) (n x : ℕ) (value : List ℕ)
    → (x == 0) ≡ false
    → (x == n) ≡ false
    → (s.links.prev x == n) ≡ false
    → Spliced s.links (link_before s n x value).nodes.links (s.links.prev x) n x
unfolding link_before
link-Spliced s n x value nz ne ne' = record {
  next_a = ground arith;
  prev_t = ground arith;
  next_t = ground arith;
  prev_b = ground arith;
  other_next = λ y h k. ground arith;
  other_prev = λ y h k. ground arith;
}

link-Inserted :
    (s : Nodes) (n x : ℕ) (value ring : List ℕ)
    → (x == 0) ≡ false
    → IsRing (link_before s n x value).nodes.links ring
    → Inserted s n value x ring (link_before s n x value)
unfolding link_before
link-Inserted s n x value ring nz r = record {
  node = ground arith;
  cell_is = ground arith;
  value_is = ground arith;
  others = λ q ne. ground arith;
  ring_is = r;
}

link-ring :
    (s : Nodes) (n x : ℕ) (xs value : List ℕ)
    → IsRing s.links (x ∷ xs)
    → has n (x ∷ xs) ≡ false
    → (x == 0) ≡ false
    → IsRing (link_before s n x value).nodes.links (x ∷ xs ++ n ∷ [])
link-ring s n x xs value r fresh nz =
    let ne = mem-ne (s.links.prev x) n (x ∷ xs) (prev-mem s.links x xs x r.0) fresh in
    IsRing-splice_end s.links (link_before s n x value).nodes.links (s.links.prev x) n x xs r fresh
      refl (link-Spliced s n x value nz (ground arith) ne)

-- A new node, neither NULL nor in the ring, is pushed onto the back of a ring: it ends the ring and
-- the cell stays; its payload is the value, and the other payloads do not change.
pub push_back-Inserted :
    (s : Nodes) (n x : ℕ) (xs value : List ℕ)
    → IsRing s.links (x ∷ xs)
    → has n (x ∷ xs) ≡ false
    → (x == 0) ≡ false
    → (n == 0) ≡ false
    → (r : After) × (push_back s n x value ≡ done r) × Inserted s n value x (x ∷ xs ++ n ∷ []) r
unfolding push_back add_node_before
push_back-Inserted s n x xs value r fresh nz nn = (
  link_before s n x value,
  rw (nn, add_node_before),
  link-Inserted s n x value (x ∷ xs ++ n ∷ []) nz (link-ring s n x xs value r fresh nz),
)

-- A new node, neither NULL nor in the ring, is pushed onto the front of a ring: it heads the ring,
-- and the cell points to it.
pub push_front-Inserted :
    (s : Nodes) (n x : ℕ) (xs value : List ℕ)
    → IsRing s.links (x ∷ xs)
    → has n (x ∷ xs) ≡ false
    → (x == 0) ≡ false
    → (n == 0) ≡ false
    → (r : After) × (push_front s n x value ≡ done r) × Inserted s n value n (n ∷ x ∷ xs) r
unfolding push_front
push_front-Inserted s n x xs value r fresh nz nn =
    let (a, e, i) = push_back-Inserted s n x xs value r fresh nz nn in
    (
      record a { cell = a.node },
      rw (push_front, e),
      record {
        node = i.node;
        cell_is = i.node;
        value_is = i.value_is;
        others = i.others;
        ring_is = IsRing-rotate_back a.nodes.links x xs n i.ring_is;
      },
    )

-- A node is taken out: it is returned and linked to itself, the payloads stay, and the cell and the
-- ring are as given.
pub record Extracted (s : Nodes) (t cell : ℕ) (ring : List ℕ) (r : After) : Type 0 where
  pub node : r.node ≡ t
  pub cell_is : r.cell ≡ cell
  pub next_is : r.nodes.links.next t ≡ t
  pub prev_is : r.nodes.links.prev t ≡ t
  pub payload_is : r.nodes.payload ≡ s.payload
  pub ring_is : IsRing r.nodes.links ring

extract-Unlinked :
    (s : Nodes) (t : ℕ)
    → (t == 0) ≡ false
    → (s.links.next t == t) ≡ false
    → (s.links.prev t == t) ≡ false
    → Unlinked s.links (extract_node s t).nodes.links (s.links.prev t) t (s.links.next t)
unfolding extract_node
extract-Unlinked s t nz ne ne' = record {
  next_a = ground arith;
  prev_b = ground arith;
  other_next = λ x h k. ground arith;
  other_prev = λ x h k. ground arith;
}

extract-fields :
    (s : Nodes) (t : ℕ)
    → (t == 0) ≡ false
    → (s.links.next t == t) ≡ false
    → (s.links.prev t == t) ≡ false
    → ((extract_node s t).node ≡ t)
      × ((extract_node s t).cell ≡ s.links.next t)
      × ((extract_node s t).nodes.links.next t ≡ t)
      × ((extract_node s t).nodes.links.prev t ≡ t)
      × ((extract_node s t).nodes.payload ≡ s.payload)
unfolding extract_node
extract-fields s t nz ne ne' =
    (rw (extract_node, nz, ne), ground arith, ground arith, ground arith, rw (extract_node, nz, ne))

-- From a ring of at least two nodes, none of them NULL, `extract_node` takes the first one: the
-- cell points to the second, and the rest keeps its order.
pub extract_node-Extracted :
    (s : Nodes) (t x : ℕ) (xs : List ℕ)
    → IsRing s.links (t ∷ x ∷ xs)
    → (t == 0) ≡ false
    → Extracted s t x (x ∷ xs) (extract_node s t)
extract_node-Extracted s t x xs r nz =
    let ne' = mem-ne (s.links.prev t) t (x ∷ xs) (prev-mem s.links x xs t r.0.2) r.1.0 in
    let ne : (s.links.next t == t) ≡ false = ground arith in
    let (a, b, c, d, e) = extract-fields s t nz ne ne' in
    let u =
      subst (λ b. Unlinked s.links (extract_node s t).nodes.links (s.links.prev t) t b) r.0.0
        (extract-Unlinked s t nz ne ne') in
    record {
      node = a;
      cell_is = b ∙ r.0.0;
      next_is = c;
      prev_is = d;
      payload_is = e;
      ring_is =
          IsRing-unlink s.links (extract_node s t).nodes.links (s.links.prev t) t x xs r refl u;
    }

pop_back-copy :
    (s : Nodes) (x z : ℕ)
    → (x == 0) ≡ false
    → s.links.prev x ≡ z
    → s.links.next z ≡ x
    → (x == z) ≡ false
    → pop_back s x ≡ extract_copy s x z
unfolding pop_back
pop_back-copy s x z nz e f ne =
    let n : (s.links.next (s.links.prev x) == s.links.prev x) ≡ false = ground arith in
    rw (pop_back, nz, n, e)

-- From a ring of at least two nodes, none of them NULL, `pop_back` takes the last one: the cell
-- stays, and the rest keeps its order.
pub pop_back-Extracted :
    (s : Nodes) (x : ℕ) (xs : List ℕ) (z : ℕ)
    → IsRing s.links (x ∷ xs ++ z ∷ [])
    → (x == 0) ≡ false
    → (z == 0) ≡ false
    → Extracted s z x (x ∷ xs) (pop_back s x)
unfolding extract_copy
pop_back-Extracted s x xs z r nx nz =
    let back = IsRing-rotate_back s.links x xs z r in
    let i = extract_node-Extracted s z x xs back nz in
    subst (Extracted s z x (x ∷ xs)) (sym (pop_back-copy s x z nx back.0.1 back.0.0 (ground arith)))
      (record {
        node = i.node;
        cell_is = refl;
        next_is = i.next_is;
        prev_is = i.prev_is;
        payload_is = i.payload_is;
        ring_is = i.ring_is;
      })

pop_front-back :
    (s : Nodes) (x y : ℕ) → (x == 0) ≡ false → s.links.next x ≡ y → pop_front s x ≡ pop_back s y
unfolding pop_front
pop_front-back s x y nz e = rw (pop_front, nz, e)

-- From a ring of at least two nodes, none of them NULL, `pop_front` takes the first one: the cell
-- points to the second, and the rest keeps its order.
pub pop_front-Extracted :
    (s : Nodes) (x y : ℕ) (ys : List ℕ)
    → IsRing s.links (x ∷ y ∷ ys)
    → (x == 0) ≡ false
    → (y == 0) ≡ false
    → Extracted s x y (y ∷ ys) (pop_front s x)
pop_front-Extracted s x y ys r nx ny =
    subst (Extracted s x y (y ∷ ys)) (sym (pop_front-back s x y nx r.0.0))
      (pop_back-Extracted s y ys x (IsRing-rotate s.links x y ys r) ny nx)
