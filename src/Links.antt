-- ===== src/Links.antt =====
-- Circular doubly linked lists by address, the shape of the task list (src/kernel/task/task.c), of
-- the process list (src/kernel/task/process.c) and of the list of list.c: which rings the links of
-- a store form, and what an insertion and a removal make of one.
pub mod Splice
use mathlib.Core.Bool.{◌||◌}
use avocad_os.Base.{
  ℕ, ◌≡◌, refl, ap, ◌∙◌, ◌⊎◌, inl, inr, Bool, true, false, List, [], ◌∷◌, ◌++◌, arith, ◌==◌,
  if◌then◌else◌,
}

-- The fields `next` and `previous` of every node, by its address.
pub record Links : Type 0 where
  pub next : ℕ → ℕ
  pub prev : ℕ → ℕ

abbrev pub update : (ℕ → ℕ) → ℕ → ℕ → ℕ → ℕ
update f p v q = if p == q then v else f q

-- `p->next = q` and `p->prev = q`
abbrev pub set_next : Links → ℕ → ℕ → Links
set_next l p q = record l { next = update l.next p q }

abbrev pub set_prev : Links → ℕ → ℕ → Links
set_prev l p q = record l { prev = update l.prev p q }

-- The four writes of `task_list_remove` and of `process_list_remove`: the neighbours of `t` are
-- linked to each other, and the links of `t` are cleared.
unfoldable pub unlink : Links → ℕ → Links
unlink l t =
    let l = set_next l (l.prev t) (l.next t) in
    let l = set_prev l (l.next t) (l.prev t) in let l = set_next l t 0 in set_prev l t 0

-- From `a` the links lead through `xs` to `b`, and back.
abbrev pub Chain : Links → ℕ → List ℕ → ℕ → Type 0
Chain l a [] b = (l.next a ≡ b) × (l.prev b ≡ a)
Chain l a (x ∷ xs) b = (l.next a ≡ x) × (l.prev x ≡ a) × Chain l x xs b

abbrev pub has : ℕ → List ℕ → Bool
has a [] = false
has a (x ∷ xs) = (x == a) || has a xs

abbrev pub Distinct : List ℕ → Type 0
Distinct [] = Unit
Distinct (x ∷ xs) = (has x xs ≡ false) × Distinct xs

-- The ring that begins at the first address of the list.
abbrev pub IsRing : Links → List ℕ → Type 0
IsRing l [] = ⊥
IsRing l (x ∷ xs) = Chain l x xs x × Distinct (x ∷ xs)

pub has-append : (a : ℕ) (xs ys : List ℕ) → has a (xs ++ ys) ≡ (has a xs || has a ys)
has-append a [] ys = refl
has-append a (x ∷ xs) ys = ground (arith, has-append a xs ys)

pub Chain-append :
    (l : Links) (a : ℕ) (xs : List ℕ) (y : ℕ) (ys : List ℕ) (b : ℕ)
    → Chain l a xs y
    → Chain l y ys b
    → Chain l a (xs ++ y ∷ ys) b
Chain-append l a [] y ys b c d = (c.0, c.1, d)
Chain-append l a (x ∷ xs) y ys b c d = (c.0, c.1, Chain-append l x xs y ys b c.2 d)

pub Chain-split :
    (l : Links) (a : ℕ) (xs : List ℕ) (y : ℕ) (ys : List ℕ) (b : ℕ)
    → Chain l a (xs ++ y ∷ ys) b
    → Chain l a xs y × Chain l y ys b
Chain-split l a [] y ys b c = ((c.0, c.1), c.2)
Chain-split l a (x ∷ xs) y ys b c = let (d, e) = Chain-split l x xs y ys b c.2 in ((c.0, c.1, d), e)

-- A chain survives any change that spares the links it goes over.
pub Chain-frame :
    (l l' : Links) (a : ℕ) (xs : List ℕ) (b : ℕ)
    → ((x : ℕ) → has x (a ∷ xs) ≡ true → l'.next x ≡ l.next x)
    → ((x : ℕ) → has x (xs ++ b ∷ []) ≡ true → l'.prev x ≡ l.prev x)
    → Chain l a xs b
    → Chain l' a xs b
Chain-frame l l' a [] b f g c = (f a (ground arith) ∙ c.0, g b (ground arith) ∙ c.1)
Chain-frame l l' a (x ∷ xs) b f g c = (
  f a (ground arith) ∙ c.0,
  g x (ground arith) ∙ c.1,
  Chain-frame l l' x xs b (λ y h. f y (ground arith)) (λ y h. g y (ground arith)) c.2,
)

pub Distinct-append : (xs : List ℕ) (y : ℕ) → Distinct (y ∷ xs) → Distinct (xs ++ y ∷ [])
Distinct-append [] y d = ground arith
Distinct-append (x ∷ xs) y d =
    (ground (arith, has-append x xs (y ∷ [])), Distinct-append xs y (ground arith))

-- A ring may begin at its second address.
pub IsRing-rotate :
    (l : Links) (x : ℕ) (y : ℕ) (ys : List ℕ) → IsRing l (x ∷ y ∷ ys) → IsRing l (y ∷ ys ++ x ∷ [])
IsRing-rotate l x y ys r =
    (Chain-append l y ys x [] y r.0.2 (r.0.0, r.0.1), Distinct-append (y ∷ ys) x r.1)

pub Distinct-back :
    (x : ℕ) (ys : List ℕ) (z : ℕ) → Distinct (x ∷ ys ++ z ∷ []) → Distinct (z ∷ x ∷ ys)
Distinct-back x [] z d = ground arith
Distinct-back x (y ∷ ys) z d =
    ground (arith, Distinct-back x ys z, Distinct-back y ys z, has-append x ys (z ∷ []))

-- A ring may begin at its last address.
pub IsRing-rotate_back :
    (l : Links) (x : ℕ) (ys : List ℕ) (z : ℕ) → IsRing l (x ∷ ys ++ z ∷ []) → IsRing l (z ∷ x ∷ ys)
IsRing-rotate_back l x ys z r =
    let (c, d) = Chain-split l x ys z [] x r.0 in ((d.0, d.1, c), Distinct-back x ys z r.1)

-- A list is empty or ends with an address.
pub unsnoc : (xs : List ℕ) → (xs ≡ []) ⊎ ((ys : List ℕ) × (z : ℕ) × (xs ≡ ys ++ z ∷ []))
unsnoc [] = inl refl
unsnoc (x ∷ xs) = elim (unsnoc xs) [
  | inl e ↦ inr ([], x, ap (◌∷◌ x) e)
  | inr (ys, z, e) ↦ inr (x ∷ ys, z, ap (◌∷◌ x) e)
]
