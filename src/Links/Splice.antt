-- ===== src/Links/Splice.antt =====
-- What an insertion and a removal at one place make of a ring.
use avocad_os.Base.{
  ℕ, ◌≡◌, refl, sym, subst, ◌∙◌, inl, inr, true, false, List, [], ◌∷◌, ◌++◌, arith, ◌==◌,
}
use avocad_os.Links.{
  Links, unlink, Chain, has, IsRing, has-append, Chain-append, Chain-split, Chain-frame,
  IsRing-rotate, IsRing-rotate_back, Distinct-back, unsnoc,
}

-- `l'` is `l` with `t` put between `a` and `b`.
pub record Spliced (l l' : Links) (a t b : ℕ) : Type 0 where
  pub next_a : l'.next a ≡ t
  pub prev_t : l'.prev t ≡ a
  pub next_t : l'.next t ≡ b
  pub prev_b : l'.prev b ≡ t
  pub other_next : (x : ℕ) → (x == a) ≡ false → (x == t) ≡ false → l'.next x ≡ l.next x
  pub other_prev : (x : ℕ) → (x == b) ≡ false → (x == t) ≡ false → l'.prev x ≡ l.prev x

-- `l'` is `l` with `t` taken out from between `a` and `b`.
pub record Unlinked (l l' : Links) (a t b : ℕ) : Type 0 where
  pub next_a : l'.next a ≡ b
  pub prev_b : l'.prev b ≡ a
  pub other_next : (x : ℕ) → (x == a) ≡ false → (x == t) ≡ false → l'.next x ≡ l.next x
  pub other_prev : (x : ℕ) → (x == b) ≡ false → (x == t) ≡ false → l'.prev x ≡ l.prev x

has-ne : (x y : ℕ) (xs : List ℕ) → has x xs ≡ true → has y xs ≡ false → (x == y) ≡ false
has-ne x y [] h k = cc
has-ne x y (z ∷ xs) h k = ground (arith, has-ne x y xs)

-- The new address stands behind the one that it was put after.
pub IsRing-splice :
    (l l' : Links) (a t b : ℕ) (xs : List ℕ)
    → IsRing l (a ∷ xs)
    → has t (a ∷ xs) ≡ false
    → l.next a ≡ b
    → Spliced l l' a t b
    → IsRing l' (a ∷ t ∷ xs)
IsRing-splice l l' a t b [] r fresh nb s =
    let e : b ≡ a = sym nb ∙ r.0.0 in
    ((s.next_a, s.prev_t, (s.next_t ∙ e, subst (λ q. l'.prev q ≡ t) e s.prev_b)), ground arith)
IsRing-splice l l' a t b (y ∷ ys) r fresh nb s =
    let e : b ≡ y = sym nb ∙ r.0.0 in
    let out_b : has b (ys ++ a ∷ []) ≡ false = ground (arith, has-append b ys (a ∷ [])) in
    let out_t : has t (ys ++ a ∷ []) ≡ false = ground (arith, has-append t ys (a ∷ [])) in
    (
      (
        s.next_a,
        s.prev_t,
        (
          s.next_t ∙ e,
          subst (λ q. l'.prev q ≡ t) e s.prev_b,
          Chain-frame l l' y ys a
              (λ x h.
                s.other_next x (has-ne x a (y ∷ ys) h (ground arith))
                  (has-ne x t (y ∷ ys) h (ground arith)))
              (λ x h.
                s.other_prev x (has-ne x b (ys ++ a ∷ []) h out_b)
                  (has-ne x t (ys ++ a ∷ []) h out_t))
              r.0.2,
        ),
      ),
      ground arith,
    )

-- Put in front of the first address, the new one ends the ring.
pub IsRing-splice_end :
    (l l' : Links) (a t x : ℕ) (xs : List ℕ)
    → IsRing l (x ∷ xs)
    → has t (x ∷ xs) ≡ false
    → l.prev x ≡ a
    → Spliced l l' a t x
    → IsRing l' (x ∷ xs ++ t ∷ [])
IsRing-splice_end l l' a t x xs r fresh pa s = elim (unsnoc xs) [
  | inl e ↦
      let r' : IsRing l (x ∷ []) = subst (λ ys. IsRing l (x ∷ ys)) e r in
      let ax : x ≡ a = sym r'.0.1 ∙ pa in
      subst (λ ys. IsRing l' (x ∷ ys ++ t ∷ [])) (sym e)
        (IsRing-splice l l' x t x [] r' (ground arith) r'.0.0
          (subst (λ q. Spliced l l' q t x) (sym ax) s))
  | inr (ys, z, e) ↦
      let r' : IsRing l (x ∷ ys ++ z ∷ []) = subst (λ ys. IsRing l (x ∷ ys)) e r in
      let back = IsRing-rotate_back l x ys z r' in
      let za : z ≡ a = sym back.0.1 ∙ pa in
      let fresh' : has t (x ∷ ys ++ z ∷ []) ≡ false =
        subst (λ ys. has t (x ∷ ys) ≡ false) e fresh in
      subst (λ ys. IsRing l' (x ∷ ys ++ t ∷ [])) (sym e)
        (IsRing-rotate l' t x (ys ++ z ∷ []) (
          IsRing-rotate l' z t (x ∷ ys) (
            IsRing-splice l l' z t x (x ∷ ys) back
              (ground (arith, has-append t ys (z ∷ []), fresh')) back.0.0
              (subst (λ q. Spliced l l' q t x) (sym za) s))))
]

-- Without its first address the ring begins at the second.
pub IsRing-unlink :
    (l l' : Links) (a t x : ℕ) (xs : List ℕ)
    → IsRing l (t ∷ x ∷ xs)
    → l.prev t ≡ a
    → Unlinked l l' a t x
    → IsRing l' (x ∷ xs)
IsRing-unlink l l' a t x xs r pa s = elim (unsnoc xs) [
  | inl e ↦
      let r' : IsRing l (t ∷ x ∷ []) = subst (λ ys. IsRing l (t ∷ x ∷ ys)) e r in
      let ax : a ≡ x = sym pa ∙ r'.0.2.1 in
      subst (λ ys. IsRing l' (x ∷ ys)) (sym e)
        ((subst (λ q. l'.next q ≡ x) ax s.next_a, s.prev_b ∙ ax), ground arith)
  | inr (ys, z, e) ↦
      let r' : IsRing l (t ∷ x ∷ ys ++ z ∷ []) = subst (λ ys. IsRing l (t ∷ x ∷ ys)) e r in
      let (c, d) = Chain-split l x ys z [] t r'.0.2 in
      let az : a ≡ z = sym pa ∙ d.1 in
      let q = Distinct-back x ys z r'.1.1 in
      subst (λ ys. IsRing l' (x ∷ ys)) (sym e)
        (
          Chain-append l' x ys z [] x
              (Chain-frame l l' x ys z
                (λ y h.
                  s.other_next y
                    (has-ne y a (x ∷ ys) h (subst (λ w. has w (x ∷ ys) ≡ false) (sym az) q.0))
                    (has-ne y t (x ∷ ys) h (ground (arith, has-append t ys (z ∷ [])))))
                (λ y h.
                  s.other_prev y (has-ne y x (ys ++ z ∷ []) h r'.1.1.0)
                    (has-ne y t (ys ++ z ∷ []) h (ground arith)))
                c)
              (subst (λ q. l'.next q ≡ x) az s.next_a, s.prev_b ∙ az),
          r'.1.1,
        )
]

-- The links of a ring stay in it.
pub prev-mem :
    (l : Links) (a : ℕ) (xs : List ℕ) (b : ℕ) → Chain l a xs b → has (l.prev b) (a ∷ xs) ≡ true
prev-mem l a [] b c = ground arith
prev-mem l a (x ∷ xs) b c = ground (arith, prev-mem l x xs b c.2)

pub next-mem : (l : Links) (a : ℕ) (xs : List ℕ) → Chain l a xs a → has (l.next a) (a ∷ xs) ≡ true
next-mem l a [] c = ground arith
next-mem l a (x ∷ xs) c = ground arith

pub mem-ne : (x y : ℕ) (xs : List ℕ) → has x xs ≡ true → has y xs ≡ false → (x == y) ≡ false
mem-ne = has-ne

unlink-Unlinked :
    (l : Links) (t : ℕ)
    → (l.next t == t) ≡ false
    → (l.prev t == t) ≡ false
    → Unlinked l (unlink l t) (l.prev t) t (l.next t)
unfolding unlink
unlink-Unlinked l t ne ne' = record {
  next_a = ground arith;
  prev_b = ground arith;
  other_next = λ x h k. ground arith;
  other_prev = λ x h k. ground arith;
}

next-cleared : (l : Links) (t : ℕ) → (unlink l t).next t ≡ 0
unfolding unlink
next-cleared l t = ground arith

prev-cleared : (l : Links) (t : ℕ) → (unlink l t).prev t ≡ 0
unfolding unlink
prev-cleared l t = ground arith

-- The four writes of a removal leave a ring in the same order, and the links of `t` are cleared.
pub unlink-IsRing :
    (l : Links) (t x : ℕ) (xs : List ℕ)
    → IsRing l (t ∷ x ∷ xs)
    → IsRing (unlink l t) (x ∷ xs) × ((unlink l t).next t ≡ 0) × ((unlink l t).prev t ≡ 0)
unlink-IsRing l t x xs r =
    let ne = mem-ne (l.prev t) t (x ∷ xs) (prev-mem l x xs t r.0.2) r.1.0 in
    let unlinked : Unlinked l (unlink l t) (l.prev t) t x =
      subst (λ b. Unlinked l (unlink l t) (l.prev t) t b) r.0.0
        (unlink-Unlinked l t (ground arith) ne) in
    (
      IsRing-unlink l (unlink l t) (l.prev t) t x xs r refl unlinked,
      next-cleared l t,
      prev-cleared l t,
    )
