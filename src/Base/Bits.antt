-- ===== src/Base/Bits.antt =====
-- The native `bit_and` and `bit_or` on a number that is cut at a power of two.
use Prim.Native.Nat.{
  ℕ, zero, suc, ◌+◌, ◌*◌, ◌/◌, ◌%◌, ◌≤◌, ◌<◌, min, max, bit_and, bit_or, digits, bit_and-bitwise,
  bit_or-bitwise,
}
use mathlib.Core.Path.{◌≡◌, refl, ap, ap₂, sym, ◌∙◌}
use native.Mathlib.Omega.{arith}

-- Any fuel from the first number on gives the same digits.
module _ (z : ℕ → ℕ) (f : ℕ → ℕ → ℕ) where
  digits-zero : (k y : ℕ) → digits z f k zero y ≡ z y
  digits-zero zero y = refl
  digits-zero (suc k) y = refl

  digits-both : (k m x y : ℕ) → x ≤ k → x ≤ m → digits z f k x y ≡ digits z f m x y
  digits-both k m zero y p q = digits-zero k y ∙ sym (digits-zero m y)
  digits-both zero m (suc x) y p q = absurd (omega arith)
  digits-both (suc k) zero (suc x) y p q = absurd (omega arith)
  digits-both (suc k) (suc m) (suc x) y p q =
      let half = digits-both k m (suc x / 2) (y / 2) (omega arith) (omega arith) in
      ap (λ high. high * 2 + f (suc x % 2) (y % 2)) half

  digits-enough : (k a b : ℕ) → a ≤ k → digits z f k a b ≡ digits z f a a b
  digits-enough k a b le = digits-both k a a b le (omega arith)

-- The lowest digits, and those above them.
pub bit_or-step : (x y : ℕ) → bit_or x y ≡ bit_or (x / 2) (y / 2) * 2 + max (x % 2) (y % 2)
bit_or-step zero y = omega (arith, bit_or-bitwise 0 (y / 2), bit_or-bitwise 0 y)
bit_or-step (suc x) y =
    let half = bit_or-bitwise (suc x / 2) (y / 2) in
    let same = digits-enough (λ d. d) max x (suc x / 2) (y / 2) (omega arith) in
    let whole = bit_or-bitwise (suc x) y in omega arith

pub bit_and-step : (x y : ℕ) → bit_and x y ≡ bit_and (x / 2) (y / 2) * 2 + min (x % 2) (y % 2)
bit_and-step zero y = omega (arith, bit_and-bitwise 0 (y / 2), bit_and-bitwise 0 y)
bit_and-step (suc x) y =
    let half = bit_and-bitwise (suc x / 2) (y / 2) in
    let same = digits-enough (λ d. 0) min x (suc x / 2) (y / 2) (omega arith) in
    let whole = bit_and-bitwise (suc x) y in omega arith

-- `2 ^ k`, and `k` ones.
abbrev pub power : ℕ → ℕ
power zero = 1
power (suc k) = power k + power k

abbrev pub ones : ℕ → ℕ
ones zero = 0
ones (suc k) = ones k + ones k + 1

-- `x` times `2 ^ k`.
abbrev pub shifted : ℕ → ℕ → ℕ
shifted zero x = x
shifted (suc k) x = shifted k x + shifted k x

bit_or-zero_below : (bound x : ℕ) → x ≤ bound → bit_or x 0 ≡ x
bit_or-zero_below bound zero le = refl
bit_or-zero_below zero (suc x) le = absurd (omega arith)
bit_or-zero_below (suc bound) (suc x) le =
    let half = bit_or-zero_below bound (suc x / 2) (omega arith) in
    bit_or-step (suc x) 0 ∙ omega arith

bit_and-zero_below : (bound x : ℕ) → x ≤ bound → bit_and x 0 ≡ 0
bit_and-zero_below bound zero le = refl
bit_and-zero_below zero (suc x) le = absurd (omega arith)
bit_and-zero_below (suc bound) (suc x) le =
    let half = bit_and-zero_below bound (suc x / 2) (omega arith) in
    bit_and-step (suc x) 0 ∙ omega arith

-- Low bits are added to a number that has none.
pub bit_or-shifted : (k x b : ℕ) → b < power k → bit_or (shifted k x) b ≡ shifted k x + b
bit_or-shifted zero x b lt =
    let e : b ≡ 0 = omega arith in
    ap (bit_or x) e ∙ bit_or-zero_below x x (omega arith) ∙ omega arith
bit_or-shifted (suc k) x b lt =
    let h : (shifted k x + shifted k x) / 2 ≡ shifted k x = omega arith in
    bit_or-step (shifted k x + shifted k x) b
    ∙ ap (λ y. bit_or y (b / 2) * 2 + max ((shifted k x + shifted k x) % 2) (b % 2)) h
    ∙ (let e = bit_or-shifted k x (b / 2) (omega arith) in omega arith)

-- A mask without low bits drops them.
pub bit_and-shifted :
    (k x f m : ℕ) → f < power k → bit_and (shifted k x + f) (shifted k m) ≡ shifted k (bit_and x m)
bit_and-shifted zero x f m lt = ap (λ y. bit_and y m) (omega arith)
bit_and-shifted (suc k) x f m lt =
    let h : (shifted k x + shifted k x + f) / 2 ≡ shifted k x + f / 2 = omega arith in
    let h' : (shifted k m + shifted k m) / 2 ≡ shifted k m = omega arith in
    bit_and-step (shifted k x + shifted k x + f) (shifted k m + shifted k m)
    ∙ ap₂
        (λ y w.
          bit_and y w * 2
          + min ((shifted k x + shifted k x + f) % 2) ((shifted k m + shifted k m) % 2))
        h h'
    ∙ (let e = bit_and-shifted k x (f / 2) m (omega arith) in omega arith)

-- A mask of ones keeps a number that has no more bits.
pub bit_and-ones : (k x : ℕ) → x < power k → bit_and x (ones k) ≡ x
bit_and-ones zero x lt = let e : x ≡ 0 = omega arith in bit_and-zero_below x x (omega arith) ∙ sym e
bit_and-ones (suc k) x lt =
    let h : (ones k + ones k + 1) / 2 ≡ ones k = omega arith in
    bit_and-step x (ones k + ones k + 1)
    ∙ ap (λ w. bit_and (x / 2) w * 2 + min (x % 2) ((ones k + ones k + 1) % 2)) h
    ∙ (let e = bit_and-ones k (x / 2) (omega arith) in omega arith)

-- It keeps the low bits of a longer one.
pub bit_and-low : (k x f : ℕ) → f < power k → bit_and (shifted k x + f) (ones k) ≡ f
bit_and-low zero x f lt =
    let e : f ≡ 0 = omega arith in bit_and-zero_below (x + f) (x + f) (omega arith) ∙ sym e
bit_and-low (suc k) x f lt =
    let h : (ones k + ones k + 1) / 2 ≡ ones k = omega arith in
    let h' : (shifted k x + shifted k x + f) / 2 ≡ shifted k x + f / 2 = omega arith in
    bit_and-step (shifted k x + shifted k x + f) (ones k + ones k + 1)
    ∙ ap₂
        (λ y w.
          bit_and y w * 2 + min ((shifted k x + shifted k x + f) % 2) ((ones k + ones k + 1) % 2))
        h' h
    ∙ (let e = bit_and-low k x (f / 2) (omega arith) in omega arith)

-- A mask of low bits does not see the high ones.
pub bit_and-small :
    (k x f m : ℕ) → f < power k → m < power k → bit_and (shifted k x + f) m ≡ bit_and f m
bit_and-small zero x f m lt lm =
    let e : m ≡ 0 = omega arith in
    ap (bit_and (x + f)) e
    ∙ bit_and-zero_below (x + f) (x + f) (omega arith)
    ∙ sym (ap (bit_and f) e ∙ bit_and-zero_below f f (omega arith))
bit_and-small (suc k) x f m lt lm =
    let h : (shifted k x + shifted k x + f) / 2 ≡ shifted k x + f / 2 = omega arith in
    bit_and-step (shifted k x + shifted k x + f) m
    ∙ ap (λ y. bit_and y (m / 2) * 2 + min ((shifted k x + shifted k x + f) % 2) (m % 2)) h
    ∙ (let e = bit_and-small k x (f / 2) (m / 2) (omega arith) (omega arith) in
        let s = bit_and-step f m in omega arith)
