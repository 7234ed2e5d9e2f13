-- ===== src/Str/Mem/Laws.antt =====
-- What the block operations of src/string/string.c do to memory.
use avocad_os.Base.{
  ℕ, zero, suc, ◌+◌, ◌-◌, ◌*◌, ◌/◌, ◌%◌, ◌≤◌, ◌<◌, ◌≡◌, refl, ◌∙◌, ◌⊎◌, ◌↔◌, Bool, true, false, not,
  ◌&&◌, ◌||◌, inl, inr, Bool-cases, arith, ltb, leb, ◌==◌, if◌then◌else◌, holds_below,
  holds_below_at,
}
use native.Mathlib.Nat.{mod-mod}
use avocad_os.Base.Memory.{Memory, write, fill}
use avocad_os.Str.Mem.{
  dword_value, store_dword, set_dwords, set_bytes, memset, copy_dword, copy_dwords, copy_bytes,
  memcpy, memcmp,
}

-- The four bytes of the word agree with the byte.
uniform : ℕ → ℕ → Bool
uniform v b =
    (v % 256 == b) && (v / 256 % 256 == b) && (v / 65536 % 256 == b) && (v / 16777216 % 256 == b)

-- The bytes that `memset` spreads over a word without loss.
abbrev pub spreads : ℕ → Bool
spreads b = ltb b 128 || b == 255

spread_table : holds_below (λ b. not (spreads b) || uniform (dword_value b) b) 256 ≡ true
unfolding holds_below uniform dword_value
spread_table = refl

loses_table : holds_below (λ b. spreads b || dword_value b / 256 % 256 == 255) 256 ≡ true
unfolding holds_below dword_value
loses_table = refl

uniform_of_spreads : (b : ℕ) → b < 256 → spreads b ≡ true → uniform (dword_value b) b ≡ true
uniform_of_spreads b lt h = ground (arith, holds_below_at _ 256 b lt spread_table)

set_bytes-fill : (k : ℕ) (m : Memory) (p b a : ℕ) → set_bytes k m p b a ≡ fill m p k b a
unfolding set_bytes
set_bytes-fill zero m p b a = ground arith
set_bytes-fill (suc k) m p b a = set_bytes-fill k (write m p b) (p + 1) b a ∙ ground arith

store_dword-fill :
    (m : Memory) (p v b a : ℕ) → uniform v b ≡ true → store_dword m p v a ≡ fill m p 4 b a
unfolding store_dword uniform
store_dword-fill m p v b a h = ground arith

set_dwords-fill :
    (k : ℕ) (m : Memory) (p v b a : ℕ)
    → uniform v b ≡ true
    → set_dwords k m p v a ≡ fill m p (4 * k) b a
unfolding set_dwords
set_dwords-fill zero m p v b a h = ground arith
set_dwords-fill (suc k) m p v b a h =
    set_dwords-fill k (store_dword m p v) (p + 4) v b a h
    ∙ ground (arith, store_dword-fill m p v b a h)

dword_value-mod : (c : ℕ) → dword_value c ≡ dword_value (c % 256)
unfolding dword_value
dword_value-mod c = rw (mod-mod c 256)

-- Where the byte `c` is below 128 or 255, `memset` stores it in exactly the `n` bytes from `s` on
-- and changes no other byte.
pub memset-fill :
    (m : Memory) (s c n a : ℕ)
    → spreads (c % 256) ≡ true
    → memset m s c n a ≡ fill m s n (c % 256) a
unfolding memset
memset-fill m s c n a h =
    set_bytes-fill (n % 4) (set_dwords (n / 4) m s (dword_value c)) (s + n / 4 * 4) (c % 256) a
    ∙ ground (
      arith,
      set_dwords-fill (n / 4) m s (dword_value c) (c % 256) a
          (rw (dword_value-mod c) (uniform_of_spreads (c % 256) (omega arith) h)),
    )

set_dwords_below : (k : ℕ) (m : Memory) (p v a : ℕ) → a < p → set_dwords k m p v a ≡ m a
unfolding set_dwords store_dword
set_dwords_below zero m p v a h = refl
set_dwords_below (suc k) m p v a h =
    set_dwords_below k (store_dword m p v) (p + 4) v a (omega arith) ∙ ground arith

store_dword-second :
    (k : ℕ) (m : Memory) (p v a : ℕ)
    → p ≤ a
    → a < p + 4 * k
    → (a - p) % 4 ≡ 1
    → set_dwords k m p v a ≡ v / 256 % 256
unfolding set_dwords store_dword
store_dword-second zero m p v a lo hi e = absurd (omega arith)
store_dword-second (suc k) m p v a lo hi e = elim (Bool-cases (a == p + 1)) [
  | inl hit ↦ set_dwords_below k (store_dword m p v) (p + 4) v a (ground arith) ∙ ground arith
  | inr miss ↦
      store_dword-second k (store_dword m p v) (p + 4) v a (ground arith) (omega arith)
        (ground arith)
]

second_byte : (c : ℕ) → spreads (c % 256) ≡ false → dword_value c / 256 % 256 ≡ 255
second_byte c h =
    rw (dword_value-mod c)
      (ground (arith, holds_below_at _ 256 (c % 256) (omega arith) loses_table))

-- For a byte `c` from 128 to 254 the sign of `char` spoils the words that `memset` writes: the
-- second byte of each whole word within the `n` bytes is 0xFF.
memset-sign :
    (m : Memory) (s c n k : ℕ)
    → spreads (c % 256) ≡ false
    → k < n / 4
    → memset m s c n (s + 4 * k + 1) ≡ 255
unfolding memset
memset-sign m s c n k h lt =
    set_bytes-fill (n % 4) (set_dwords (n / 4) m s (dword_value c)) (s + n / 4 * 4) (c % 256)
      (s + 4 * k + 1)
    ∙ ground
        (arith, store_dword-second (n / 4) m s (dword_value c) (s + 4 * k + 1), second_byte c h)

-- `m` after `n` bytes from `source` on were put at `dest`, read before any write.
abbrev pub copied : Memory → ℕ → ℕ → ℕ → Memory
copied m dest source n a = if leb dest a && ltb a (dest + n) then m (source + (a - dest)) else m a

-- A copy from low to high addresses reads nothing that it has already overwritten.
abbrev pub Forward : ℕ → ℕ → ℕ → Type 0
Forward dest source n = (dest ≤ source) ⊎ (source + n ≤ dest)

copy_bytes-copied :
    (k : ℕ) (m : Memory) (d s a : ℕ) → Forward d s k → copy_bytes k m d s a ≡ copied m d s k a
unfolding copy_bytes
copy_bytes-copied zero m d s a h = ground arith
copy_bytes-copied (suc k) m d s a h =
    copy_bytes-copied k (write m d (m s)) (d + 1) (s + 1) a (omega arith) ∙ ground arith

copy_dword-copied : (m : Memory) (d s a : ℕ) → copy_dword m d s a ≡ copied m d s 4 a
unfolding copy_dword
copy_dword-copied m d s a = ground arith

copy_dwords-copied :
    (k : ℕ) (m : Memory) (d s a : ℕ)
    → Forward d s (4 * k)
    → copy_dwords k m d s a ≡ copied m d s (4 * k) a
unfolding copy_dwords
copy_dwords-copied zero m d s a h = ground arith
copy_dwords-copied (suc k) m d s a h =
    copy_dwords-copied k (copy_dword m d s) (d + 4) (s + 4) a (omega arith)
    ∙ ground (arith, copy_dword-copied m d s a, copy_dword-copied m d s (s + 4 + (a - (d + 4))))

-- Where the destination does not lie above the start of a source that it overlaps, `memcpy` copies
-- the `n` bytes as they were before the call and changes no other byte.
pub memcpy-copied :
    (m : Memory) (dest source n a : ℕ)
    → Forward dest source n
    → memcpy m dest source n a ≡ copied m dest source n a
unfolding memcpy
memcpy-copied m d s n a h =
    copy_bytes-copied (n % 4) (copy_dwords (n / 4) m d s) (d + n / 4 * 4) (s + n / 4 * 4) a
      (omega arith)
    ∙ ground (
      arith,
      copy_dwords-copied (n / 4) m d s a,
      copy_dwords-copied (n / 4) m d s (s + n / 4 * 4 + (a - (d + n / 4 * 4))),
    )

memcmp-agree :
    (n : ℕ) (m : Memory) (s1 s2 : ℕ)
    → memcmp m s1 s2 n ≡ 0
    → (k : ℕ) → k < n
    → m (s1 + k) ≡ m (s2 + k)
unfolding memcmp
memcmp-agree zero m s1 s2 h k lt = absurd (omega arith)
memcmp-agree (suc n) m s1 s2 h zero lt = ground arith
memcmp-agree (suc n) m s1 s2 h (suc k) lt = elim (Bool-cases (m s1 == m s2)) [
  | inl e ↦ ground (arith, memcmp-agree n m (s1 + 1) (s2 + 1) (rw (e, memcmp) at h) k)
  | inr e ↦ ground arith
]

agree-memcmp :
    (n : ℕ) (m : Memory) (s1 s2 : ℕ)
    → ((k : ℕ) → k < n → m (s1 + k) ≡ m (s2 + k))
    → memcmp m s1 s2 n ≡ 0
unfolding memcmp
agree-memcmp zero m s1 s2 h = refl
agree-memcmp (suc n) m s1 s2 h =
    ground (arith, h 0, agree-memcmp n m (s1 + 1) (s2 + 1) (λ k lt. ground (arith, h (suc k))))

-- `memcmp` returns 0 exactly when the two blocks of `n` bytes are equal.
pub memcmp_iff :
    (m : Memory) (s1 s2 n : ℕ)
    → (memcmp m s1 s2 n ≡ 0) ↔ ((k : ℕ) → k < n → m (s1 + k) ≡ m (s2 + k))
memcmp_iff m s1 s2 n = (memcmp-agree n m s1 s2, agree-memcmp n m s1 s2)
