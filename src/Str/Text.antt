-- ===== src/Str/Text.antt =====
-- src/string/string.c: the operations on strings. Where a function only reads, a string is the list
-- of its bytes before the NUL; a `char` is signed.
pub mod Compare
pub mod Length
use avocad_os.Base.{
  ℕ, zero, suc, ◌+◌, ◌-◌, ◌%◌, Bool, true, false, ◌&&◌, List, [], ◌∷◌, ltb, leb, ◌==◌,
  if◌then◌else◌, ℤ, difference, Outcome, done, out_of_fuel,
}
use avocad_os.Base.Memory.{Memory, write}

-- `to_upper` and `to_lower`, on bytes of ASCII letters and on any others.
unfoldable pub to_upper : ℕ → ℕ
to_upper c = if leb 97 c && leb c 122 then c - 32 else c

unfoldable pub to_lower : ℕ → ℕ
to_lower c = if leb 65 c && leb c 90 then c + 32 else c

-- The difference of two bytes as signed `char`: 128 more of each, modulo 256, keeps it.
unfoldable pub char_difference : ℕ → ℕ → ℤ
char_difference a b = difference ((a + 128) % 256) ((b + 128) % 256)

-- `*s`
abbrev pub first : List ℕ → ℕ
first [] = 0
first (c ∷ s) = c

unfoldable pub strcmp : List ℕ → List ℕ → ℤ
strcmp [] s2 = char_difference 0 (first s2)
strcmp (a ∷ s1) [] = char_difference a 0
strcmp (a ∷ s1) (b ∷ s2) = elim (a == b) [ true ↦ strcmp s1 s2 | false ↦ char_difference a b ]

-- The loop of `strncmp`, with `i` characters compared.
unfoldable pub strncmp_loop : ℕ → ℕ → List ℕ → List ℕ → ℤ
strncmp_loop n i [] s2 = char_difference 0 (first s2)
strncmp_loop n i (a ∷ s1) [] = char_difference a 0
strncmp_loop n i (a ∷ s1) (b ∷ s2) = elim (a == b) [
  | false ↦ char_difference a b
  | true ↦ elim (i + 1 == n) [ true ↦ char_difference a b | false ↦ strncmp_loop n (i + 1) s1 s2 ]
]

unfoldable pub strncmp : List ℕ → List ℕ → ℕ → ℤ
strncmp s1 s2 n = strncmp_loop n 0 s1 s2

-- The loop of `strcasecmp`, with `char_s1` and `char_s2`.
unfoldable pub strcasecmp_loop : ℕ → ℕ → List ℕ → List ℕ → ℤ
strcasecmp_loop c1 c2 [] s2 = char_difference c1 c2
strcasecmp_loop c1 c2 (a ∷ s1) [] = char_difference c1 c2
strcasecmp_loop c1 c2 (a ∷ s1) (b ∷ s2) =
    let c1 = to_upper a in
    let c2 = to_upper b in
    elim (c1 == c2) [ true ↦ strcasecmp_loop c1 c2 s1 s2 | false ↦ char_difference c1 c2 ]

unfoldable pub strcasecmp : List ℕ → List ℕ → ℤ
strcasecmp s1 s2 = strcasecmp_loop 0 0 s1 s2

-- The loop of `strncasecmp`, which returns the difference of the characters as they are.
unfoldable pub strncasecmp_loop : ℕ → ℕ → List ℕ → List ℕ → ℤ
strncasecmp_loop n i [] s2 = char_difference 0 (first s2)
strncasecmp_loop n i (a ∷ s1) [] = char_difference a 0
strncasecmp_loop n i (a ∷ s1) (b ∷ s2) = elim (to_upper a == to_upper b) [
  | false ↦ char_difference a b
  | true ↦ elim (i + 1 == n) [
    | true ↦ char_difference a b
    | false ↦ strncasecmp_loop n (i + 1) s1 s2
  ]
]

unfoldable pub strncasecmp : List ℕ → List ℕ → ℕ → ℤ
strncasecmp s1 s2 n = strncasecmp_loop n 0 s1 s2

-- `strlen` on fuel, with `len` characters counted.
unfoldable pub strlen_loop : Memory → ℕ → ℕ → ℕ → Outcome ℕ
strlen_loop m str zero len = out_of_fuel
strlen_loop m str (suc fuel) len = elim (m (str + len) == 0) [
  | true ↦ done len
  | false ↦ strlen_loop m str fuel (len + 1)
]

unfoldable pub strlen : ℕ → Memory → ℕ → Outcome ℕ
strlen fuel m str = strlen_loop m str fuel 0

-- `strnlen`, with `k` characters left until `max_len`.
unfoldable pub strnlen_loop : Memory → ℕ → ℕ → ℕ → ℕ
strnlen_loop m str zero len = len
strnlen_loop m str (suc k) len = elim (m (str + len) == 0) [
  | true ↦ len
  | false ↦ strnlen_loop m str k (len + 1)
]

unfoldable pub strnlen : Memory → ℕ → ℕ → ℕ
strnlen m str max_len = strnlen_loop m str max_len 0

-- `strcpy` on fuel: the memory after it.
unfoldable pub strcpy : ℕ → Memory → ℕ → ℕ → Outcome Memory
strcpy zero m ptr src = out_of_fuel
strcpy (suc fuel) m ptr src = elim (m src == 0) [
  | true ↦ done (write m ptr 0)
  | false ↦ strcpy fuel (write m ptr (m src)) (ptr + 1) (src + 1)
]

-- The second loop of `strncpy`, with `k` bytes left.
unfoldable pub strncpy_pad : Memory → ℕ → ℕ → ℕ → Memory
strncpy_pad m dest zero i = m
strncpy_pad m dest (suc k) i = strncpy_pad (write m (dest + i) 0) dest k (i + 1)

-- The first loop of `strncpy`, with `k` bytes left.
unfoldable pub strncpy_loop : Memory → ℕ → ℕ → ℕ → ℕ → Memory
strncpy_loop m dest src zero i = m
strncpy_loop m dest src (suc k) i = elim (m (src + i) == 0) [
  | true ↦ strncpy_pad m dest (suc k) i
  | false ↦ strncpy_loop (write m (dest + i) (m (src + i))) dest src k (i + 1)
]

unfoldable pub strncpy : Memory → ℕ → ℕ → ℕ → Memory
strncpy m dest src n = strncpy_loop m dest src n 0

unfoldable pub is_digit : ℕ → Bool
is_digit c = leb 48 c && leb c 57

-- `numeric_char_to_digit`, of a byte of at least '0'.
unfoldable pub numeric_char_to_digit : ℕ → ℕ
numeric_char_to_digit c = c - 48

-- `digit_to_char` of a number from 0 on; 69 is 'E'.
unfoldable pub digit_to_char : ℕ → ℕ
digit_to_char c = if ltb 9 c then 69 else 48 + c
