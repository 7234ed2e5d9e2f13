-- ===== src/Str/Number.antt =====
-- src/string/string.c: numbers as text, and the search for a character.
pub mod Decimal
use avocad_os.Base.{
  ℕ, zero, suc, ◌+◌, ◌-◌, ◌*◌, ◌/◌, ◌%◌, ◌^◌, Bool, true, false, Option, none, some, List, [], ◌∷◌,
  ltb, ◌==◌, ℤ, pos, negsuc, Outcome, done, fault, out_of_fuel, ◌>>=◌,
}
use avocad_os.Base.Memory.{Memory, write}
use avocad_os.Str.Text.{digit_to_char}

-- An `int` has at most ten digits.
abbrev pub int_digits : ℕ
int_digits = 10

-- The first loop of `itoa`: the pointer behind the digits.
unfoldable pub count_digits : ℕ → (shifter ptr : ℕ) → Outcome ℕ
count_digits zero shifter ptr = out_of_fuel
count_digits (suc fuel) shifter ptr = elim (shifter / 10 == 0) [
  | true ↦ done (ptr + 1)
  | false ↦ count_digits fuel (shifter / 10) (ptr + 1)
]

-- The second loop, from the last digit on: the memory, and the pointer before the first digit.
unfoldable pub write_digits : ℕ → Memory → (shifter ptr : ℕ) → Outcome (Memory × ℕ)
write_digits zero m shifter ptr = out_of_fuel
write_digits (suc fuel) m shifter ptr =
    let m = write m ptr (digit_to_char (shifter % 10)) in
    elim (shifter / 10 == 0) [
      | true ↦ done (m, ptr - 1)
      | false ↦ write_digits fuel m (shifter / 10) (ptr - 1)
    ]

-- Both loops, for a number with its first digit at `ptr`.
unfoldable pub put_digits : Memory → (shifter ptr : ℕ) → Outcome (Memory × ℕ)
put_digits m shifter ptr =
    count_digits int_digits shifter ptr
    >>= (λ end. write_digits int_digits (write m end 0) shifter (end - 1))

-- `itoa` of an `int`; the negation of the least one overflows. 45 is '-'.
unfoldable pub itoa : Memory → ℤ → ℕ → Outcome Memory
itoa m (pos c) buf = elim (c == 0) [
  | true ↦ done (write (write m buf 48) (buf + 1) 0)
  | false ↦ put_digits m c buf >>= (λ r. done r.0)
]
itoa m (negsuc c) buf = elim (ltb (c + 1) (2 ^ 31)) [
  | false ↦ fault
  | true ↦ put_digits m (c + 1) (buf + 1) >>= (λ r. done (write r.0 r.1 45))
]

-- `strchr`: the place of an ASCII character in a string.
unfoldable pub strchr_loop : List ℕ → ℕ → ℕ → Option ℕ
strchr_loop [] c i = none
strchr_loop (a ∷ s) c i = elim (c == a) [ true ↦ some i | false ↦ strchr_loop s c (i + 1) ]

unfoldable pub strchr : List ℕ → ℕ → Option ℕ
strchr s c = strchr_loop s c 0
