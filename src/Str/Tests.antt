-- ===== src/Str/Tests.antt =====
-- The functions of string.c on short inputs, and the theorems about them there.
use avocad_os.Str.Number.{itoa, strchr, strchr_loop}
use avocad_os.Str.Number.Decimal.{Shows, itoa-Shows}
use avocad_os.Base.{
  some, negsuc, ℕ, ◌+◌, ◌<◌, ◌≡◌, ◌↔◌, refl, inr, false, List, [], ◌∷◌, arith, ◌==◌, if◌then◌else◌,
  pos, is_zero, done,
}
use avocad_os.Base.Memory.{Memory}
use avocad_os.Str.Mem.{memcpy, memcmp}
use avocad_os.Str.Mem.Laws.{copied, memcpy-copied, memcmp_iff}
use avocad_os.Str.Text.{
  to_upper, char_difference, strncmp, strncmp_loop, strncasecmp, strncasecmp_loop, strlen, strcpy,
}
use avocad_os.Str.Text.Compare.{IsText, AgreeCase}
use avocad_os.Str.Text.Length.{Holds, Copied, strlen-length, strcpy-Copied}

-- Every address holds its own number.
abbrev ramp : Memory
ramp a = a

memcpy-copied_example : memcpy ramp 100 50 7 106 ≡ copied ramp 100 50 7 106
memcpy-copied_example = memcpy-copied ramp 100 50 7 106 (inr (omega arith))

memcmp_iff_example : (memcmp ramp 10 20 3 ≡ 0) ↔ ((k : ℕ) → k < 3 → ramp (10 + k) ≡ ramp (20 + k))
memcmp_iff_example = memcmp_iff ramp 10 20 3

-- "AB" and "ABC"
abbrev ab : List ℕ
ab = 65 ∷ 66 ∷ []

abbrev abc : List ℕ
abc = 65 ∷ 66 ∷ 67 ∷ []

ab-IsText : IsText ab
ab-IsText = ground arith

abc-IsText : IsText abc
abc-IsText = ground arith

a-AgreeCase : AgreeCase (97 ∷ []) ab
unfolding to_upper
a-AgreeCase = (refl, tt)

-- A bound of 0 compares the whole strings.
strncmp_no_bound : is_zero (strncmp ab (65 ∷ 67 ∷ []) 0) ≡ false
unfolding strncmp strncmp_loop char_difference
strncmp_no_bound = refl

-- The last characters compared differ by their case.
strncasecmp_case : strncasecmp (97 ∷ []) (65 ∷ []) 1 ≡ pos 32
unfolding strncasecmp strncasecmp_loop to_upper char_difference
strncasecmp_case = refl

-- "AB" at 100
abbrev text : Memory
text a = if a == 100 then 65 else if a == 101 then 66 else 0

text-Holds : Holds text 100 ab
text-Holds = (refl, refl, (refl, refl, refl))

strlen-length_example : strlen 3 text 100 ≡ done 2
strlen-length_example = strlen-length 3 text 100 ab text-Holds (omega arith)

strcpy-Copied_example : (m' : Memory) × (strcpy 3 text 200 100 ≡ done m') × Copied text 200 ab m'
strcpy-Copied_example = strcpy-Copied 3 text 200 100 ab text-Holds (inr (omega arith)) (omega arith)

itoa-Shows_example :
    (m' : Memory) × (itoa text (negsuc 1204) 300 ≡ done m') × Shows (negsuc 1204) 300 m'
itoa-Shows_example = itoa-Shows text (negsuc 1204) 300 refl

-- The second letter.
strchr_found : strchr ab 66 ≡ some 1
unfolding strchr strchr_loop
strchr_found = refl
