-- ===== src/Paths/Tests.antt =====
-- The parser on short paths, and the theorems about it at "0:/ab/c".
use avocad_os.Base.{ℕ, ◌≡◌, refl, none, some, List, [], ◌∷◌, arith, done, fault}
use avocad_os.Str.Text.{is_digit}
use avocad_os.Paths.{pathparser_path_is_valid, pathparser_path_parse}
use avocad_os.Paths.Parse.{
  AreParts, print_path, pathparser_path_parse-print_path, pathparser_path_parse-fault,
}

abbrev ab : List ℕ
ab = 97 ∷ 98 ∷ []

abbrev c : List ℕ
c = 99 ∷ []

parts-AreParts : AreParts (ab ∷ c ∷ [])
parts-AreParts = ground arith

pathparser_path_parse-print_path_example :
    pathparser_path_parse 2 5 (print_path 0 ab (c ∷ []))
    ≡ done (some (record { drive_number = 0; first = ab ∷ c ∷ [] }))
pathparser_path_parse-print_path_example =
    pathparser_path_parse-print_path 2 5 0 ab (c ∷ []) (omega arith) parts-AreParts (omega arith)
      (omega arith) (omega arith)

pathparser_path_parse-fault_example : pathparser_path_parse 2 4 (print_path 0 ab (c ∷ [])) ≡ fault
pathparser_path_parse-fault_example =
    pathparser_path_parse-fault 2 4 0 ab (c ∷ []) (omega arith) parts-AreParts (omega arith)
      (omega arith) (omega arith) (omega arith)

-- "0:a" is refused.
no_slash_refused : pathparser_path_parse 9 9 (48 ∷ 58 ∷ 97 ∷ []) ≡ done none
unfolding pathparser_path_parse pathparser_path_is_valid is_digit
no_slash_refused = refl
