-- ===== src/Paths.antt =====
-- src/fs/path_parser.c. A path is the list of its bytes before the NUL; `kzalloc` is taken as a
-- budget of calls that still return memory.
mod Tests
pub mod Parse
use avocad_os.Base.{
  ℕ, zero, suc, ◌+◌, ◌-◌, drop, Bool, true, false, ◌&&◌, Option, none, some, List, [], ◌∷◌, ltb,
  leb, ◌==◌, if◌then◌else◌, take, length, get_or, Outcome, done, fault, out_of_fuel, ◌>>=◌,
}
use avocad_os.Str.Text.{is_digit, numeric_char_to_digit}

-- MAX_PATH_LEN
abbrev pub max_path_len : ℕ
max_path_len = 250

-- `struct path_root`, with its list of parts.
pub record PathRoot : Type 0 where
  pub drive_number : ℕ
  pub first : List (List ℕ)

-- `pathparser_path_is_valid`: a digit, then ":/". 58 is ':', 47 is '/'.
unfoldable pub pathparser_path_is_valid : List ℕ → Bool
pathparser_path_is_valid path =
    leb 3 (length (take max_path_len path))
    && is_digit (get_or path 0 0)
    && (get_or path 1 0 == 58 && get_or path 2 0 == 47)

unfoldable pub pathparser_path_get_drive : List ℕ → ℕ
pathparser_path_get_drive path = numeric_char_to_digit (get_or path 0 0)

-- The bytes before the next slash, and what follows that slash; `none` if there is no slash, so that
-- the next pointer lies behind the end of the path.
unfoldable pub next_slash : List ℕ → List ℕ × Option (List ℕ)
next_slash [] = ([], none)
next_slash (c ∷ s) =
    let (part, rest) = next_slash s in
    elim (c == 47) [ true ↦ ([], some s) | false ↦ (c ∷ part, rest) ]

-- The loop of `pathparser_path_parse`. Each part takes two allocations, the segment and its text,
-- and neither result is tested.
unfoldable pub parse_loop : ℕ → ℕ → List ℕ → Outcome (List (List ℕ))
parse_loop zero budget path = out_of_fuel
parse_loop (suc fuel) budget path =
    let (part, rest) = next_slash path in
    elim part [
      | [] ↦ done []
      | c ∷ cs ↦ elim (ltb 1 budget) [
        | false ↦ fault
        | true ↦ elim rest [
          | none ↦ done ((c ∷ cs) ∷ [])
          | some path ↦ parse_loop fuel (budget - 2) path >>= (λ parts. done ((c ∷ cs) ∷ parts))
        ]
      ]
    ]

-- `pathparser_path_parse`; `none` is NULL.
unfoldable pub pathparser_path_parse : ℕ → ℕ → List ℕ → Outcome (Option PathRoot)
pathparser_path_parse fuel budget path = elim (pathparser_path_is_valid path) [
  | false ↦ done none
  | true ↦ elim (budget == 0) [
    | true ↦ done none
    | false ↦ parse_loop fuel (budget - 1) (drop 3 (take max_path_len path)) >>= (λ parts.
        done (some (record { drive_number = pathparser_path_get_drive path; first = parts })))
  ]
]
