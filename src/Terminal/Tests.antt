-- ===== src/Terminal/Tests.antt =====
-- The screen on short texts, and the theorems about it at a cursor before the end of a row.
use avocad_os.Base.{◌+◌, ◌*◌, ◌≡◌, refl, [], ◌∷◌, arith}
use avocad_os.Terminal.{
  Terminal, terminal_make_char, widen_char, terminal_put_char, terminal_put_str,
}
use avocad_os.Terminal.Cursor.{
  IsValid, Written, terminal_put_char-IsValid, terminal_put_str-Written,
}

-- The last cell but one of the screen.
abbrev screen : Terminal
screen = record { video = λ a. 0; row = 24; col = 78 }

screen-IsValid : IsValid screen
screen-IsValid = record { row_lt = omega arith; col_lt = omega arith }

terminal_put_char-IsValid_example : IsValid (terminal_put_char screen 10 15)
terminal_put_char-IsValid_example =
    terminal_put_char-IsValid screen 10 15 screen-IsValid (omega arith) (omega arith)

terminal_put_str-Written_example :
    Written screen (65 ∷ 200 ∷ 67 ∷ []) 15 (terminal_put_str screen (65 ∷ 200 ∷ 67 ∷ []) 15)
terminal_put_str-Written_example =
    terminal_put_str-Written screen (65 ∷ 200 ∷ 67 ∷ []) 15 screen-IsValid
      (omega arith, refl, (omega arith, refl, (omega arith, refl, tt))) (omega arith) (omega arith)

white_a : terminal_make_char 65 15 ≡ 15 * 256 + 65
unfolding terminal_make_char widen_char
white_a = refl

-- A signed char of 128 or more loses its colour.
sign_in_colour : terminal_make_char 200 1 ≡ 255 * 256 + 200
unfolding terminal_make_char widen_char
sign_in_colour = refl
