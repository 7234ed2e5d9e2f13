-- ===== src/Terminal.antt =====
-- src/termio/termio.c: the text screen of 80 columns and 25 rows. A string is the list of its bytes
-- before the NUL; a `char` is signed.
mod Tests
pub mod Cursor
use avocad_os.Base.{
  ℕ, zero, suc, ◌+◌, ◌-◌, ◌*◌, ◌%◌, ◌^◌, bit_or, Bool, true, false, List, [], ◌∷◌, ltb, ◌==◌,
  if◌then◌else◌,
}
use avocad_os.Base.Memory.{Memory, write}

abbrev pub vga_width : ℕ
vga_width = 80

abbrev pub vga_height : ℕ
vga_height = 25

-- `video_memory`, `terminal_row` and `terminal_column`.
pub record Terminal : Type 0 where
  pub video : Memory
  pub row : ℕ
  pub col : ℕ

-- A byte as a signed `char`, widened to 32 bits.
unfoldable pub widen_char : ℕ → ℕ
widen_char c = if ltb c 128 then c else c + (2 ^ 32 - 2 ^ 8)

-- `(colour << 8) | c`, cut to 16 bits.
unfoldable pub terminal_make_char : ℕ → ℕ → ℕ
terminal_make_char c colour = bit_or (colour * 2 ^ 8) (widen_char c) % 2 ^ 16

unfoldable pub terminal_print_char_x_y : Terminal → ℕ → ℕ → ℕ → Terminal
terminal_print_char_x_y t character x y = record t {
  video = write t.video ((y * vga_width + x) % (vga_height * vga_width)) character;
}

-- The inner loop of `terminal_init`, with `k` columns left from column `x` on.
unfoldable pub clear_row : Terminal → ℕ → ℕ → ℕ → ℕ → Terminal
clear_row t filler zero x y = t
clear_row t filler (suc k) x y = clear_row (terminal_print_char_x_y t filler x y) filler k (x + 1) y

-- The outer loop, with `k` rows left from row `y` on.
unfoldable pub clear_rows : Terminal → ℕ → ℕ → ℕ → Terminal
clear_rows t filler zero y = t
clear_rows t filler (suc k) y = clear_rows (clear_row t filler vga_width 0 y) filler k (y + 1)

unfoldable pub terminal_init : Memory → Terminal
terminal_init video =
    clear_rows (record { video = video; row = 0; col = 0 }) (terminal_make_char 32 0) vga_height 0

-- `terminal_put_char`; 10 is the newline.
unfoldable pub terminal_put_char : Terminal → ℕ → ℕ → Terminal
terminal_put_char t character colour = elim (character == 10) [
  | true ↦ let t = record t { row = (t.row + 1) % vga_height } in record t { col = 0 }
  | false ↦
      let t' = terminal_print_char_x_y t (terminal_make_char character colour) t.col t.row in
      let t' = record t' { col = t.col + 1 } in
      elim (t'.col == vga_width) [
        | true ↦ let t' = record t' { col = 0 } in record t' { row = (t'.row + 1) % vga_height }
        | false ↦ t'
      ]
]

unfoldable pub terminal_put_str : Terminal → List ℕ → ℕ → Terminal
terminal_put_str t [] colour = t
terminal_put_str t (c ∷ str) colour = terminal_put_str (terminal_put_char t c colour) str colour

-- The loop of `terminal_print_string_x_y` from a cell on.
unfoldable pub print_string : Memory → List ℕ → ℕ → ℕ → Memory
print_string video [] colour index = video
print_string video (c ∷ str) colour index =
    let video = write video index (terminal_make_char c colour) in
    print_string video str colour ((index + 1) % (vga_width * vga_height))

unfoldable pub terminal_print_string_x_y : Terminal → List ℕ → ℕ → ℕ → ℕ → Terminal
terminal_print_string_x_y t str colour x y = record t {
  video = print_string t.video str colour (y * vga_width + x);
}

unfoldable pub print : Terminal → List ℕ → Terminal
print t str = terminal_put_str t str 15

unfoldable pub print_char : Terminal → ℕ → Terminal
print_char t chr = terminal_put_char t chr 15
