-- ===== src/Terminal/Cursor.antt =====
-- The cursor and the cells of the screen.
use avocad_os.Base.{
  ℕ, zero, suc, ◌+◌, ◌*◌, ◌%◌, ◌≤◌, ◌<◌, ◌≡◌, ◌∙◌, refl, ap, inl, inr, true, false, List, [], ◌∷◌,
  arith, ◌==◌, Bool-cases, length, get_or, ne→==, ◌≢◌, sym, ap₂, ltb, if◌then◌else◌, holds_below,
  holds_below_at, ◌/◌,
}
use avocad_os.Base.Memory.{Memory, write}
use avocad_os.Terminal.{
  Terminal, vga_width, vga_height, terminal_make_char, widen_char, terminal_print_char_x_y,
  terminal_put_char, terminal_put_str,
}

-- The cursor is on the screen.
pub record IsValid (t : Terminal) : Type 0 where
  pub row_lt : t.row < vga_height
  pub col_lt : t.col < vga_width

abbrev pub cell_count : ℕ
cell_count = 2000

-- The cell of the cursor.
abbrev pub cursor : Terminal → ℕ
cursor t = t.row * vga_width + t.col

-- The word of a cell: the colour in the high byte and the character in the low one; a character from
-- 128 on, which is negative as a `char`, has all bits of the high byte set in place of the colour.
abbrev pub cell_word : ℕ → ℕ → ℕ
cell_word character colour =
    if ltb character 128 then colour * 256 + character else 0xFF00 + character

-- The colours of `enum VGA_COLOUR` are below 16.
cell_table :
    holds_below (λ x. terminal_make_char (x % 256) (x / 256) == cell_word (x % 256) (x / 256)) 4096
    ≡ true
unfolding holds_below terminal_make_char widen_char
cell_table = refl

terminal_make_char-cell :
    (character colour : ℕ)
    → character < 256
    → colour < 16
    → terminal_make_char character colour ≡ cell_word character colour
terminal_make_char-cell character colour lc lk =
    let x = colour * 256 + character in
    let low : x % 256 ≡ character = omega arith in
    let high : x / 256 ≡ colour = omega arith in
    let e : (terminal_make_char (x % 256) (x / 256) == cell_word (x % 256) (x / 256)) ≡ true =
      holds_below_at _ 4096 x (omega arith) cell_table in
    sym (ap₂ terminal_make_char low high) ∙ (let h = e in ground arith) ∙ ap₂ cell_word low high

pub record Advanced (t : Terminal) (character colour : ℕ) (t' : Terminal) : Type 0 where
  pub valid : IsValid t'
  pub cursor_is : cursor t' ≡ (cursor t + 1) % cell_count
  pub cell_is : t'.video (cursor t) ≡ cell_word character colour
  pub others : (a : ℕ) → (a == cursor t) ≡ false → t'.video a ≡ t.video a

put-row :
    (t : Terminal) (c colour : ℕ)
    → (c == 10) ≡ false
    → (t.col + 1 == vga_width) ≡ true
    → ((terminal_put_char t c colour).row ≡ (t.row + 1) % vga_height)
      × ((terminal_put_char t c colour).col ≡ 0)
unfolding terminal_put_char terminal_print_char_x_y
put-row t c colour n e = (rw (terminal_put_char, n, e), rw (terminal_put_char, n, e))

put-col :
    (t : Terminal) (c colour : ℕ)
    → (c == 10) ≡ false
    → (t.col + 1 == vga_width) ≡ false
    → ((terminal_put_char t c colour).row ≡ t.row)
      × ((terminal_put_char t c colour).col ≡ t.col + 1)
unfolding terminal_put_char terminal_print_char_x_y
put-col t c colour n e = (rw (terminal_put_char, n, e), rw (terminal_put_char, n, e))

put-video :
    (t : Terminal) (c colour : ℕ)
    → (c == 10) ≡ false
    → (terminal_put_char t c colour).video
      ≡ write t.video
          ((t.row * vga_width + t.col) % (vga_height * vga_width))
          (terminal_make_char c colour)
unfolding terminal_put_char terminal_print_char_x_y
put-video t c colour n = elim (Bool-cases (t.col + 1 == vga_width)) [
  | inl e ↦ rw (terminal_put_char, n, e)
  | inr e ↦ rw (terminal_put_char, n, e)
]

cursor_small :
    (t : Terminal) → IsValid t → (t.row * vga_width + t.col) % (vga_height * vga_width) ≡ cursor t
cursor_small t v = let a = v.row_lt in let b = v.col_lt in omega arith

-- A byte that is no newline, put with one of the 16 colours and the cursor on the screen, is written
-- into the cell of the cursor and into no other; the cursor moves to the next cell, from the last one to
-- the first, and stays on the screen.
pub terminal_put_char-Advanced :
    (t : Terminal) (character colour : ℕ)
    → IsValid t
    → character < 256
    → colour < 16
    → (character == 10) ≡ false
    → Advanced t character colour (terminal_put_char t character colour)
terminal_put_char-Advanced t c colour v lc lk n =
    let a = v.row_lt in
    let b = v.col_lt in
    let video : (terminal_put_char t c colour).video
        ≡ write t.video (cursor t) (terminal_make_char c colour) =
      put-video t c colour n
      ∙ ap (λ q. write t.video q (terminal_make_char c colour)) (cursor_small t v) in
    let cell = λ (a : ℕ). ap (λ (f : Memory). f a) video in
    let self : write t.video (cursor t) (terminal_make_char c colour) (cursor t)
        ≡ terminal_make_char c colour =
      ground arith in
    elim (Bool-cases (t.col + 1 == vga_width)) [
      | inl e ↦
          let (r, k) = put-row t c colour n e in
          let full : t.col + 1 ≡ vga_width = ground arith in
          record {
            valid = record { row_lt = omega arith; col_lt = omega arith };
            cursor_is = omega arith;
            cell_is = cell (cursor t) ∙ self ∙ terminal_make_char-cell c colour lc lk;
            others = λ a ne. cell a ∙ (ground arith);
          }
      | inr e ↦
          let (r, k) = put-col t c colour n e in
          let room : t.col + 1 < vga_width = ground arith in
          record {
            valid = record { row_lt = omega arith; col_lt = omega arith };
            cursor_is = omega arith;
            cell_is = cell (cursor t) ∙ self ∙ terminal_make_char-cell c colour lc lk;
            others = λ a ne. cell a ∙ (ground arith);
          }
    ]

newline-fields :
    (t : Terminal) (c colour : ℕ)
    → (c == 10) ≡ true
    → ((terminal_put_char t c colour).row ≡ (t.row + 1) % vga_height)
      × ((terminal_put_char t c colour).col ≡ 0)
      × ((terminal_put_char t c colour).video ≡ t.video)
unfolding terminal_put_char
newline-fields t c colour e =
    (rw (terminal_put_char, e), rw (terminal_put_char, e), rw (terminal_put_char, e))

-- Every character keeps the cursor on the screen.
pub terminal_put_char-IsValid :
    (t : Terminal) (c colour : ℕ)
    → IsValid t
    → c < 256
    → colour < 16
    → IsValid (terminal_put_char t c colour)
terminal_put_char-IsValid t c colour v lc lk = elim (Bool-cases (c == 10)) [
  | inl e ↦
      let (r, k, _) = newline-fields t c colour e in
      record { row_lt = omega arith; col_lt = omega arith }
  | inr e ↦ (terminal_put_char-Advanced t c colour v lc lk e).valid
]

-- What a text without newlines leaves on the screen: character `i` stands `i` cells behind the
-- cursor, and the cursor behind the text.
pub record Written (t : Terminal) (str : List ℕ) (colour : ℕ) (t' : Terminal) : Type 0 where
  pub valid : IsValid t'
  pub cursor_is : cursor t' ≡ (cursor t + length str) % cell_count
  pub text :
      (i : ℕ)
      → i < length str
      → t'.video ((cursor t + i) % cell_count) ≡ cell_word (get_or str i 0) colour
  pub others :
      (a : ℕ)
      → ((i : ℕ) → i < length str → a ≢ (cursor t + i) % cell_count)
      → t'.video a ≡ t.video a

-- Bytes, none of them a newline.
abbrev pub OneLine : List ℕ → Type 0
OneLine [] = Unit
OneLine (c ∷ str) = (c < 256) × ((c == 10) ≡ false) × OneLine str

cursor_lt : (t : Terminal) → IsValid t → cursor t < cell_count
cursor_lt t v = let a = v.row_lt in let b = v.col_lt in omega arith

Written-nil : (t : Terminal) (colour : ℕ) → IsValid t → Written t [] colour t
Written-nil t colour v =
    let lt = cursor_lt t v in
    record {
      valid = v;
      cursor_is = omega arith;
      text = λ i h. absurd (omega arith);
      others = λ a h. refl;
    }

Written-text :
    (t t' t'' : Terminal) (c : ℕ) (str : List ℕ) (colour : ℕ)
    → IsValid t
    → length str < cell_count
    → Advanced t c colour t'
    → Written t' str colour t''
    → (i : ℕ) → i < suc (length str)
    → t''.video ((cursor t + i) % cell_count) ≡ cell_word (get_or (c ∷ str) i 0) colour
Written-text t t' t'' c str colour v len a w zero h =
    let lt = cursor_lt t v in
    let e : (cursor t + 0) % cell_count ≡ cursor t = omega arith in
    let n = a.cursor_is in
    ap t''.video e ∙ w.others (cursor t) (λ i hi q. absurd (omega arith)) ∙ a.cell_is
Written-text t t' t'' c str colour v len a w (suc i) h =
    let n = a.cursor_is in
    let e : (cursor t + suc i) % cell_count ≡ (cursor t' + i) % cell_count = omega arith in
    ap t''.video e ∙ w.text i (omega arith)

Written-cons :
    (t t' t'' : Terminal) (c : ℕ) (str : List ℕ) (colour : ℕ)
    → IsValid t
    → length str < cell_count
    → Advanced t c colour t'
    → Written t' str colour t''
    → Written t (c ∷ str) colour t''
Written-cons t t' t'' c str colour v len a w =
    let lt = cursor_lt t v in
    let n = a.cursor_is in
    let k = w.cursor_is in
    record {
      valid = w.valid;
      cursor_is = omega arith;
      text = Written-text t t' t'' c str colour v len a w;
      others = λ p h.
          w.others p (λ i hi q. h (suc i) (omega arith) (q ∙ omega arith))
          ∙ a.others p (ne→== p (cursor t) (λ q. h 0 (omega arith) (omega arith)));
    }

-- A text of at most 2000 bytes without newlines, printed in one of the 16 colours with the cursor on
-- the screen, stands in the cells from the cursor on, round the end of the screen, in its order: a byte
-- below 128 below its colour in the cell's word, one from 128 on below 0xFF. No other cell changes,
-- and the cursor stands behind the text.
pub terminal_put_str-Written :
    (t : Terminal) (str : List ℕ) (colour : ℕ)
    → IsValid t
    → OneLine str
    → colour < 16
    → length str ≤ cell_count
    → Written t str colour (terminal_put_str t str colour)
unfolding terminal_put_str
terminal_put_str-Written t [] colour v o lk le = Written-nil t colour v
terminal_put_str-Written t (c ∷ str) colour v o lk le =
    let a = terminal_put_char-Advanced t c colour v o.0 lk o.1 in
    Written-cons t (terminal_put_char t c colour)
      (terminal_put_str (terminal_put_char t c colour) str colour) c str colour v (omega arith) a
      (terminal_put_str-Written (terminal_put_char t c colour) str colour a.valid o.2 lk
        (omega arith))
