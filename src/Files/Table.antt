-- ===== src/Files/Table.antt =====
-- What the table of open files keeps, and what it promises.
use avocad_os.Base.{
  ℕ, zero, suc, ◌+◌, ◌≤◌, ◌<◌, ◌≡◌, ◌≢◌, ◌∙◌, refl, sym, subst, inl, inr, true, false, Option, none,
  some, arith, ltb, ◌==◌, Bool-cases, Option-cases, lt→ltb, get_or, set, length, length-set,
  get_or-set_self, get_or-set_ne, Result, ok, err, emfile,
}
use avocad_os.Files.{
  FileTable, max_open_files, find_slot, file_table_find_free_slot, set_fileno, file_table_open_file,
  file_table_close_file, file_table_get_descriptor,
}

-- The table has its length, and the descriptor of every slot in use has the number of that slot.
pub record IsValid (t : FileTable) : Type 0 where
  pub len : length t.table ≡ max_open_files
  pub table_len_is : t.table_len ≡ max_open_files
  pub numbered :
      (i : ℕ) → i < max_open_files → get_or t.table i 0 ≢ 0 → t.fileno (get_or t.table i 0) ≡ some i

-- What the search for a slot says: the first free one, or that none is free.
abbrev pub FirstFree : FileTable → ℕ → ℕ → Option ℕ → Type 0
FirstFree t i j none = (x : ℕ) → i ≤ x → x < j → get_or t.table x 0 ≢ 0
FirstFree t i j (some k) =
    (i ≤ k)
    × (k < j)
    × (get_or t.table k 0 ≡ 0)
    × ((x : ℕ) → i ≤ x → x < k → get_or t.table x 0 ≢ 0)

after-taken :
    (t : FileTable) (i j : ℕ)
    → get_or t.table i 0 ≢ 0
    → ((x : ℕ) → i + 1 ≤ x → x < j → get_or t.table x 0 ≢ 0)
    → (x : ℕ) → i ≤ x
    → x < j
    → get_or t.table x 0 ≢ 0
after-taken t i j ne f x lo hi = elim (Bool-cases (x == i)) [
  | inl e ↦ let e' : i ≡ x = ground arith in subst (λ q. get_or t.table q 0 ≢ 0) e' ne
  | inr e ↦ f x (ground arith) hi
]

FirstFree-step :
    (t : FileTable) (i j : ℕ) (o : Option ℕ)
    → get_or t.table i 0 ≢ 0
    → FirstFree t (i + 1) j o
    → FirstFree t i j o
FirstFree-step t i j none ne f = after-taken t i j ne f
FirstFree-step t i j (some k) ne f = (omega arith, f.1, f.2, after-taken t i k ne f.3)

find-hit :
    (t : FileTable) (k i : ℕ) → (get_or t.table i 0 == 0) ≡ true → find_slot t (suc k) i ≡ some i
unfolding find_slot
find-hit t k i e = rw (find_slot, e)

find-miss :
    (t : FileTable) (k i : ℕ)
    → (get_or t.table i 0 == 0) ≡ false
    → find_slot t (suc k) i ≡ find_slot t k (i + 1)
unfolding find_slot
find-miss t k i e = rw (find_slot, e)

find_slot-FirstFree : (t : FileTable) (k i j : ℕ) → i + k ≡ j → FirstFree t i j (find_slot t k i)
unfolding find_slot
find_slot-FirstFree t zero i j e = λ x lo hi. absurd (omega arith)
find_slot-FirstFree t (suc k) i j e = elim (Bool-cases (get_or t.table i 0 == 0)) [
  | inl h ↦
      subst (FirstFree t i j) (sym (find-hit t k i h))
        (omega arith, omega arith, ground arith, λ x lo hi. absurd (omega arith))
  | inr h ↦ subst (FirstFree t i j) (sym (find-miss t k i h)) (
      FirstFree-step t i j (find_slot t k (i + 1)) (ground arith)
        (find_slot-FirstFree t k (i + 1) j (omega arith)))
]

-- The table after a descriptor was put into a slot.
opened : FileTable → ℕ → ℕ → FileTable
opened t d i = record (set_fileno t d (some i)) { table = set t.table i d }

-- What `file_table_open_file` did: the descriptor got the lowest free slot and its number, and the
-- other slots stay; or every slot is in use, and the table stays.
abbrev pub Opened : FileTable → ℕ → FileTable × Result ℕ → Type 0
Opened t d (t', ok i) =
    FirstFree t 0 max_open_files (some i)
    × (file_table_get_descriptor t' i ≡ d)
    × (t'.fileno d ≡ some i)
    × ((j : ℕ) → i ≢ j → get_or t'.table j 0 ≡ get_or t.table j 0)
    × IsValid t'
Opened t d (t', err e) = (e ≡ emfile) × (t' ≡ t) × FirstFree t 0 max_open_files none

opened-IsValid :
    (t : FileTable) (d i : ℕ)
    → IsValid t
    → ((j : ℕ) → j < max_open_files → get_or t.table j 0 ≢ d)
    → i < max_open_files
    → IsValid (opened t d i)
unfolding opened
opened-IsValid t d i v fresh lt = record {
  len = length-set t.table i d ∙ v.len;
  table_len_is = v.table_len_is;
  numbered = λ j hj ne. elim (Bool-cases (i == j)) [
    | inl e ↦
        let ij : i ≡ j = ground arith in
        let l = v.len in
        let s : get_or (set t.table i d) j 0 ≡ d =
          subst (λ q. get_or (set t.table i d) q 0 ≡ d) ij
            (get_or-set_self t.table i d 0 (omega arith)) in
        ground arith
    | inr e ↦
        let s = get_or-set_ne t.table i j d 0 (ground arith) in
        let f = fresh j hj in let n = v.numbered j hj (λ q. ne (s ∙ q)) in ground arith
  ];
}

open-at :
    (t : FileTable) (d i : ℕ)
    → file_table_find_free_slot t ≡ ok i
    → file_table_open_file t d ≡ (opened t d i, ok i)
unfolding file_table_open_file opened
open-at t d i e = rw (file_table_open_file, e)

open-full :
    (t : FileTable) (d e : ℕ)
    → file_table_find_free_slot t ≡ err e
    → file_table_open_file t d ≡ (t, err e)
unfolding file_table_open_file
open-full t d e h = rw (file_table_open_file, h)

slot-some :
    (t : FileTable) (i : ℕ)
    → find_slot t t.table_len 0 ≡ some i
    → file_table_find_free_slot t ≡ ok i
unfolding file_table_find_free_slot
slot-some t i e = rw (file_table_find_free_slot, e)

slot-none :
    (t : FileTable) → find_slot t t.table_len 0 ≡ none → file_table_find_free_slot t ≡ err emfile
unfolding file_table_find_free_slot
slot-none t e = rw (file_table_find_free_slot, e)

opened-found :
    (t : FileTable) (d i : ℕ)
    → IsValid t
    → i < max_open_files
    → file_table_get_descriptor (opened t d i) i ≡ d
unfolding file_table_get_descriptor opened
opened-found t d i v lt =
    let l = v.len in
    let n = v.table_len_is in let s = get_or-set_self t.table i d 0 (omega arith) in ground arith

opened-fileno : (t : FileTable) (d i : ℕ) → (opened t d i).fileno d ≡ some i
unfolding opened
opened-fileno t d i = ground arith

opened-others :
    (t : FileTable) (d i j : ℕ) → i ≢ j → get_or (opened t d i).table j 0 ≡ get_or t.table j 0
unfolding opened
opened-others t d i j ne = get_or-set_ne t.table i j d 0 ne

-- A descriptor that is in no slot of a valid table is opened into the lowest free slot, where
-- `file_table_get_descriptor` finds it; it gets the number of the slot, the other slots stay, and
-- the table stays valid. The call fails with EMFILE only if every slot is in use, and then nothing
-- changes.
pub file_table_open_file-Opened :
    (t : FileTable) (descriptor : ℕ)
    → IsValid t
    → ((j : ℕ) → j < max_open_files → get_or t.table j 0 ≢ descriptor)
    → Opened t descriptor (file_table_open_file t descriptor)
file_table_open_file-Opened t d v fresh =
    let f =
      find_slot-FirstFree t t.table_len 0 max_open_files (let n = v.table_len_is in omega arith) in
    elim (Option-cases (find_slot t t.table_len 0)) [
      | inl e ↦
          subst (Opened t d) (sym (open-full t d emfile (slot-none t e)))
            (refl, refl, subst (FirstFree t 0 max_open_files) e f)
      | inr (i, e) ↦
          let g = subst (FirstFree t 0 max_open_files) e f in
          subst (Opened t d) (sym (open-at t d i (slot-some t i e))) (
            g,
            opened-found t d i v g.1,
            opened-fileno t d i,
            λ j ne. opened-others t d i j ne,
            opened-IsValid t d i v fresh g.1,
          )
    ]

closed : FileTable → ℕ → ℕ → FileTable
closed t d i = set_fileno (record t { table = set t.table i 0 }) d none

close-at :
    (t : FileTable) (d i : ℕ)
    → t.fileno d ≡ some i
    → ltb i t.table_len ≡ true
    → file_table_close_file t d ≡ (closed t d i, ok 0)
unfolding file_table_close_file closed
close-at t d i e h = rw (file_table_close_file, e, h)

-- What `file_table_close_file` did: the slot is free, the descriptor has no number, and the other
-- slots and numbers stay.
pub record Closed (t : FileTable) (d i : ℕ) (t' : FileTable) : Type 0 where
  pub free : file_table_get_descriptor t' i ≡ 0
  pub no_number : t'.fileno d ≡ none
  pub slots : (j : ℕ) → i ≢ j → get_or t'.table j 0 ≡ get_or t.table j 0
  pub numbers : (q : ℕ) → d ≢ q → t'.fileno q ≡ t.fileno q
  pub valid : IsValid t'

closed-IsValid :
    (t : FileTable) (d i : ℕ)
    → IsValid t
    → i < max_open_files
    → t.fileno d ≡ some i
    → IsValid (closed t d i)
unfolding closed
closed-IsValid t d i v lt e = record {
  len = length-set t.table i 0 ∙ v.len;
  table_len_is = v.table_len_is;
  numbered = λ j hj ne. elim (Bool-cases (i == j)) [
    | inl ij ↦
        let ij : i ≡ j = ground arith in
        let l = v.len in
        absurd (
          ne (
            subst (λ q. get_or (set t.table i 0) q 0 ≡ 0) ij
              (get_or-set_self t.table i 0 0 (omega arith))))
    | inr ij ↦
        let s = get_or-set_ne t.table i j 0 0 (ground arith) in
        let n = v.numbered j hj (λ q. ne (s ∙ q)) in ground arith
  ];
}

closed-Closed :
    (t : FileTable) (d i : ℕ)
    → IsValid t
    → i < max_open_files
    → t.fileno d ≡ some i
    → Closed t d i (closed t d i)
unfolding closed file_table_get_descriptor
closed-Closed t d i v lt e =
    let l = v.len in
    let s = get_or-set_self t.table i 0 0 (omega arith) in
    record {
      free = ground arith;
      no_number = ground arith;
      slots = λ j ne. get_or-set_ne t.table i j 0 0 ne;
      numbers = λ q ne. ground arith;
      valid = closed-IsValid t d i v lt e;
    }

-- The descriptor of a slot in use of a valid table is closed with the result 0: its slot is free
-- again and no other, it loses its number and no other descriptor does, and the table stays valid.
pub file_table_close_file-Closed :
    (t : FileTable) (i : ℕ)
    → IsValid t
    → i < max_open_files
    → get_or t.table i 0 ≢ 0
    → ((file_table_close_file t (get_or t.table i 0)).1 ≡ ok 0)
      × Closed t (get_or t.table i 0) i (file_table_close_file t (get_or t.table i 0)).0
file_table_close_file-Closed t i v lt ne =
    let d = get_or t.table i 0 in
    let e = v.numbered i lt ne in
    let n = v.table_len_is in
    let c = close-at t d i e (lt→ltb i t.table_len (omega arith)) in
    rw c (refl, closed-Closed t d i v lt e)
