-- ===== src/Files/Tests.antt =====
-- The table of open files with one file, and the theorems about it there.
use avocad_os.Base.{
  ℕ, true, zero, suc, ◌≡◌, ◌≢◌, ◌<◌, refl, none, some, ◌∷◌, ◌==◌, if◌then◌else◌, replicate, get_or,
  arith, ok, done, fault, [],
}
use avocad_os.Str.Text.{strncmp, strncmp_loop, char_difference}
use avocad_os.Str.Text.{is_digit, numeric_char_to_digit}
use avocad_os.Disk.{disk_get}
use avocad_os.Paths.{
  pathparser_path_parse, pathparser_path_is_valid, pathparser_path_get_drive, parse_loop,
  next_slash,
}
use avocad_os.Paths.Parse.{print_path}
use avocad_os.Files.Open.{fopen, open_path, is_mode, FileOpened, fopen-FileOpened}
use avocad_os.Files.Stream.{fclose-Closed}
use avocad_os.Files.{
  open_mode_read, fclose, fs_register_fs, register_loop, fs_probe_fs, file_mode_from_string,
  FileTable, max_open_files, file_table_open_file, file_table_close_file,
}
use avocad_os.Files.Table.{
  IsValid, Opened, Closed, file_table_open_file-Opened, file_table_close_file-Closed,
}

-- The slot 0 holds the descriptor 64.
abbrev one_file : FileTable
one_file = record {
  table = 64 ∷ replicate 99 0;
  table_len = 100;
  fileno = λ q. if q == 64 then some 0 else none;
}

no_file : (n i : ℕ) → get_or {A = ℕ} (replicate n 0) i 0 ≡ 0
no_file zero i = refl
no_file (suc n) zero = refl
no_file (suc n) (suc i) = no_file n i

one_file-numbered :
    (i : ℕ)
    → i < max_open_files
    → get_or one_file.table i 0 ≢ 0
    → one_file.fileno (get_or one_file.table i 0) ≡ some i
one_file-numbered zero lt ne = refl
one_file-numbered (suc i) lt ne = absurd (ne (no_file 99 i))

one_file-IsValid : IsValid one_file
one_file-IsValid = record { len = refl; table_len_is = refl; numbered = one_file-numbered }

one_file-fresh : (j : ℕ) → j < max_open_files → get_or one_file.table j 0 ≢ 80
one_file-fresh zero lt e = absurd (omega arith)
one_file-fresh (suc j) lt e = let z = no_file 99 j in absurd (omega arith)

file_table_open_file-Opened_example : Opened one_file 80 (file_table_open_file one_file 80)
file_table_open_file-Opened_example =
    file_table_open_file-Opened one_file 80 one_file-IsValid one_file-fresh

file_table_close_file-Closed_example :
    ((file_table_close_file one_file 64).1 ≡ ok 0)
    × Closed one_file 64 0 (file_table_close_file one_file 64).0
file_table_close_file-Closed_example =
    file_table_close_file-Closed one_file 0 one_file-IsValid (omega arith)
      (λ e. absurd (omega arith))

fclose-Closed_example :
    (t' : FileTable) × (fclose (λ d. ok 7) one_file 64 ≡ done (t', ([], ok 7)))
    × Closed one_file 64 0 t'
    × (fclose (λ d. ok 7) t' 64 ≡ fault)
fclose-Closed_example =
    fclose-Closed (λ d. ok 7) one_file 0 (ok 7) one_file-IsValid (omega arith)
      (λ e. absurd (omega arith)) refl

read_mode : file_mode_from_string (114 ∷ 98 ∷ []) ≡ open_mode_read
unfolding file_mode_from_string strncmp strncmp_loop char_difference
read_mode = refl

-- The third file system goes behind the first two.
register_third : fs_register_fs (8 ∷ 16 ∷ replicate 8 0) 24 ≡ (8 ∷ 16 ∷ 24 ∷ replicate 7 0, ok 0)
unfolding fs_register_fs register_loop
register_third = refl

-- The second registered file system is not asked.
probe_second : fs_probe_fs (λ f. f == 16) (8 ∷ 16 ∷ replicate 8 0) ≡ fault
unfolding fs_probe_fs
probe_second = refl

-- "0:/a" with the mode "r".
fopen-FileOpened_example :
    FileOpened one_file 80
      (fopen true (λ parts mode. 7) 1 3 one_file 80 (print_path 0 (97 ∷ []) []) (114 ∷ []))
unfolding is_mode file_mode_from_string strncmp strncmp_loop char_difference
fopen-FileOpened_example =
    fopen-FileOpened (λ parts mode. 7) 1 3 one_file 80 (97 ∷ []) [] (114 ∷ []) one_file-IsValid
      one_file-fresh refl refl refl (ground arith) (omega arith) (omega arith) (omega arith)

-- There is no drive 1, and the clean-up goes through NULL.
no_drive : fopen true (λ parts mode. 7) 9 9 one_file 80 (49 ∷ 58 ∷ 47 ∷ 97 ∷ []) (114 ∷ []) ≡ fault
unfolding fopen open_path is_mode file_mode_from_string strncmp strncmp_loop char_difference
    pathparser_path_parse pathparser_path_is_valid pathparser_path_get_drive is_digit
    numeric_char_to_digit parse_loop next_slash disk_get
no_drive = refl
