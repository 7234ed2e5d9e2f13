-- ===== src/Files/Stream.antt =====
-- Closing a stream, and the registered file systems.
use avocad_os.Base.{
  ℕ, ◌<◌, ◌≡◌, ◌≢◌, refl, ap, zero, suc, arith, ◌==◌, List, false, err, none, some, [], ◌∷◌, lt→ltb,
  ne→==, get_or, Result, ok, done, fault,
}
use avocad_os.Files.{
  FileTable, max_open_files, file_table_close_file, table_entry, stream_entry, close_descriptor,
  fclose,
}
use avocad_os.Files.Table.{IsValid, Closed, file_table_close_file-Closed}

entry-done :
    (t : FileTable) (i : ℕ)
    → i < max_open_files
    → table_entry t (some i) ≡ done (get_or t.table i 0)
unfolding table_entry
entry-done t i lt = rw (table_entry, lt→ltb i max_open_files lt)

-- The descriptor is freed only after the result 0.
abbrev pub freed_by : Result ℕ → ℕ → List ℕ
freed_by (err e) d = []
freed_by (ok zero) d = d ∷ []
freed_by (ok (suc res)) d = []

close-step :
    (close : ℕ → Result ℕ) (t : FileTable) (d : ℕ) (res : Result ℕ)
    → d ≢ 0
    → (file_table_close_file t d).1 ≡ ok 0
    → close d ≡ res
    → close_descriptor close t d ≡ ((file_table_close_file t d).0, (freed_by res d, res))
unfolding close_descriptor
close-step close t d (err e) ne c k = rw (close_descriptor, ne→== d 0 ne, c, k) refl
close-step close t d (ok zero) ne c k = rw (close_descriptor, ne→== d 0 ne, c, k) refl
close-step close t d (ok (suc res)) ne c k =
    let n : (suc res == 0) ≡ false = ground arith in
    rw (close_descriptor, ne→== d 0 ne, c, k, n) refl

stream-entry : (t : FileTable) (d : ℕ) → d ≢ 0 → stream_entry t d ≡ table_entry t (t.fileno d)
unfolding stream_entry
stream-entry t d ne = rw (stream_entry, ne→== d 0 ne) refl

fclose-step :
    (close : ℕ → Result ℕ) (t : FileTable) (d i : ℕ) (res : Result ℕ)
    → t.fileno d ≡ some i
    → table_entry t (some i) ≡ done d
    → d ≢ 0
    → (file_table_close_file t d).1 ≡ ok 0
    → close d ≡ res
    → fclose close t d ≡ done ((file_table_close_file t d).0, (freed_by res d, res))
unfolding fclose
fclose-step close t d i res e f ne c k =
    rw (fclose, stream-entry t d ne, e, f) (ap (λ r. done r) (close-step close t d res ne c k))

fclose-fault :
    (close : ℕ → Result ℕ) (t : FileTable) (d : ℕ)
    → d ≢ 0
    → t.fileno d ≡ none
    → fclose close t d ≡ fault
unfolding fclose table_entry
fclose-fault close t d ne e = rw (fclose, stream-entry t d ne, e) refl

-- A stream in slot `i` of a valid table, whose file system closes it with some result or error, is
-- closed with the same: its slot is free again, it has lost its number, and the table stays valid. The
-- descriptor is freed if the result is 0, and kept for any other. A second `fclose` of it reads the
-- table at -1.
pub fclose-Closed :
    (close : ℕ → Result ℕ) (t : FileTable) (i : ℕ) (res : Result ℕ)
    → IsValid t
    → i < max_open_files
    → get_or t.table i 0 ≢ 0
    → close (get_or t.table i 0) ≡ res
    → (t' : FileTable) × (fclose close t (get_or t.table i 0)
        ≡ done (t', (freed_by res (get_or t.table i 0), res)))
      × Closed t (get_or t.table i 0) i t'
      × (fclose close t' (get_or t.table i 0) ≡ fault)
fclose-Closed close t i res v lt ne k =
    let d = get_or t.table i 0 in
    let (r, c) = file_table_close_file-Closed t i v lt ne in
    (
      (file_table_close_file t d).0,
      fclose-step close t d i res (v.numbered i lt ne) (entry-done t i lt) ne r k,
      c,
      fclose-fault close (file_table_close_file t d).0 d ne c.no_number,
    )
