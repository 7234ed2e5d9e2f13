-- ===== src/Memcheck/Tests.antt =====
-- One allocation in an empty table.
use avocad_os.Base.{ℕ, [], ◌∷◌, arith, pos}
use avocad_os.Memcheck.{MemcheckEntry, memcheck_allocate}
use avocad_os.Memcheck.Freed.{FreedOnce, memcheck_free-FreedOnce}

abbrev empty : ℕ → MemcheckEntry
empty b = record { blocks = 0; ptr = 0; filename = []; function = []; line = pos 0 }

memcheck_free-FreedOnce_example :
    FreedOnce 0x100000 empty 0x103000
      (memcheck_allocate 0x100000 empty 0x103000 9000 (97 ∷ []) (98 ∷ []) 7)
memcheck_free-FreedOnce_example =
    memcheck_free-FreedOnce 0x100000 empty 0x103000 9000 (97 ∷ []) (98 ∷ []) 7 (omega arith)
      (omega arith) (omega arith) (omega arith)
