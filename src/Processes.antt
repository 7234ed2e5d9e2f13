-- ===== src/Processes.antt =====
-- src/kernel/task/process.c: the ring of processes and the table of process slots. A process is its
-- address, 0 for NULL.
mod Tests
pub mod Laws
use avocad_os.Base.{
  ℕ, zero, suc, ◌+◌, Bool, true, false, Option, none, some, List, [], ◌∷◌, ltb, ◌==◌, if◌then◌else◌,
  get_or, set, Result, ok, err, einval, enomem,
}
use avocad_os.Links.{Links, set_next, set_prev, unlink}

-- MAX_PROCESSES
abbrev pub max_processes : ℕ
max_processes = 1024

-- `system_process` is the process of `system_task`; `processes` is the table.
pub record Processes : Type 0 where
  pub links : Links
  pub system_process : ℕ
  pub processes : List ℕ

-- `process_list_insert`: in front of the system process.
unfoldable pub process_list_insert : Processes → ℕ → Processes
process_list_insert s process =
    let l = set_next s.links process s.system_process in
    let l = set_prev l process (l.prev s.system_process) in
    let l = set_prev l s.system_process process in
    let l = set_next l (l.prev process) process in record s { links = l }

unfoldable pub process_list_remove : Processes → ℕ → Processes
process_list_remove s process = record s { links = unlink s.links process }

-- The slot of a process id from 0 on; -EINVAL, cast to a pointer, for an id out of range.
unfoldable pub process_get : Processes → ℕ → Result ℕ
process_get s pid = if ltb pid max_processes then ok (get_or s.processes pid 0) else err einval

-- Whether `!process_get(i)`: the cast error is no NULL.
unfoldable pub is_free_slot : Result ℕ → Bool
is_free_slot (ok p) = p == 0
is_free_slot (err e) = false

-- The loop of `process_load`, with `k` slots left from slot `i` on; `none` is -1.
unfoldable pub find_slot : Processes → ℕ → ℕ → Option ℕ
unfolding process_get is_free_slot
find_slot s zero i = none
find_slot s (suc k) i = elim (is_free_slot (process_get s i)) [
  | true ↦ some i
  | false ↦ find_slot s k (i + 1)
]

-- The slot that `process_load` hands to `process_init`, or ENOMEM.
unfoldable pub process_slot : Processes → Result ℕ
process_slot s = elim (find_slot s max_processes 0) [ none ↦ err enomem | some i ↦ ok i ]
