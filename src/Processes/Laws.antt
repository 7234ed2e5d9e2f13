-- ===== src/Processes/Laws.antt =====
-- What the process list and the process table of src/kernel/task/process.c keep.
use avocad_os.Base.{
  ℕ, zero, suc, ◌+◌, ◌≤◌, ◌<◌, ◌≡◌, ◌≢◌, refl, sym, subst, inl, inr, true, false, Option, none,
  some, List, [], ◌∷◌, ◌++◌, arith, ◌==◌, Bool-cases, get_or, Result, ok, err, enomem,
}
use avocad_os.Links.{has, IsRing}
use avocad_os.Links.Splice.{Spliced, IsRing-splice_end, unlink-IsRing, prev-mem, mem-ne}
use avocad_os.Processes.{
  Processes, max_processes, process_list_insert, process_list_remove, process_get, is_free_slot,
  find_slot, process_slot,
}

insert-Spliced :
    (s : Processes) (p : ℕ)
    → (s.system_process == p) ≡ false
    → (s.links.prev s.system_process == p) ≡ false
    → Spliced s.links
        (process_list_insert s p).links
        (s.links.prev s.system_process)
        p
        s.system_process
unfolding process_list_insert
insert-Spliced s p ne ne' = record {
  next_a = ground arith;
  prev_t = ground arith;
  next_t = ground arith;
  prev_b = ground arith;
  other_next = λ x h k. ground arith;
  other_prev = λ x h k. ground arith;
}

-- A process that is in no list yet becomes the last one of the ring that begins at the system
-- process; the rest of the ring keeps its order.
pub process_list_insert-IsRing :
    (s : Processes) (p : ℕ) (xs : List ℕ)
    → IsRing s.links (s.system_process ∷ xs)
    → has p (s.system_process ∷ xs) ≡ false
    → IsRing (process_list_insert s p).links (s.system_process ∷ xs ++ p ∷ [])
process_list_insert-IsRing s p xs r fresh =
    let ne =
      mem-ne (s.links.prev s.system_process) p (s.system_process ∷ xs)
        (prev-mem s.links s.system_process xs s.system_process r.0) fresh in
    IsRing-splice_end s.links (process_list_insert s p).links (s.links.prev s.system_process) p
      s.system_process xs r fresh refl (insert-Spliced s p (ground arith) ne)

-- A process of a ring of at least two can be taken out: what is left is a ring in the same order,
-- and the links of the process are cleared.
pub process_list_remove-IsRing :
    (s : Processes) (p x : ℕ) (xs : List ℕ)
    → IsRing s.links (p ∷ x ∷ xs)
    → IsRing (process_list_remove s p).links (x ∷ xs)
      × ((process_list_remove s p).links.next p ≡ 0)
      × ((process_list_remove s p).links.prev p ≡ 0)
unfolding process_list_remove
process_list_remove-IsRing s p x xs r = unlink-IsRing s.links p x xs r

-- What the search for a slot says: the first free one, or that none is free.
abbrev pub FirstFree : Processes → ℕ → ℕ → Option ℕ → Type 0
FirstFree s i j none = (x : ℕ) → i ≤ x → x < j → get_or s.processes x 0 ≢ 0
FirstFree s i j (some k) =
    (i ≤ k)
    × (k < j)
    × (get_or s.processes k 0 ≡ 0)
    × ((x : ℕ) → i ≤ x → x < k → get_or s.processes x 0 ≢ 0)

taken_slot :
    (s : Processes) (i : ℕ)
    → i < max_processes
    → is_free_slot (process_get s i) ≡ false
    → get_or s.processes i 0 ≢ 0
unfolding is_free_slot process_get
taken_slot s i lt h e = ground arith

free_slot :
    (s : Processes) (i : ℕ) → is_free_slot (process_get s i) ≡ true → get_or s.processes i 0 ≡ 0
unfolding is_free_slot process_get
free_slot s i h = ground arith

FirstFree-step :
    (s : Processes) (i j : ℕ) (o : Option ℕ)
    → get_or s.processes i 0 ≢ 0
    → FirstFree s (i + 1) j o
    → FirstFree s i j o
FirstFree-step s i j none ne f = λ x lo hi. elim (Bool-cases (x == i)) [
  | inl e ↦ λ z. ne (let e' : i ≡ x = ground arith in rw e' z)
  | inr e ↦ f x (ground arith) hi
]
FirstFree-step s i j (some k) ne f = (
  omega arith,
  f.1,
  f.2,
  λ x lo hi. elim (Bool-cases (x == i)) [
    | inl e ↦ λ z. ne (let e' : i ≡ x = ground arith in rw e' z)
    | inr e ↦ f.3 x (ground arith) hi
  ],
)

find_slot-hit :
    (s : Processes) (k i : ℕ)
    → is_free_slot (process_get s i) ≡ true
    → find_slot s (suc k) i ≡ some i
unfolding find_slot
find_slot-hit s k i h = ground arith

find_slot-miss :
    (s : Processes) (k i : ℕ)
    → is_free_slot (process_get s i) ≡ false
    → find_slot s (suc k) i ≡ find_slot s k (i + 1)
unfolding find_slot
find_slot-miss s k i h = ground arith

find_slot-FirstFree :
    (s : Processes) (k i j : ℕ) → i + k ≡ j → j ≤ max_processes → FirstFree s i j (find_slot s k i)
unfolding find_slot
find_slot-FirstFree s zero i j e le = λ x lo hi. absurd (omega arith)
find_slot-FirstFree s (suc k) i j e le = elim (Bool-cases (is_free_slot (process_get s i))) [
  | inl h ↦
      subst (FirstFree s i j) (sym (find_slot-hit s k i h))
        (omega arith, omega arith, free_slot s i h, λ x lo hi. absurd (omega arith))
  | inr h ↦ subst (FirstFree s i j) (sym (find_slot-miss s k i h)) (
      FirstFree-step s i j (find_slot s k (i + 1)) (taken_slot s i (omega arith) h)
        (find_slot-FirstFree s k (i + 1) j (omega arith) le))
]

-- What `process_load` makes of the search.
abbrev pub Slot : Processes → Result ℕ → Type 0
Slot s (ok i) = FirstFree s 0 max_processes (some i)
Slot s (err e) = (e ≡ enomem) × FirstFree s 0 max_processes none

slot_of : Option ℕ → Result ℕ
slot_of o = elim o [ none ↦ err enomem | some i ↦ ok i ]

Slot-FirstFree : (s : Processes) (o : Option ℕ) → FirstFree s 0 max_processes o → Slot s (slot_of o)
unfolding slot_of
Slot-FirstFree s none f = (refl, f)
Slot-FirstFree s (some i) f = f

-- The slot for a new process is the lowest one of the 1024 that holds no process; the search fails
-- with ENOMEM, and then every slot holds one.
process_slot_lem : (s : Processes) → Slot s (process_slot s)
unfolding process_slot slot_of
process_slot_lem s =
    Slot-FirstFree s (find_slot s max_processes 0)
      (find_slot-FirstFree s max_processes 0 max_processes refl (omega arith))
