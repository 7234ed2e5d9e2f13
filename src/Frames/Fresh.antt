-- ===== src/Frames/Fresh.antt =====
-- The frame of a new task: what its first interrupt return reads.
use avocad_os.Base.{
  ℕ, zero, suc, ◌+◌, ◌*◌, ◌<◌, ◌≤◌, ◌≡◌, Bool, true, false, ◌⊎◌, List, [], ◌∷◌, length,
}
use avocad_os.Tasks.{Tasks, kstack_top}

-- The `n` words from the address `p` on.
unfoldable pub load_words : (ℕ → ℕ) → (p n : ℕ) → List ℕ
load_words m p zero = []
load_words m p (suc n) = m p ∷ load_words m (p + 4) n

-- The task that `task_new` made. Its stack pointer is below the top of its kernel stack by the frame, the
-- frame's words stand from there on, in their order, the union begins with the control block, which has
-- the stack pointer in its place, the words between the control block and the frame are 0, and the
-- words outside the union are those of `m`. The scheduler knows its stack pointer, its directory and
-- that it has not run.
abbrev pub Framed :
    (m : ℕ → ℕ) → (task directory : ℕ) → (control frame : List ℕ) → (ℕ → ℕ) × (Tasks × ℕ) → Type 0
Framed m task directory control frame r =
    let sp = r.1.0.kernel_stack_pointer task in
    (r.1.1 ≡ task)
    × (sp + 4 * length frame ≡ kstack_top task)
    × (load_words r.0 sp (length frame) ≡ frame)
    × (load_words r.0 task (length control) ≡ control)
    × (r.0 (task + 80) ≡ sp)
    × ((a : ℕ) → task + 92 ≤ a → a < sp → r.0 a ≡ 0)
    × ((a : ℕ) → (a < task) ⊎ (kstack_top task ≤ a) → r.0 a ≡ m a)
    × (r.1.0.directory task ≡ directory)
    × (r.1.0.n_switches task ≡ 0)

-- The frame that the first return of a new task pops: the data selectors, the general registers, the
-- interrupt's number and code, the entry point, the code selector and the flags, and for a task of ring 3
-- its stack. The kernel's selectors are 8 and 16, those of ring 3 are 27 and 35.
abbrev pub first_frame : (privileged : Bool) → (entry_point esp : ℕ) → List ℕ
first_frame true entry_point esp =
    16 ∷ 16 ∷ 16 ∷ 16 ∷ 0 ∷ 0 ∷ 0 ∷ esp ∷ 0 ∷ 0 ∷ 0 ∷ 0xDEADC0DE ∷ 0xDEADC0DE ∷ 0xDEADC0DE
    ∷ entry_point ∷ 8 ∷ 0x202 ∷ []
first_frame false entry_point esp =
    35 ∷ 35 ∷ 35 ∷ 35 ∷ 0 ∷ 0 ∷ 0 ∷ esp ∷ 0 ∷ 0 ∷ 0 ∷ 0xDEADC0DE ∷ 0xDEADC0DE ∷ 0xDEADC0DE
    ∷ entry_point ∷ 27 ∷ 0x202 ∷ esp ∷ 35 ∷ []

-- The first twenty words of its control block: the registers, no switch, the top of the kernel stack, the
-- entry point and the process.
abbrev pub first_control : (privileged : Bool) → (entry_point esp process top : ℕ) → List ℕ
first_control true entry_point esp process top =
    16 ∷ 16 ∷ 16 ∷ 16 ∷ 8 ∷ 16 ∷ 0x202 ∷ entry_point ∷ 0 ∷ 0 ∷ 0 ∷ esp ∷ 0 ∷ 0 ∷ 0 ∷ 0xDEADC0DE ∷ 0
    ∷ top ∷ entry_point ∷ process ∷ []
first_control false entry_point esp process top =
    35 ∷ 35 ∷ 35 ∷ 35 ∷ 27 ∷ 35 ∷ 0x202 ∷ entry_point ∷ 0 ∷ 0 ∷ 0 ∷ esp ∷ 0 ∷ 0 ∷ 0 ∷ 0xDEADC0DE ∷ 0
    ∷ top ∷ entry_point ∷ process ∷ []
