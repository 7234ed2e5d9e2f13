-- ===== src/Frames.antt =====
-- src/kernel/task/task.c: a new task, and the frame on its kernel stack from which its first interrupt
-- returns. Memory is a function from an address to the 32-bit word that stands there. It has the control
-- blocks as `task_new` leaves them; what changes in them later (the counter, the saved stack pointer, the
-- links) is followed in the fields of Tasks.
mod Tests
pub mod Fresh
use avocad_os.Base.{
  ℕ, zero, suc, ◌+◌, ◌-◌, ◌*◌, ◌%◌, ◌^◌, bit_and, bit_or, Bool, true, false, Option, none, some,
  List, [], ◌∷◌, ◌++◌, ltb, leb, ◌&&◌, ◌==◌, if◌then◌else◌, length,
}
use avocad_os.Links.{update}
use avocad_os.Tasks.{Tasks, task_list_insert, kstack_top}

-- `struct process_state`, with its segment and general registers.
pub record ProcessState : Type 0 where
  pub gs : ℕ
  pub fs : ℕ
  pub es : ℕ
  pub ds : ℕ
  pub cs : ℕ
  pub ss : ℕ
  pub eflags : ℕ
  pub eip : ℕ
  pub edi : ℕ
  pub esi : ℕ
  pub ebp : ℕ
  pub esp : ℕ
  pub ebx : ℕ
  pub edx : ℕ
  pub ecx : ℕ
  pub eax : ℕ

-- The registers that `task_new` sets; the selectors of ring 3 end in two ones.
unfoldable pub new_state : Bool → ℕ → ℕ → ProcessState
new_state privileged entry_point esp =
    let cs = if privileged then 1 * 8 else bit_or (3 * 8) 3 in
    let ss = if privileged then 2 * 8 else bit_or (4 * 8) 3 in
    record {
      gs = ss;
      fs = ss;
      es = ss;
      ds = ss;
      cs = cs;
      ss = ss;
      eflags = 0x202;
      eip = entry_point;
      edi = 0;
      esi = 0;
      ebp = 0;
      esp = esp;
      ebx = 0;
      edx = 0;
      ecx = 0;
      eax = 0xDEADC0DE;
    }

-- The words that both kinds of frame have, in their order.
unfoldable pub frame_common : ProcessState → List ℕ
frame_common r =
    r.gs ∷ r.fs ∷ r.es ∷ r.ds ∷ r.edi ∷ r.esi ∷ r.ebp ∷ r.esp ∷ r.ebx ∷ r.edx ∷ r.ecx ∷ r.eax
    ∷ 0xDEADC0DE ∷ 0xDEADC0DE ∷ r.eip ∷ r.cs ∷ r.eflags ∷ []

-- The frame that is pushed: a task of ring 3 has its stack pointer and stack segment behind it.
unfoldable pub interrupt_frame : ProcessState → List ℕ
interrupt_frame r =
    if bit_and r.cs 3 == 0 then frame_common r else frame_common r ++ (r.esp ∷ r.ss ∷ [])

unfoldable pub store_words : (ℕ → ℕ) → ℕ → List ℕ → ℕ → ℕ
store_words m p [] = m
store_words m p (w ∷ ws) = store_words (update m p w) (p + 4) ws

-- `struct task_control_block`: the words up to `process`, then the stack pointer and the links, which
-- are NULL.
unfoldable pub control_words : ProcessState → (process top : ℕ) → List ℕ
control_words r process top =
    r.gs ∷ r.fs ∷ r.es ∷ r.ds ∷ r.cs ∷ r.ss ∷ r.eflags ∷ r.eip ∷ r.edi ∷ r.esi ∷ r.ebp ∷ r.esp
    ∷ r.ebx ∷ r.edx ∷ r.ecx ∷ r.eax ∷ 0 ∷ top ∷ r.eip ∷ process ∷ []

-- The place of `kernel_stack_pointer` in a task.
abbrev pub stack_pointer_at : ℕ → ℕ
stack_pointer_at task = task + 4 * 20

-- `task_push_data_to_kstack`
unfoldable pub task_push_data_to_kstack : (ℕ → ℕ) → Tasks → ℕ → List ℕ → (ℕ → ℕ) × Tasks
task_push_data_to_kstack m s task words =
    let sp = s.kernel_stack_pointer task - 4 * length words in
    (
      store_words (update m (stack_pointer_at task) sp) sp words,
      record s { kernel_stack_pointer = update s.kernel_stack_pointer task sp },
    )

unfoldable pub task_push_state_to_kstack : (ℕ → ℕ) → Tasks → ℕ → ProcessState → (ℕ → ℕ) × Tasks
task_push_state_to_kstack m s task state = task_push_data_to_kstack m s task (interrupt_frame state)

-- `kzalloc` clears the union: 4096 words.
unfoldable pub cleared : (ℕ → ℕ) → ℕ → ℕ → ℕ
cleared m task a = if leb task a && ltb a (kstack_top task) then 0 else m a

-- The union with its control block, as the compound literal of `task_new` writes it.
unfoldable pub write_control : (ℕ → ℕ) → ℕ → ProcessState → ℕ → ℕ → ℕ
write_control m task state process =
    store_words (cleared m task) task
      (control_words state process (kstack_top task) ++ kstack_top task ∷ 0 ∷ 0 ∷ [])

-- The fields of a new task, whose process has this last entry in its page directory.
unfoldable pub new_task : Tasks → (task directory : ℕ) → Tasks
new_task s task directory = record s {
  kernel_stack_pointer = update s.kernel_stack_pointer task (kstack_top task);
  n_switches = update s.n_switches task 0;
  directory = update s.directory task directory;
}

-- `task_new` on the block that `kzalloc` returned, 0 for NULL, with the last entry of the page directory
-- of the process: the memory, the tasks and the task.
unfoldable pub task_new :
    (ℕ → ℕ) → Tasks → (task process directory : ℕ) → Bool → ℕ → ℕ → (ℕ → ℕ) × (Tasks × ℕ)
task_new m s task process directory privileged entry_point esp = elim (task == 0) [
  | true ↦ (m, (s, 0))
  | false ↦
      let state = new_state privileged entry_point esp in
      let r =
        task_push_state_to_kstack (write_control m task state process) (new_task s task directory)
          task state in
      (r.0, (task_list_insert r.1 task, task))
]
