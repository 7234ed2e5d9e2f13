-- ===== src/Tasks.antt =====
-- src/kernel/task/task.c: the ring of tasks and the scheduler. A task is its address; the fields
-- of its control block that the scheduler uses are maps from addresses.
pub mod Insert
pub mod Schedule
pub mod Turns
mod Tests
use avocad_os.Base.{
  ℕ, ◌+◌, ◌-◌, ◌*◌, ◌^◌, ◌/◌, ◌%◌, bit_and, Bool, true, false, List, [], ◌∷◌, ◌==◌, if◌then◌else◌,
}
use avocad_os.Paging.{page_entry_addr}
use avocad_os.Links.{Links, update, set_next, set_prev, unlink}

-- `current_task` is 0 for NULL. `tss_esp0` is the field of the task state segment, and `cr3` the
-- page directory register. `directory` is the last entry of the page directory of the task's
-- process, which no function of this component changes.
pub record Tasks : Type 0 where
  pub links : Links
  pub current_task : ℕ
  pub kernel_stack_pointer : ℕ → ℕ
  pub n_switches : ℕ → ℕ
  pub tss_esp0 : ℕ
  pub cr3 : ℕ
  pub directory : ℕ → ℕ

-- `task_list_insert`: behind the current task.
unfoldable pub task_list_insert : Tasks → ℕ → Tasks
task_list_insert s task =
    let l = set_prev s.links task s.current_task in
    let l = set_next l task (l.next s.current_task) in
    let l = set_next l s.current_task task in
    let l = set_prev l (l.next task) task in record s { links = l }

unfoldable pub task_list_remove : Tasks → ℕ → Tasks
task_list_remove s task = record s { links = unlink s.links task }

unfoldable pub task_next : Tasks → ℕ
task_next s = s.links.next s.current_task

unfoldable pub task_previous : Tasks → ℕ
task_previous s = s.links.prev s.current_task

-- `&task->kstack[TASK_KERNEL_STACK_SIZE]`: the stack is an array of 4096 words at the address of
-- the task, which is a union.
unfoldable pub kstack_top : ℕ → ℕ
kstack_top task = task + 4096 * 4

-- The panic of `task_store` without a current task is out of reach: `schedule` has tested it.
unfoldable pub task_store : Tasks → ℕ → ℕ → Tasks
task_store s task frame = record s {
  kernel_stack_pointer = update s.kernel_stack_pointer task frame;
}

-- The switch to `next`: the counter, the current task, the stack of the next entry into the kernel,
-- the page directory.
unfoldable pub switch : Tasks → ℕ → Tasks
unfolding kstack_top page_entry_addr
switch s next = record s {
  n_switches = update s.n_switches s.current_task ((s.n_switches s.current_task + 1) % 2 ^ 32);
  current_task = next;
  tss_esp0 = kstack_top next;
  cr3 = page_entry_addr (s.directory next);
}

-- `schedule` returns the stack pointer that the interrupt handler goes on with.
unfoldable pub schedule : Tasks → ℕ → ℕ × Tasks
unfolding task_store switch task_next
schedule s frame =
    if s.current_task == 0
    then (frame, s)
    else let s = task_store s s.current_task frame in
      let next = task_next s in
      if next == s.current_task
      then (frame, s)
      else let s = switch s next in (s.kernel_stack_pointer s.current_task, s)

-- The timer interrupts in turn, each with the frame that it pushed; the stack pointers returned.
unfoldable pub run : Tasks → List ℕ → List ℕ × Tasks
run s [] = ([], s)
run s (frame ∷ frames) =
    let (sp, s') = schedule s frame in let (sps, s'') = run s' frames in (sp ∷ sps, s'')
