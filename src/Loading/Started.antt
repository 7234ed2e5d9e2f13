-- ===== src/Loading/Started.antt =====
-- What `process_init` makes of a program in memory.
use avocad_os.Base.{
  ℕ, ◌+◌, ◌<◌, ◌≡◌, ◌∙◌, refl, sym, subst, ap, Bool, true, false, some, List, [], ◌∷◌, ◌++◌, ◌==◌,
  arith, if◌then◌else◌, get_or, get_or-set_self, length, take, Result, ok, Outcome, done,
}
use avocad_os.Links.{has, IsRing}
use avocad_os.Paging.{Directory}
use avocad_os.Tasks.{Tasks, task_list_insert}
use avocad_os.Tasks.Insert.{task_list_insert-IsRing}
use avocad_os.Frames.{
  task_new, new_task, new_state, write_control, task_push_state_to_kstack, task_push_data_to_kstack,
}
use avocad_os.Processes.{process_list_insert}
use avocad_os.Processes.Laws.{process_list_insert-IsRing}
use avocad_os.Loading.{
  ProcessInfo, Kernel, next_block, init_blocks, init_mapped, process_map_memory, set_slot,
  start_process, init_process, process_init, program_base, program_stack_top, program_stack_size,
}

-- The information that the process is started with.
abbrev pub new_info : List ℕ → (slot memory memory_size stack task : ℕ) → Directory → ProcessInfo
new_info name slot memory memory_size stack task handle = record {
  pid = slot;
  name = take 250 name;
  task = task;
  page_directory = handle;
  memory = memory;
  memory_size = memory_size;
  stack = stack;
}

-- The rings, the slot, the information and the directory of the task after a process and its task were started.
pub record Runs (k k' : Kernel) (p task slot : ℕ) (info : ProcessInfo) (ts ps : List ℕ)
    : Type 0 where
  pub in_tasks : IsRing k'.tasks.links (k.tasks.current_task ∷ task ∷ ts)
  pub in_processes : IsRing k'.processes.links (k.processes.system_process ∷ ps ++ p ∷ [])
  pub in_slot : get_or k'.processes.processes slot 0 ≡ p
  pub informed : k'.info p ≡ some info
  pub switches_to : k'.tasks.directory task ≡ info.page_directory.directory 1023

-- The memory and the tasks before the new one is inserted.
abbrev pushed : (ℕ → ℕ) → Tasks → (t process directory : ℕ) → Bool → ℕ → ℕ → (ℕ → ℕ) × Tasks
pushed m s t process directory privileged entry_point esp =
    let state = new_state privileged entry_point esp in
    task_push_state_to_kstack (write_control m t state process) (new_task s t directory) t state

task_new-insert :
    (m : ℕ → ℕ) (s : Tasks) (t process directory : ℕ) (privileged : Bool) (entry_point esp : ℕ)
    → (t == 0) ≡ false
    → (m' : ℕ → ℕ) × (s' : Tasks) × (task_new m s t process directory privileged entry_point esp
        ≡ (m', (task_list_insert s' t, t)))
      × (s'.links ≡ s.links)
      × (s'.current_task ≡ s.current_task)
      × (s'.directory t ≡ directory)
unfolding task_new task_push_state_to_kstack task_push_data_to_kstack new_task
task_new-insert m s t process directory privileged entry_point esp z =
    let same : (t == t) ≡ true = ground arith in
    (
      (pushed m s t process directory privileged entry_point esp).0,
      (pushed m s t process directory privileged entry_point esp).1,
      rw (task_new, z) refl,
      refl,
      refl,
      ap (λ b. if b then directory else s.directory t) same,
    )

-- The new task stands behind the current one, with the directory of its process.
task_new-IsRing :
    (m : ℕ → ℕ) (s : Tasks) (t process directory : ℕ) (privileged : Bool) (entry_point esp : ℕ)
    (ts : List ℕ)
    → (t == 0) ≡ false
    → IsRing s.links (s.current_task ∷ ts)
    → has t (s.current_task ∷ ts) ≡ false
    → let r = task_new m s t process directory privileged entry_point esp in
      (r.1.1 ≡ t) × IsRing r.1.0.links (s.current_task ∷ t ∷ ts) × (r.1.0.directory t ≡ directory)
unfolding task_list_insert
task_new-IsRing m s t process directory privileged entry_point esp ts z ring fresh =
    let made = task_new-insert m s t process directory privileged entry_point esp z in
    let s' = made.1 in
    let links = made.3 in
    let current = made.4 in
    let before : IsRing s'.links (s'.current_task ∷ ts) =
      subst (λ c. IsRing s'.links (c ∷ ts)) (sym current)
        (subst (λ l. IsRing l (s.current_task ∷ ts)) (sym links) ring) in
    let new : has t (s'.current_task ∷ ts) ≡ false = ap (λ c. has t (c ∷ ts)) current ∙ fresh in
    subst
      (λ r.
        (r.1.1 ≡ t)
        × IsRing r.1.0.links (s.current_task ∷ t ∷ ts)
        × (r.1.0.directory t ≡ directory))
      (sym made.2)
      (
        refl,
        subst (λ c. IsRing (task_list_insert s' t).links (c ∷ t ∷ ts)) current
            (task_list_insert-IsRing s' t ts before new),
        made.5,
      )

start-Runs :
    (k : Kernel) (info : ProcessInfo) (p task slot : ℕ) (privileged : Bool) (ts ps : List ℕ)
    → (task == 0) ≡ false
    → IsRing k.tasks.links (k.tasks.current_task ∷ ts)
    → has task (k.tasks.current_task ∷ ts) ≡ false
    → IsRing k.processes.links (k.processes.system_process ∷ ps)
    → has p (k.processes.system_process ∷ ps) ≡ false
    → get_or k.processes.processes slot 0 ≡ p
    → (k' : Kernel) × (start_process k info p privileged task ≡ (k', ok 0))
      × Runs k k' p task slot (record info { task = task }) ts ps
unfolding start_process process_list_insert
start-Runs k info p task slot privileged ts ps z ring fresh processes new slots =
    let last = info.page_directory.directory 1023 in
    let esp = program_stack_top + program_stack_size in
    let t = task_new k.words k.tasks task p last privileged program_base esp in
    let r =
      task_new-IsRing k.words k.tasks task p last privileged program_base esp ts z ring fresh in
    let same : t.1.1 ≡ task = r.0 in
    let some_task : (t.1.1 == 0) ≡ false = ap (λ x. x == 0) same ∙ z in
    rw (start_process, some_task)
      (
        _,
        refl,
        record {
          in_tasks = r.1;
          in_processes = process_list_insert-IsRing k.processes p ps processes new;
          in_slot = slots;
          informed =
              (let e : (p == p) ≡ true = ground arith in
                rw e (ap (λ x. some (record info { task = x })) same));
          switches_to = r.2;
        },
      )

-- With the page directory made, `process_init` goes on with the task.
init-start :
    (k : Kernel) (name : List ℕ) (memory memory_size : ℕ) (privileged : Bool)
    (slot p stack task : ℕ) (blocks : List ℕ) (h : Directory)
    → k.blocks ≡ p ∷ stack ∷ task ∷ blocks
    → (p == 0) ≡ false
    → (stack == 0) ≡ false
    → process_map_memory k memory memory_size stack ≡ done (h, ok 0)
    → process_init k name memory memory_size privileged slot
      ≡ done (
          start_process
            (record (set_slot k slot p) {
              blocks = blocks;
              kernel = record k.kernel { tables = h.tables; free = h.free };
            })
            (new_info name slot memory memory_size stack 0 h)
            p
            privileged
            task)
unfolding process_init init_process init_blocks init_mapped next_block
init-start k name memory memory_size privileged slot p stack task blocks h b zp zs m =
    ap (init_process k name memory memory_size privileged slot) b
    ∙ rw (init_process, zp) (rw (init_blocks, zs, m) refl)

-- What a started process is: the call succeeds, the task stands behind the current one in the ring of
-- tasks, the process is the last one of the ring of processes and in its slot, has its fields, and the task
-- switches to its directory.
abbrev pub Starts :
    Kernel
    → (p task slot : ℕ) → ProcessInfo
    → (ts ps : List ℕ) → Outcome (Kernel × Result ℕ)
    → Type 0
Starts k p task slot info ts ps outcome =
    (k' : Kernel) × (outcome ≡ done (k', ok 0)) × Runs k k' p task slot info ts ps

-- When `kzalloc` returns blocks for the process, its stack and its task, none of them NULL, with a page directory that `process_map_memory` makes
-- for it, a slot of the table, and rings of tasks and of processes that the new ones are not in:
-- `process_init` succeeds. The task stands behind the current one, the process is the last one of the
-- ring of processes and in its slot, its fields are its number, name, task, directory, memory and
-- stack, and the switch to the task loads its directory.
pub process_init-Starts :
    (k : Kernel) (name : List ℕ) (memory memory_size : ℕ) (privileged : Bool)
    (slot p stack task : ℕ) (blocks ts ps : List ℕ) (h : Directory)
    → k.blocks ≡ p ∷ stack ∷ task ∷ blocks
    → (p == 0) ≡ false
    → (stack == 0) ≡ false
    → (task == 0) ≡ false
    → process_map_memory k memory memory_size stack ≡ done (h, ok 0)
    → slot < length k.processes.processes
    → IsRing k.tasks.links (k.tasks.current_task ∷ ts)
    → has task (k.tasks.current_task ∷ ts) ≡ false
    → IsRing k.processes.links (k.processes.system_process ∷ ps)
    → has p (k.processes.system_process ∷ ps) ≡ false
    → Starts k p task slot
        (new_info name slot memory memory_size stack task h)
        ts
        ps
        (process_init k name memory memory_size privileged slot)
unfolding set_slot
process_init-Starts k name memory memory_size privileged slot p stack task blocks ts ps h b zp zs z
      m lt tasks new_task processes new =
    let k1 = record (set_slot k slot p) {
      blocks = blocks;
      kernel = record k.kernel { tables = h.tables; free = h.free };
    } in
    let r =
      start-Runs k1 (new_info name slot memory memory_size stack 0 h) p task slot privileged ts ps z
        tasks new_task processes new (get_or-set_self k.processes.processes slot p 0 lt) in
    (
      r.0,
      init-start k name memory memory_size privileged slot p stack task blocks h b zp zs m
          ∙ ap done r.1,
      record {
        in_tasks = r.2.in_tasks;
        in_processes = r.2.in_processes;
        in_slot = r.2.in_slot;
        informed = r.2.informed;
        switches_to = r.2.switches_to;
      },
    )
