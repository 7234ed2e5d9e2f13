-- ===== src/Interrupts/Reach.antt =====
-- The states that interrupts and new tasks lead to.
use avocad_os.Base.{
  ℕ, ◌≡◌, ◌∙◌, refl, sym, subst, ap, inl, inr, ◌⊎◌, true, false, Option, none, List, [], ◌∷◌, ◌++◌,
  arith, ltb, ◌==◌, get_or, Bool-cases, Option-cases, Outcome, done, fault, out_of_fuel, ◌>>=◌,
}
use avocad_os.Links.{Links, Chain, has, has-append, IsRing}
use avocad_os.Paging.{page_entry_addr}
use avocad_os.Tasks.{Tasks, schedule, task_list_insert, kstack_top, task_store, task_next}
use avocad_os.Tasks.Insert.{task_list_insert-IsRing}
use avocad_os.Tasks.Schedule.{Running, schedule-Switched}
use avocad_os.Interrupts.{
  kernel_total_interrupts, IsrHandler, int_0x20_handler, no_int_handler, isr_0x0_handler,
  isr_0x1_handler, isr_0x6_handler, int_0xD_handler, isr_0xE_handler, int_0x21_handler,
  init_handlers, InterruptFrame, Effect, resumes, Handled, timer, call_handler, isr_dispatcher,
}

-- One step of the kernel: an interrupt that is handled, with its frame at `p`, or a new task, whose
-- block is not NULL and has no link yet.
pub data Step (frames : ℕ → InterruptFrame) (s : Tasks) : Tasks → Type 0 where
  interrupt :
      (p sp : ℕ) (es : List Effect) (s' : Tasks)
      → isr_dispatcher frames init_handlers s p ≡ done (es, (resumes sp, s'))
      → Step frames s s'
  insert : (t : ℕ) → (0 == t) ≡ false → s.links.next t ≡ 0 → Step frames s (task_list_insert s t)

-- What steps lead to, from a first state.
pub data Reachable (frames : ℕ → InterruptFrame) (first : Tasks) : Tasks → Type 0 where
  start : Reachable frames first first
  more : (s s' : Tasks) → Reachable frames first s → Step frames s s' → Reachable frames first s'

-- The current task stands in the ring of the tasks, and the kernel stack and the page directory that the
-- processor uses are its own.
pub record Consistent (s : Tasks) (ts : List ℕ) : Type 0 where
  pub running : Running s ts
  pub stack : s.tss_esp0 ≡ kstack_top s.current_task
  pub directory : s.cr3 ≡ page_entry_addr (s.directory s.current_task)

-- The tasks that an outcome leaves.
abbrev tasks_of : Outcome Handled → Tasks → Tasks
tasks_of (done h) s = h.1.1
tasks_of fault s = s
tasks_of out_of_fuel s = s

abbrev Kept : Tasks → ℕ → Outcome Handled → Type 0
Kept s p outcome = (tasks_of outcome s ≡ s) ⊎ (tasks_of outcome s ≡ (schedule s p).1)

timer-Kept : (s : Tasks) (p : ℕ) → Kept s p (timer s p)
unfolding timer
timer-Kept s p = elim (Bool-cases ((schedule s p).1.current_task == 0)) [
  | inl h ↦ inl (rw (timer, h) refl)
  | inr h ↦ inr (rw (timer, h) refl)
]

call_handler-Kept :
    (frames : ℕ → InterruptFrame) (s : Tasks) (p : ℕ) (h : IsrHandler)
    → Kept s p (call_handler frames s p h)
unfolding call_handler
call_handler-Kept frames s p isr_0x0_handler = inl refl
call_handler-Kept frames s p isr_0x1_handler = inl refl
call_handler-Kept frames s p isr_0x6_handler = inl refl
call_handler-Kept frames s p int_0xD_handler = inl refl
call_handler-Kept frames s p isr_0xE_handler = inl refl
call_handler-Kept frames s p int_0x20_handler = timer-Kept s p
call_handler-Kept frames s p int_0x21_handler = inl refl
call_handler-Kept frames s p no_int_handler = inl refl

-- More effects change no task.
bind-Kept :
    (s : Tasks) (p : ℕ) (es : List Effect) (o : Outcome Handled)
    → Kept s p o
    → Kept s p (o >>= (λ r. done (es ++ r.0, r.1)))
bind-Kept s p es (done h) k = k
bind-Kept s p es fault k = k
bind-Kept s p es out_of_fuel k = k

dispatcher-Kept :
    (frames : ℕ → InterruptFrame) (hs : List (Option IsrHandler)) (s : Tasks) (p : ℕ)
    → Kept s p (isr_dispatcher frames hs s p)
unfolding isr_dispatcher
dispatcher-Kept frames hs s p =
    elim (Bool-cases (ltb ((frames p).int_no) kernel_total_interrupts)) [
      | inr h ↦ inl (rw (isr_dispatcher, h) refl)
      | inl h ↦ elim (Option-cases (get_or hs ((frames p).int_no) none)) [
        | inl e ↦ inl (rw (isr_dispatcher, h, e) refl)
        | inr (f, e) ↦
            rw (isr_dispatcher, h, e)
              (bind-Kept s p _ (call_handler frames s p f) (call_handler-Kept frames s p f))
      ]
    ]

-- The link of an address on a ring leads to an address on it.
next-has :
    (l : Links) (a : ℕ) (xs : List ℕ) (b t : ℕ)
    → Chain l a xs b
    → has t (a ∷ xs) ≡ true
    → has (l.next t) (xs ++ b ∷ []) ≡ true
next-has l a [] b t c h =
    let same : a ≡ t = ground arith in
    subst (λ n. has n (b ∷ []) ≡ true) (sym c.0 ∙ ap l.next same) (ground arith)
next-has l a (x ∷ xs) b t c h = elim (Bool-cases (a == t)) [
  | inl e ↦
      let same : a ≡ t = ground arith in
      subst (λ n. has n (x ∷ xs ++ b ∷ []) ≡ true) (sym c.0 ∙ ap l.next same) (ground arith)
  | inr e ↦ let m = next-has l x xs b t c.2 (ground arith) in ground arith
]

-- A task without a link is not on the ring.
new-has : (s : Tasks) (ts : List ℕ) (t : ℕ) → Running s ts → s.links.next t ≡ 0 → has t ts ≡ false
new-has s [] t r e = refl
new-has s (x ∷ xs) t r e = elim (Bool-cases (has t (x ∷ xs))) [
  | inr h ↦ h
  | inl h ↦
      let m = next-has s.links x xs x t r.ring.0 h in
      let z : has 0 (xs ++ x ∷ []) ≡ true = subst (λ n. has n (xs ++ x ∷ []) ≡ true) e m in
      let n = r.no_null in absurd (ground (arith, has-append 0 xs (x ∷ [])))
]

-- A state that has every task of `ts` in its ring.
abbrev pub Keeps : Tasks → ℕ → Type 0
Keeps s x = (us : List ℕ) × Consistent s us × (has x us ≡ true)

single-schedule :
    (s : Tasks) (p t : ℕ) → Running s (t ∷ []) → (schedule s p).1 ≡ task_store s s.current_task p
unfolding schedule task_store task_next
single-schedule s p t r =
    let c = r.current in
    let n = r.ring.0.0 in
    let z = r.no_null in
    let a : (s.current_task == 0) ≡ false = ground arith in
    let b : (s.links.next s.current_task == s.current_task) ≡ true =
      subst (λ x. (s.links.next x == x) ≡ true) (sym c) (ground arith) in
    rw (schedule, a, b) refl

single-Consistent :
    (s : Tasks) (p t : ℕ)
    → Consistent s (t ∷ [])
    → Consistent (task_store s s.current_task p) (t ∷ [])
unfolding task_store
single-Consistent s p t c = record {
  running = record {
    ring = c.running.ring;
    no_null = c.running.no_null;
    current = c.running.current;
  };
  stack = c.stack;
  directory = c.directory;
}

schedule-Keeps :
    (s : Tasks) (p : ℕ) (ts : List ℕ) (x : ℕ)
    → Consistent s ts
    → has x ts ≡ true
    → Keeps (schedule s p).1 x
schedule-Keeps s p [] x c h = absurd (ground arith)
schedule-Keeps s p (t ∷ []) x c h =
    subst (λ s'. Keeps s' x) (sym (single-schedule s p t c.running))
      (t ∷ [], single-Consistent s p t c, h)
schedule-Keeps s p (t ∷ u ∷ us) x c h =
    let (w, r) = schedule-Switched s p t u us c.running in
    (
      u ∷ us ++ t ∷ [],
      record {
        running = r;
        stack = w.stack ∙ ap kstack_top (sym w.current);
        directory =
            w.directory
            ∙ ap page_entry_addr (
                sym (
                  ap (λ f. f ((schedule s p).1.current_task)) w.same_directory
                  ∙ ap s.directory w.current));
      },
      ground (arith, has-append x us (t ∷ [])),
    )

insert-Keeps :
    (s : Tasks) (t : ℕ) (ts : List ℕ) (x : ℕ)
    → Consistent s ts
    → (0 == t) ≡ false
    → s.links.next t ≡ 0
    → has x ts ≡ true
    → Keeps (task_list_insert s t) x
unfolding task_list_insert
insert-Keeps s t [] x c z e h = absurd (ground arith)
insert-Keeps s t (a ∷ ts) x c z e h =
    let same : s.current_task ≡ a = c.running.current in
    let ring : IsRing s.links (s.current_task ∷ ts) =
      subst (λ y. IsRing s.links (y ∷ ts)) (sym same) c.running.ring in
    let fresh : has t (s.current_task ∷ ts) ≡ false =
      subst (λ y. has t (y ∷ ts) ≡ false) (sym same) (new-has s (a ∷ ts) t c.running e) in
    let null = c.running.no_null in
    (
      s.current_task ∷ t ∷ ts,
      record {
        running = record {
          ring = task_list_insert-IsRing s t ts ring fresh;
          no_null = ground arith;
          current = refl;
        };
        stack = c.stack;
        directory = c.directory;
      },
      ground arith,
    )

Step-Keeps :
    (frames : ℕ → InterruptFrame) (s s' : Tasks) (ts : List ℕ) (x : ℕ)
    → Step frames s s'
    → Consistent s ts
    → has x ts ≡ true
    → Keeps s' x
Step-Keeps frames s _ ts x (insert t z e) c h = insert-Keeps s t ts x c z e h
Step-Keeps frames s _ ts x (interrupt p sp es s' e) c h =
    let same : tasks_of (isr_dispatcher frames init_handlers s p) s ≡ s' =
      ap (λ o. tasks_of o s) e in
    elim (dispatcher-Kept frames init_handlers s p) [
      | inl k ↦ subst (λ q. Keeps q x) (sym k ∙ same) (ts, c, h)
      | inr k ↦ subst (λ q. Keeps q x) (sym k ∙ same) (schedule-Keeps s p ts x c h)
    ]

-- From a state whose current task stands in a ring of tasks and has the processor's kernel stack and page
-- directory, whatever interrupts are handled and whatever new tasks are inserted, in any order: every
-- state reached is of that kind again, and each task `x` of the first ring is still in its ring.
pub Reachable-Keeps :
    (frames : ℕ → InterruptFrame) (first s : Tasks) (ts : List ℕ) (x : ℕ)
    → Reachable frames first s
    → Consistent first ts
    → has x ts ≡ true
    → Keeps s x
Reachable-Keeps frames first _ ts x start c h = (ts, c, h)
Reachable-Keeps frames first _ ts x (more s s' r step) c h =
    let k = Reachable-Keeps frames first s ts x r c h in Step-Keeps frames s s' k.0 x step k.1 k.2
