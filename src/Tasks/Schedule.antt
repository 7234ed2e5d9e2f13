-- ===== src/Tasks/Schedule.antt =====
-- The scheduler of src/kernel/task/task.c: one step, and a whole round of the ring.
use avocad_os.Base.{
  ℕ, ◌+◌, ◌%◌, ◌^◌, ◌≡◌, inl, inr, refl, sym, subst, ap, ap₂, ◌∙◌, true, false, List, [], ◌∷◌, ◌++◌,
  append_assoc, append-nil, map, arith, if◌then◌else◌,
}
use mathlib.Core.List.{map-append}
use avocad_os.Links.{has, has-append, update, IsRing, IsRing-rotate, unsnoc}
use avocad_os.Links.Splice.{mem-ne}
use avocad_os.Paging.{page_entry_addr}
use avocad_os.Tasks.{Tasks, schedule, switch, task_store, run, kstack_top}

-- `t` is the first address of the list.
abbrev pub IsHead : ℕ → List ℕ → Type 0
IsHead t [] = ⊥
IsHead t (x ∷ xs) = t ≡ x

-- `s` runs the first task of the ring, and no task stands at NULL.
pub record Running (s : Tasks) (ts : List ℕ) : Type 0 where
  pub ring : IsRing s.links ts
  pub no_null : has 0 ts ≡ false
  pub current : IsHead s.current_task ts

-- What one timer interrupt does where the ring has another task: the frame of the task that ran is
-- kept as its stack pointer, the next task runs and goes on with its own stack pointer, kernel stack
-- and page directory, one switch is counted for the task that ran, and nothing else changes.
pub record Switched (s : Tasks) (frame t u : ℕ) (sp : ℕ) (s' : Tasks) : Type 0 where
  pub resumed : sp ≡ s.kernel_stack_pointer u
  pub current : s'.current_task ≡ u
  pub saved : (x : ℕ) → s'.kernel_stack_pointer x ≡ update s.kernel_stack_pointer t frame x
  pub counted : (x : ℕ) → s'.n_switches x ≡ update s.n_switches t ((s.n_switches t + 1) % 2 ^ 32) x
  pub stack : s'.tss_esp0 ≡ kstack_top u
  pub directory : s'.cr3 ≡ page_entry_addr (s.directory u)
  pub same_links : s'.links ≡ s.links
  pub same_directory : s'.directory ≡ s.directory

schedule_step :
    (s : Tasks) (frame t u : ℕ) (ts : List ℕ)
    → Running s (t ∷ u ∷ ts)
    → schedule s frame ≡ (s.kernel_stack_pointer u, switch (task_store s t frame) u)
unfolding schedule
schedule_step s frame t u ts r = ground arith

switch-Switched :
    (s : Tasks) (frame t u : ℕ)
    → s.current_task ≡ t
    → Switched s frame t u (s.kernel_stack_pointer u) (switch (task_store s t frame) u)
unfolding switch task_store
switch-Switched s frame t u e = record {
  resumed = refl;
  current = refl;
  saved = λ x. refl;
  counted = λ x. ground arith;
  stack = refl;
  directory = refl;
  same_links = refl;
  same_directory = refl;
}

switch-Running :
    (s : Tasks) (frame t u : ℕ) (ts : List ℕ)
    → Running s (t ∷ u ∷ ts)
    → Running (switch (task_store s t frame) u) (u ∷ ts ++ t ∷ [])
unfolding switch task_store
switch-Running s frame t u ts r = record {
  ring = IsRing-rotate s.links t u ts r.ring;
  no_null = ground (arith, has-append 0 ts (t ∷ []), r.no_null);
  current = refl;
}

-- A timer interrupt with frame `frame`, in a ring where task `u` follows the running task `t`: the
-- frame is kept as the stack pointer of `t`; `u` runs and goes on with its own stack pointer, kernel
-- stack and page directory; one switch is counted for `t`, and nothing else changes. The ring is
-- left with `u` at its head.
pub schedule-Switched :
    (s : Tasks) (frame t u : ℕ) (ts : List ℕ)
    → Running s (t ∷ u ∷ ts)
    → Switched s frame t u (schedule s frame).0 (schedule s frame).1
      × Running (schedule s frame).1 (u ∷ ts ++ t ∷ [])
schedule-Switched s frame t u ts r =
    rw (schedule_step s frame t u ts r)
      (switch-Switched s frame t u r.current, switch-Running s frame t u ts r)

-- What is left of a run in which each task of `ps` was interrupted once, the task `x` with the
-- frame `f x`: their frames are kept, and one switch more is counted for each.
pub record Ran (f : ℕ → ℕ) (s : Tasks) (ps : List ℕ) (s' : Tasks) : Type 0 where
  pub saved :
      (x : ℕ) → s'.kernel_stack_pointer x ≡ (if has x ps then f x else s.kernel_stack_pointer x)
  pub counted :
      (x : ℕ)
      → s'.n_switches x ≡ (if has x ps then (s.n_switches x + 1) % 2 ^ 32 else s.n_switches x)

-- The tasks that interrupts of `ps` resume, where `v` stands behind `ps` in the ring.
abbrev resumed_by : List ℕ → ℕ → List ℕ
resumed_by [] v = []
resumed_by (p ∷ ps) v = ps ++ v ∷ []

map-agree :
    (g h : ℕ → ℕ) (xs : List ℕ) → ((x : ℕ) → has x xs ≡ true → g x ≡ h x) → map g xs ≡ map h xs
map-agree g h [] e = refl
map-agree g h (x ∷ xs) e =
    ap₂ ◌∷◌ (e x (ground arith)) (map-agree g h xs (λ y m. e y (ground arith)))

Ran-one :
    (f : ℕ → ℕ) (s : Tasks) (p u sp : ℕ) (s' : Tasks)
    → Switched s (f p) p u sp s'
    → Ran f s (p ∷ []) s'
Ran-one f s p u sp s' w = record {
  saved = λ x. ground (arith, w.saved x);
  counted = λ x. ground (arith, w.counted x);
}

Ran-more :
    (f : ℕ → ℕ) (s : Tasks) (p u sp : ℕ) (ps : List ℕ) (s1 s2 : Tasks)
    → Switched s (f p) p u sp s1
    → has p ps ≡ false
    → Ran f s1 ps s2
    → Ran f s (p ∷ ps) s2
Ran-more f s p u sp ps s1 s2 w out r = record {
  saved = λ x. ground (arith, w.saved x, r.saved x);
  counted = λ x. ground (arith, w.counted x, r.counted x);
}

in_front :
    (p q : ℕ) (qs : List ℕ) (v : ℕ) (vs : List ℕ)
    → has p (q ∷ qs ++ v ∷ vs) ≡ false
    → (has p (q ∷ qs) ≡ false) × (has p (qs ++ v ∷ []) ≡ false)
in_front p q qs v vs h = ground (arith, has-append p qs (v ∷ vs), has-append p qs (v ∷ []))

run-Ran :
    (f : ℕ → ℕ) (ps : List ℕ) (v : ℕ) (vs : List ℕ) (s : Tasks)
    → Running s (ps ++ v ∷ vs)
    → ((run s (map f ps)).0 ≡ map s.kernel_stack_pointer (resumed_by ps v))
      × Ran f s ps (run s (map f ps)).1
      × Running (run s (map f ps)).1 (v ∷ vs ++ ps)
unfolding run
run-Ran f [] v vs s r = (
  refl,
  record { saved = λ x. refl; counted = λ x. refl },
  subst (λ ys. Running s (v ∷ ys)) (sym (append-nil vs)) r,
)
run-Ran f (p ∷ []) v vs s r =
    let (w, r') = schedule-Switched s (f p) p v vs r in
    (ap (λ q. q ∷ []) w.resumed, Ran-one f s p v _ _ w, r')
run-Ran f (p ∷ q ∷ qs) v vs s r =
    let (w, r') = schedule-Switched s (f p) p q (qs ++ v ∷ vs) r in
    let s1 = (schedule s (f p)).1 in
    let away = in_front p q qs v vs r.ring.1.0 in
    let (sps, ran, r'') =
      run-Ran f (q ∷ qs) v (vs ++ p ∷ []) s1
        (subst (λ ys. Running s1 (q ∷ ys)) (append_assoc qs (v ∷ vs) (p ∷ [])) r') in
    (
      ap₂ ◌∷◌ w.resumed (
          sps
          ∙ map-agree _ _ (qs ++ v ∷ [])
              (λ x m. ground (arith, w.saved x, mem-ne x p (qs ++ v ∷ []) m away.1))),
      Ran-more f s p q _ (q ∷ qs) s1 _ w away.0 ran,
      subst (λ ys. Running (run s1 (map f (q ∷ qs))).1 (v ∷ ys)) (append_assoc vs (p ∷ []) (q ∷ qs))
          r'',
    )

run-append :
    (s : Tasks) (xs : List ℕ) (y : ℕ)
    → run s (xs ++ y ∷ [])
      ≡ ((run s xs).0 ++ (schedule (run s xs).1 y).0 ∷ [], (schedule (run s xs).1 y).1)
unfolding run
run-append s [] y = refl
run-append s (x ∷ xs) y = ap (λ r. ((schedule s x).0 ∷ r.0, r.1)) (run-append (schedule s x).1 xs y)

Ran-snoc :
    (f : ℕ → ℕ) (s : Tasks) (ps : List ℕ) (z u sp : ℕ) (s1 s2 : Tasks)
    → Ran f s ps s1
    → has z ps ≡ false
    → Switched s1 (f z) z u sp s2
    → Ran f s (ps ++ z ∷ []) s2
Ran-snoc f s ps z u sp s1 s2 r out w = record {
  saved = λ x. ground (arith, w.saved x, r.saved x, has-append x ps (z ∷ []));
  counted = λ x. ground (arith, w.counted x, r.counted x, r.counted z, has-append x ps (z ∷ []));
}

-- What a round of the ring is: every task was interrupted once and runs again in its turn.
abbrev pub Round : (ℕ → ℕ) → Tasks → ℕ → List ℕ → List ℕ × Tasks → Type 0
Round f s t us r =
    (r.0 ≡ map s.kernel_stack_pointer us ++ f t ∷ []) × Ran f s (t ∷ us) r.1 × Running r.1 (t ∷ us)

last_turn :
    (f : ℕ → ℕ) (s : Tasks) (t : ℕ) (qs : List ℕ) (z : ℕ)
    → Running s (t ∷ qs ++ z ∷ [])
    → Round f s t (qs ++ z ∷ []) (run s (map f (t ∷ qs) ++ f z ∷ []))
last_turn f s t qs z r =
    let (sps, ran, r') = run-Ran f (t ∷ qs) z [] s r in
    let s1 = (run s (map f (t ∷ qs))).1 in
    let (w, r'') = schedule-Switched s1 (f z) z t qs r' in
    rw (run-append s (map f (t ∷ qs)) (f z)) (
      ap₂ (λ a b. a ++ b ∷ []) sps (w.resumed ∙ ran.saved t ∙ ground arith),
      Ran-snoc f s (t ∷ qs) z t _ s1 _ ran r'.ring.1.0 w,
      r'',
    )

-- One timer interrupt for each task of a ring of at least two, in the order of the ring: every task
-- is resumed once, the others with the stack pointer that they had at the start and the first one
-- with the frame of its own interrupt; each frame is kept for its task, one switch is counted for
-- each task, and the ring stands where it began.
pub schedule-Round :
    (f : ℕ → ℕ) (s : Tasks) (t u : ℕ) (us : List ℕ)
    → Running s (t ∷ u ∷ us)
    → Round f s t (u ∷ us) (run s (map f (t ∷ u ∷ us)))
schedule-Round f s t u us r = elim (unsnoc (u ∷ us)) [
  | inl e ↦ absurd (ground (arith, e))
  | inr (qs, z, e) ↦
      subst (λ ys. Round f s t ys (run s (map f (t ∷ ys)))) (sym e)
        (subst (λ fs. Round f s t (qs ++ z ∷ []) (run s (f t ∷ fs)))
          (sym (map-append f qs (z ∷ [])))
          (last_turn f s t qs z (subst (λ ys. Running s (t ∷ ys)) e r)))
]
