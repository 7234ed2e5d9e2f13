-- ===== src/Tasks/Turns.antt =====
-- Every task of the ring gets its turn.
use avocad_os.Base.{
  ℕ, suc, ◌+◌, ◌<◌, ◌≤◌, ◌≡◌, inl, inr, sym, subst, ap, ◌∙◌, true, List, [], ◌∷◌, ◌++◌,
  append_assoc, append-nil, arith, ◌==◌, Bool-cases, length, length-append, length-take, take,
}
use avocad_os.Links.{has}
use avocad_os.Tasks.{Tasks, schedule, run}
use avocad_os.Tasks.Schedule.{Running, schedule-Switched}

-- As many interrupts as there are tasks in front of `v` bring `v` to the head of the ring.
run-Running :
    (fs ps : List ℕ) (v : ℕ) (vs : List ℕ) (s : Tasks)
    → length fs ≡ length ps
    → Running s (ps ++ v ∷ vs)
    → Running (run s fs).1 (v ∷ vs ++ ps)
unfolding run
run-Running [] [] v vs s e r = subst (λ ys. Running s (v ∷ ys)) (sym (append-nil vs)) r
run-Running [] (p ∷ ps) v vs s e r = absurd (omega arith)
run-Running (f ∷ fs) [] v vs s e r = absurd (omega arith)
run-Running (f ∷ []) (p ∷ []) v vs s e r = (schedule-Switched s f p v vs r).1
run-Running (f ∷ []) (p ∷ q ∷ qs) v vs s e r = absurd (omega arith)
run-Running (f ∷ g ∷ fs) (p ∷ []) v vs s e r = absurd (omega arith)
run-Running (f ∷ g ∷ fs) (p ∷ q ∷ qs) v vs s e r =
    let s1 = (schedule s f).1 in
    subst (λ ys. Running (run s1 (g ∷ fs)).1 (v ∷ ys)) (append_assoc vs (p ∷ []) (q ∷ qs))
      (run-Running (g ∷ fs) (q ∷ qs) v (vs ++ p ∷ []) s1 (omega arith) (
        subst (λ ys. Running s1 (q ∷ ys)) (append_assoc qs (v ∷ vs) (p ∷ []))
          (schedule-Switched s f p q (qs ++ v ∷ vs) r).1))

-- A list at an address that it has.
has-split :
    (u : ℕ) (ts : List ℕ) → has u ts ≡ true → (ps : List ℕ) × (vs : List ℕ) × (ts ≡ ps ++ u ∷ vs)
has-split u [] h = absurd (ground arith)
has-split u (t ∷ ts) h = elim (Bool-cases (t == u)) [
  | inl e ↦ let same : t ≡ u = ground arith in ([], ts, ap (λ x. x ∷ ts) same)
  | inr e ↦ let r = has-split u ts (ground arith) in (t ∷ r.0, r.1, ap (◌∷◌ t) r.2)
]

-- In a ring of tasks, with at least as many timer interrupts to come as there are tasks, each task `u`
-- of the ring runs after fewer interrupts than the ring has tasks.
pub run-turn :
    (s : Tasks) (ts fs : List ℕ) (u : ℕ)
    → Running s ts
    → has u ts ≡ true
    → length ts ≤ length fs
    → (n : ℕ) × (n < length ts) × ((run s (take n fs)).1.current_task ≡ u)
run-turn s ts fs u r h le =
    let split = has-split u ts h in
    let n = length split.0 in
    let l : length ts ≡ n + suc (length split.1) =
      ap length split.2 ∙ length-append split.0 (u ∷ split.1) in
    let turn =
      run-Running (take n fs) split.0 u split.1 s (length-take n fs (omega arith))
        (subst (Running s) split.2 r) in
    (n, omega arith, turn.current)
