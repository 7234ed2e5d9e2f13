-- ===== src/Interrupts/Dispatch.antt =====
-- What the dispatcher does with a timer interrupt, with the lines of the second controller, and with
-- the tasks on any interrupt.
use avocad_os.Base.{
  ℕ, zero, suc, ◌-◌, ◌<◌, ◌≤◌, ◌≡◌, ◌∙◌, refl, subst, ap, true, false, Option, none, some, List, [],
  ◌∷◌, ◌++◌, arith, ltb, leb, ◌==◌, get_or, get_or-set_ne, set, replicate, Outcome, done,
}
use avocad_os.Tasks.{Tasks, schedule}
use avocad_os.Tasks.Schedule.{Running, Switched, schedule-Switched}
use avocad_os.Interrupts.{
  kernel_total_interrupts, IsrHandler, int_0x20_handler, no_int_handler, isr_0x0_handler,
  isr_0x1_handler, isr_0x6_handler, int_0xD_handler, isr_0xE_handler, int_0x21_handler,
  init_handlers, InterruptFrame, Effect, outb, insb, print, print_number, text_no_handler, text_end,
  Reaction, resumes, Handled, pic_ack, timer, call_handler, acknowledge, isr_dispatcher,
}

-- A call of the dispatcher whose vector has a handler.
dispatcher-call :
    (frames : ℕ → InterruptFrame) (hs : List (Option IsrHandler)) (s : Tasks) (p : ℕ)
    (h : IsrHandler) (es : List Effect) (r : Reaction × Tasks)
    → (frames p).int_no < kernel_total_interrupts
    → get_or hs ((frames p).int_no) none ≡ some h
    → call_handler frames s p h ≡ done (es, r)
    → isr_dispatcher frames hs s p ≡ done (acknowledge ((frames p).int_no) ++ es, r)
unfolding isr_dispatcher
dispatcher-call frames hs s p h es r lt g c =
    let b : ltb ((frames p).int_no) kernel_total_interrupts ≡ true = ground arith in
    rw (isr_dispatcher, b, g, c) refl

timer_vector : get_or init_handlers 32 none ≡ some int_0x20_handler
unfolding init_handlers
timer_vector = refl

acknowledge-master : (n : ℕ) → 32 ≤ n → n < 72 → acknowledge n ≡ outb 0x20 0x20 ∷ []
unfolding acknowledge pic_ack
acknowledge-master n lo hi =
    let a : ltb 31 n ≡ true = ground arith in
    let b : leb 40 (n - 32) ≡ false = ground arith in rw (a, b) refl

timer-done :
    (s : Tasks) (p sp u : ℕ)
    → ((schedule s p).1.current_task == 0) ≡ false
    → (schedule s p).1.current_task ≡ u
    → (schedule s p).1.kernel_stack_pointer u ≡ sp
    → timer s p ≡ done ([], (resumes sp, (schedule s p).1))
unfolding timer
timer-done s p sp u z c k =
    rw (timer, z)
      (ap (λ x. done ([], (resumes x, (schedule s p).1)))
        (ap (schedule s p).1.kernel_stack_pointer c ∙ k))

-- What a timer interrupt is to do in a ring where task `u` follows the running task `t`.
abbrev pub TimerTurn : Tasks → (p t u : ℕ) → List ℕ → Outcome Handled → Type 0
TimerTurn s p t u ts outcome =
    (s' : Tasks) × (outcome ≡ done (outb 0x20 0x20 ∷ [], (resumes (s.kernel_stack_pointer u), s')))
    × Switched s p t u (s.kernel_stack_pointer u) s'
    × Running s' (u ∷ ts ++ t ∷ [])

-- A frame with the vector of the timer, dispatched with the handlers of `idt_init` in a ring where task
-- `u` follows the running task `t`: the first controller is acknowledged, the frame becomes the stack
-- pointer of `t`, and the dispatcher returns the stack pointer of `u`, which runs with its own kernel
-- stack and page directory.
pub isr_dispatcher-TimerTurn :
    (frames : ℕ → InterruptFrame) (s : Tasks) (p t u : ℕ) (ts : List ℕ)
    → (frames p).int_no ≡ 32
    → Running s (t ∷ u ∷ ts)
    → TimerTurn s p t u ts (isr_dispatcher frames init_handlers s p)
unfolding call_handler
isr_dispatcher-TimerTurn frames s p t u ts e r =
    let s' = (schedule s p).1 in
    let (w, r') = schedule-Switched s p t u ts r in
    let sw : Switched s p t u (s.kernel_stack_pointer u) s' =
      subst (λ sp. Switched s p t u sp s') w.resumed w in
    let other : (t == u) ≡ false = let d = r.ring.1.0 in ground arith in
    let kept : s'.kernel_stack_pointer u ≡ s.kernel_stack_pointer u = w.saved u ∙ ground arith in
    let z : (s'.current_task == 0) ≡ false =
      let c = w.current in let d = r.no_null in ground arith in
    let run = timer-done s p (s.kernel_stack_pointer u) u z w.current kept in
    (
      s',
      dispatcher-call frames init_handlers s p int_0x20_handler []
            (resumes (s.kernel_stack_pointer u), s') (omega arith)
            (ap (λ n. get_or init_handlers n none) e ∙ timer_vector) run
          ∙ ap (λ es. done (es ++ [], (resumes (s.kernel_stack_pointer u), s')))
              (acknowledge-master ((frames p).int_no) (omega arith) (omega arith)),
      sw,
      r',
    )

get_or-replicate : (k i : ℕ) (h : Option IsrHandler) → i < k → get_or (replicate k h) i none ≡ h
get_or-replicate zero i h lt = absurd (omega arith)
get_or-replicate (suc k) zero h lt = refl
get_or-replicate (suc k) (suc i) h lt = get_or-replicate k i h (omega arith)

other_vector : (n : ℕ) → 33 < n → n < 256 → get_or init_handlers n none ≡ some no_int_handler
unfolding init_handlers
other_vector n lo hi =
    let t0 = replicate kernel_total_interrupts (some no_int_handler) in
    let t1 = set t0 0 (some isr_0x0_handler) in
    let t2 = set t1 1 (some isr_0x1_handler) in
    let t3 = set t2 6 (some isr_0x6_handler) in
    let t4 = set t3 0xE (some isr_0xE_handler) in
    let t5 = set t4 0x20 (some int_0x20_handler) in
    let t6 = set t5 0x21 (some int_0x21_handler) in
    get_or-set_ne t6 0xD n (some int_0xD_handler) none (λ e. omega arith)
    ∙ get_or-set_ne t5 0x21 n (some int_0x21_handler) none (λ e. omega arith)
    ∙ get_or-set_ne t4 0x20 n (some int_0x20_handler) none (λ e. omega arith)
    ∙ get_or-set_ne t3 0xE n (some isr_0xE_handler) none (λ e. omega arith)
    ∙ get_or-set_ne t2 6 n (some isr_0x6_handler) none (λ e. omega arith)
    ∙ get_or-set_ne t1 1 n (some isr_0x1_handler) none (λ e. omega arith)
    ∙ get_or-set_ne t0 0 n (some isr_0x0_handler) none (λ e. omega arith)
    ∙ get_or-replicate kernel_total_interrupts n (some no_int_handler) hi

-- An interrupt of a line of the second controller, a vector from 40 up to 47, dispatched with the handlers
-- of `idt_init`: only the first controller is acknowledged, by the port 0x20; the second one is not. The
-- vector is printed, and the interrupted code goes on with the tasks as they are.
pub isr_dispatcher-second_controller :
    (frames : ℕ → InterruptFrame) (s : Tasks) (p n : ℕ)
    → (frames p).int_no ≡ n
    → 40 ≤ n
    → n < 48
    → isr_dispatcher frames init_handlers s p
      ≡ done (
        outb 0x20 0x20
            ∷ outb 0x20 0x0B
            ∷ insb 0x20
            ∷ print text_no_handler
            ∷ print_number n
            ∷ print text_end
            ∷ [],
        (resumes p, s),
      )
unfolding call_handler
isr_dispatcher-second_controller frames s p n e lo hi =
    dispatcher-call frames init_handlers s p no_int_handler
      (outb 0x20 0x0B ∷ insb 0x20 ∷ print text_no_handler ∷ print_number n ∷ print text_end ∷ [])
      (resumes p, s) (omega arith) (other_vector ((frames p).int_no) (omega arith) (omega arith))
      (ap
        (λ n. done (
          outb 0x20 0x0B ∷ insb 0x20 ∷ print text_no_handler ∷ print_number n ∷ print text_end ∷ [],
          (resumes p, s),
        ))
        e)
    ∙ ap
        (λ es. done (
          es
              ++ outb 0x20 0x0B
                ∷ insb 0x20
                ∷ print text_no_handler
                ∷ print_number n
                ∷ print text_end
                ∷ [],
          (resumes p, s),
        ))
        (acknowledge-master ((frames p).int_no) (omega arith) (omega arith))
