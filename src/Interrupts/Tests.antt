-- ===== src/Interrupts/Tests.antt =====
-- Interrupts on a ring of three tasks.
use avocad_os.Base.{ℕ, ◌+◌, ◌*◌, ◌≡◌, refl, [], ◌∷◌, arith, ◌==◌, if◌then◌else◌, get_or, done}
use avocad_os.Links.{Links}
use avocad_os.Paging.{page_entry_addr}
use avocad_os.Tasks.{Tasks, kstack_top}
use avocad_os.Tasks.Schedule.{Running}
use avocad_os.Interrupts.{
  InterruptFrame, init_handlers, init_gates, no_gate, isr_dispatcher, outb, insb, print,
  print_number, text_no_handler, text_end, resumes, irq_set_mask, irq_clear_mask, mask_port,
  mask_bit,
}
use avocad_os.Interrupts.Gates.{IsGate, kind_of, init_gates-IsGate}
use avocad_os.Interrupts.Dispatch.{
  TimerTurn, isr_dispatcher-TimerTurn, isr_dispatcher-second_controller,
}
use avocad_os.Interrupts.Reach.{
  interrupt, Reachable, start, more, Consistent, Keeps, Reachable-Keeps,
}

-- 100 → 200 → 300 → 100
abbrev links : Links
links = record {
  next = λ x. if x == 100 then 200 else if x == 200 then 300 else if x == 300 then 100 else 0;
  prev = λ x. if x == 100 then 300 else if x == 200 then 100 else if x == 300 then 200 else 0;
}

abbrev tasks : Tasks
tasks = record {
  links = links;
  current_task = 100;
  kernel_stack_pointer = λ x. x + 7;
  n_switches = λ x. 0;
  tss_esp0 = 16484;
  cr3 = 409600;
  directory = λ x. x * 4096 + 3;
}

tasks-Running : Running tasks (100 ∷ 200 ∷ 300 ∷ [])
tasks-Running = record { ring = ground arith; no_null = refl; current = refl }

tasks-Consistent : Consistent tasks (100 ∷ 200 ∷ 300 ∷ [])
unfolding kstack_top page_entry_addr
tasks-Consistent = record { running = tasks-Running; stack = refl; directory = refl }

-- The frame at an address has the address as its vector.
abbrev frames : ℕ → InterruptFrame
frames p = record { int_no = p; error_code = 0; eip = 0 }

init_gates-IsGate_example :
    IsGate (get_or (init_gates (λ i. 4096 + i)) 32 no_gate) 4128 (kind_of 32)
init_gates-IsGate_example = init_gates-IsGate (λ i. 4096 + i) 32 (omega arith) (omega arith)

isr_dispatcher-TimerTurn_example :
    TimerTurn tasks 32 100 200 (300 ∷ []) (isr_dispatcher frames init_handlers tasks 32)
isr_dispatcher-TimerTurn_example =
    isr_dispatcher-TimerTurn frames tasks 32 100 200 (300 ∷ []) refl tasks-Running

isr_dispatcher-second_controller_example :
    isr_dispatcher frames init_handlers tasks 41
    ≡ done (
      outb 0x20 0x20
          ∷ outb 0x20 0x0B
          ∷ insb 0x20
          ∷ print text_no_handler
          ∷ print_number 41
          ∷ print text_end
          ∷ [],
      (resumes 41, tasks),
    )
isr_dispatcher-second_controller_example =
    isr_dispatcher-second_controller frames tasks 41 41 refl (omega arith) (omega arith)

abbrev after_timer : Tasks
after_timer = (isr_dispatcher-TimerTurn frames tasks 32 100 200 (300 ∷ []) refl tasks-Running).0

-- A timer interrupt, and a keyboard interrupt behind it.
timer_reached : Reachable frames tasks after_timer
timer_reached = more tasks after_timer start (
    interrupt 32 207 (outb 0x20 0x20 ∷ []) after_timer
      (isr_dispatcher-TimerTurn frames tasks 32 100 200 (300 ∷ []) refl tasks-Running).1)

Reachable-Keeps_example : Keeps after_timer 300
Reachable-Keeps_example =
    Reachable-Keeps frames tasks after_timer (100 ∷ 200 ∷ 300 ∷ []) 300 timer_reached
      tasks-Consistent refl

mask_second : irq_set_mask (λ port. 1) 10 ≡ insb 0xA1 ∷ outb 0xA1 5 ∷ []
unfolding irq_set_mask mask_port mask_bit
mask_second = refl

unmask_first : irq_clear_mask (λ port. 255) 1 ≡ insb 0x21 ∷ outb 0x21 253 ∷ []
unfolding irq_clear_mask mask_port mask_bit
unmask_first = refl
