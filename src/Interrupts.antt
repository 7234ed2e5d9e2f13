-- ===== src/Interrupts.antt =====
-- src/idt/idt.c: the interrupt table, the dispatcher and the handlers. What goes to the ports and to the
-- terminal is a list of effects, in their order; a number that is printed by way of itoa is an effect
-- of its own. The assembly routines that push a frame and call the dispatcher are not modelled: an
-- interrupt is the address of its frame.
mod Tests
pub mod Gates
pub mod Dispatch
pub mod Reach
use avocad_os.Base.{
  ℕ, zero, suc, ◌+◌, ◌-◌, ◌*◌, ◌/◌, ◌%◌, ◌^◌, bit_and, bit_or, Bool, true, false, Option, none,
  some, List, [], ◌∷◌, ◌++◌, ltb, leb, ◌==◌, if◌then◌else◌, get_or, set, replicate, Outcome, done,
  fault, ◌>>=◌,
}
use avocad_os.Tasks.{Tasks, schedule}

-- KERNEL_TOTAL_INTERRUPTS, INTGATE, TRAPGATE, GDT_KERNEL_CODE_SEGMENT_SELECTOR
abbrev pub kernel_total_interrupts : ℕ
kernel_total_interrupts = 256

abbrev pub intgate : ℕ
intgate = 0x8E

abbrev pub trapgate : ℕ
trapgate = 0xEF

abbrev pub kernel_code_selector : ℕ
kernel_code_selector = 8

-- `struct idt_desc`
pub record IdtDesc : Type 0 where
  pub offset_1 : ℕ
  pub selector : ℕ
  pub zero_byte : ℕ
  pub type_attr : ℕ
  pub offset_2 : ℕ

abbrev pub no_gate : IdtDesc
no_gate = record { offset_1 = 0; selector = 0; zero_byte = 0; type_attr = 0; offset_2 = 0 }

unfoldable pub idt_set : List IdtDesc → ℕ → ℕ → ℕ → List IdtDesc
idt_set idt_descriptors int_number addr type = set idt_descriptors int_number (record {
  offset_1 = addr % 2 ^ 16;
  selector = kernel_code_selector;
  zero_byte = 0;
  type_attr = bit_or type 0x60;
  offset_2 = addr / 2 ^ 16 % 2 ^ 16;
})

-- A loop of `idt_init`: `k` interrupt gates from gate `i` on.
unfoldable pub set_gates : (ℕ → ℕ) → List IdtDesc → ℕ → ℕ → List IdtDesc
set_gates isr_table idt_descriptors zero i = idt_descriptors
set_gates isr_table idt_descriptors (suc k) i =
    set_gates isr_table (idt_set idt_descriptors i (isr_table i) intgate) k (i + 1)

-- The table that `idt_init` makes of the addresses in `isr_table`.
unfoldable pub init_gates : (ℕ → ℕ) → List IdtDesc
init_gates isr_table =
    let t = replicate kernel_total_interrupts no_gate in
    let t = set_gates isr_table t 3 0 in
    let t = idt_set t 3 (isr_table 3) trapgate in
    let t = idt_set t 4 (isr_table 4) trapgate in set_gates isr_table t 43 5

-- The functions that `isr_handlers` points to.
pub data IsrHandler : Type 0 where
  isr_0x0_handler : IsrHandler
  isr_0x1_handler : IsrHandler
  isr_0x6_handler : IsrHandler
  int_0xD_handler : IsrHandler
  isr_0xE_handler : IsrHandler
  int_0x20_handler : IsrHandler
  int_0x21_handler : IsrHandler
  no_int_handler : IsrHandler

-- The handlers that `idt_init` sets.
unfoldable pub init_handlers : List (Option IsrHandler)
init_handlers =
    let t = replicate kernel_total_interrupts (some no_int_handler) in
    let t = set t 0 (some isr_0x0_handler) in
    let t = set t 1 (some isr_0x1_handler) in
    let t = set t 6 (some isr_0x6_handler) in
    let t = set t 0xE (some isr_0xE_handler) in
    let t = set t 0x20 (some int_0x20_handler) in
    let t = set t 0x21 (some int_0x21_handler) in set t 0xD (some int_0xD_handler)

-- The fields of `struct interrupt_frame` that the handlers read.
pub record InterruptFrame : Type 0 where
  pub int_no : ℕ
  pub error_code : ℕ
  pub eip : ℕ

pub data Effect : Type 0 where
  outb : (port value : ℕ) → Effect
  insb : (port : ℕ) → Effect
  print : List ℕ → Effect
  print_number : ℕ → Effect
  panic : List ℕ → Effect

-- "DIV0\n"
abbrev pub text_div0 : List ℕ
text_div0 = 68 ∷ 73 ∷ 86 ∷ 48 ∷ 10 ∷ []

-- "ISR1\n"
abbrev pub text_isr1 : List ℕ
text_isr1 = 73 ∷ 83 ∷ 82 ∷ 49 ∷ 10 ∷ []

-- "ISR 6 -> "
abbrev pub text_isr6 : List ℕ
text_isr6 = 73 ∷ 83 ∷ 82 ∷ 32 ∷ 54 ∷ 32 ∷ 45 ∷ 62 ∷ 32 ∷ []

-- "Int 0xE - Page Fault\n"
abbrev pub text_page_fault : List ℕ
text_page_fault =
    73 ∷ 110 ∷ 116 ∷ 32 ∷ 48 ∷ 120 ∷ 69 ∷ 32 ∷ 45 ∷ 32 ∷ 80 ∷ 97 ∷ 103 ∷ 101 ∷ 32 ∷ 70 ∷ 97 ∷ 117
    ∷ 108 ∷ 116 ∷ 10 ∷ []

-- "Int 0x21 - Keyboard\n"
abbrev pub text_keyboard : List ℕ
text_keyboard =
    73 ∷ 110 ∷ 116 ∷ 32 ∷ 48 ∷ 120 ∷ 50 ∷ 49 ∷ 32 ∷ 45 ∷ 32 ∷ 75 ∷ 101 ∷ 121 ∷ 98 ∷ 111 ∷ 97 ∷ 114
    ∷ 100 ∷ 10 ∷ []

-- "GPF"
abbrev pub text_gpf : List ℕ
text_gpf = 71 ∷ 80 ∷ 70 ∷ []

-- "No Int handler -> "
abbrev pub text_no_handler : List ℕ
text_no_handler =
    78 ∷ 111 ∷ 32 ∷ 73 ∷ 110 ∷ 116 ∷ 32 ∷ 104 ∷ 97 ∷ 110 ∷ 100 ∷ 108 ∷ 101 ∷ 114 ∷ 32 ∷ 45 ∷ 62 ∷ 32
    ∷ []

-- " \n"
abbrev pub text_end : List ℕ
text_end = 32 ∷ 10 ∷ []

-- "\n"
abbrev pub text_newline : List ℕ
text_newline = 10 ∷ []

-- "Unhandled Interrupt!\n"
abbrev pub text_unhandled : List ℕ
text_unhandled =
    85 ∷ 110 ∷ 104 ∷ 97 ∷ 110 ∷ 100 ∷ 108 ∷ 101 ∷ 100 ∷ 32 ∷ 73 ∷ 110 ∷ 116 ∷ 101 ∷ 114 ∷ 114 ∷ 117
    ∷ 112 ∷ 116 ∷ 33 ∷ 10 ∷ []

-- How a handler ends: with the stack pointer to go on with, or never.
pub data Reaction : Type 0 where
  resumes : ℕ → Reaction
  stays : Reaction

abbrev pub Handled : Type 0
Handled = List Effect × (Reaction × Tasks)

unfoldable pub pic_ack : ℕ → List Effect
pic_ack intno = if leb 40 intno then outb 0xA0 0x20 ∷ outb 0x20 0x20 ∷ [] else outb 0x20 0x20 ∷ []

-- `int_0x20_handler`: what `schedule` returns is not used. Without a current task its stack pointer
-- is read through NULL.
unfoldable pub timer : Tasks → ℕ → Outcome Handled
timer s interrupt_frame =
    let s = (schedule s interrupt_frame).1 in
    if s.current_task == 0
    then fault
    else done ([], (resumes (s.kernel_stack_pointer s.current_task), s))

-- A call of a handler with the frame at an address.
unfoldable pub call_handler : (ℕ → InterruptFrame) → Tasks → ℕ → IsrHandler → Outcome Handled
call_handler frames s p isr_0x0_handler = done (print text_div0 ∷ [], (resumes p, s))
call_handler frames s p isr_0x1_handler = done (print text_isr1 ∷ [], (resumes p, s))
call_handler frames s p isr_0x6_handler =
    done (print text_isr6 ∷ print_number ((frames p).eip) ∷ print text_newline ∷ [], (stays, s))
call_handler frames s p int_0xD_handler = done (panic text_gpf ∷ [], (stays, s))
call_handler frames s p isr_0xE_handler =
    done (print_number ((frames p).error_code) ∷ panic text_page_fault ∷ [], (stays, s))
call_handler frames s p int_0x20_handler = timer s p
call_handler frames s p int_0x21_handler = done (print text_keyboard ∷ [], (resumes p, s))
call_handler frames s p no_int_handler = done (
  outb 0x20 0x0B
      ∷ insb 0x20
      ∷ print text_no_handler
      ∷ print_number ((frames p).int_no)
      ∷ print text_end
      ∷ [],
  (resumes p, s),
)

-- The acknowledgement that `isr_dispatcher` gives before it calls a handler.
unfoldable pub acknowledge : ℕ → List Effect
acknowledge int_no = if ltb 31 int_no then pic_ack (int_no - 32) else []

-- `isr_dispatcher` on the frame at an address; a number outside the table reads past it.
unfoldable pub isr_dispatcher :
    (ℕ → InterruptFrame) → List (Option IsrHandler) → Tasks → ℕ → Outcome Handled
isr_dispatcher frames isr_handlers s p = elim (ltb ((frames p).int_no) kernel_total_interrupts) [
  | false ↦ fault
  | true ↦ elim (get_or isr_handlers ((frames p).int_no) none) [
    | none ↦ done (acknowledge ((frames p).int_no) ++ print text_unhandled ∷ [], (resumes p, s))
    | some handler ↦
        call_handler frames s p handler
        >>= (λ r. done (acknowledge ((frames p).int_no) ++ r.0, r.1))
  ]
]

-- The port and the bit of an IRQ line: PIC1_DATA or PIC2_DATA.
unfoldable pub mask_port : ℕ → ℕ
mask_port irq_line = if ltb irq_line 8 then 0x21 else 0xA1

unfoldable pub mask_bit : ℕ → ℕ
mask_bit irq_line = if ltb irq_line 8 then irq_line else irq_line - 8

-- `IRQ_set_mask` and `IRQ_clear_mask`, for a line below 16, with what the ports hold.
unfoldable pub irq_set_mask : (ℕ → ℕ) → ℕ → List Effect
irq_set_mask ports irq_line =
    insb (mask_port irq_line)
    ∷ outb (mask_port irq_line) (bit_or (ports (mask_port irq_line)) (2 ^ mask_bit irq_line))
    ∷ []

unfoldable pub irq_clear_mask : (ℕ → ℕ) → ℕ → List Effect
irq_clear_mask ports irq_line =
    insb (mask_port irq_line)
    ∷ outb (mask_port irq_line) (bit_and (ports (mask_port irq_line)) (255 - 2 ^ mask_bit irq_line))
    ∷ []

-- `remap_master_pic_C` of src/kernel/kernel.c, without its delays: the commands that set the first vector
-- of the first controller to 0x20 and that of the second one to 0x28, and masks that let all lines
-- through.
unfoldable pub remap_master_pic : List Effect
remap_master_pic =
    outb 0x20 0x11
    ∷ outb 0xA0 0x11
    ∷ outb 0x21 0x20
    ∷ outb 0xA1 0x28
    ∷ outb 0x21 0x04
    ∷ outb 0xA1 0x02
    ∷ outb 0x21 0x01
    ∷ outb 0xA1 0x01
    ∷ outb 0x21 0x00
    ∷ outb 0xA1 0x00
    ∷ []
