-- ===== src/Interrupts/Gates.antt =====
-- What the processor reads in the table of `idt_init`.
use avocad_os.Base.{
  ℕ, zero, suc, ◌+◌, ◌*◌, ◌/◌, ◌%◌, ◌^◌, ◌<◌, ◌≤◌, ◌≡◌, ◌∙◌, refl, sym, subst, ap, inl, inr, ◌⊎◌,
  ◌≢◌, List, arith, get_or-set_self, get_or-set_ne, length-set, length-replicate, ltb, ◌==◌, ◌||◌,
  if◌then◌else◌, get_or, replicate, length, bit_or, Bool-cases,
}
use avocad_os.Interrupts.{
  IdtDesc, idt_set, set_gates, init_gates, no_gate, intgate, trapgate, kernel_code_selector,
  kernel_total_interrupts,
}

-- How the processor reads a gate: the offset, the kind of gate, the privilege that may raise it, and
-- whether it is there.
abbrev pub gate_offset : IdtDesc → ℕ
gate_offset d = d.offset_1 + d.offset_2 * 2 ^ 16

abbrev pub gate_kind : IdtDesc → ℕ
gate_kind d = d.type_attr % 32

abbrev pub gate_privilege : IdtDesc → ℕ
gate_privilege d = d.type_attr / 32 % 4

abbrev pub gate_present : IdtDesc → ℕ
gate_present d = d.type_attr / 128

-- A gate of the kernel's code that leads to an address; `kind` is 14 for an interrupt gate, 15 for a trap
-- gate, and every program may raise it.
pub record IsGate (d : IdtDesc) (addr kind : ℕ) : Type 0 where
  pub leads : gate_offset d ≡ addr
  pub code : d.selector ≡ kernel_code_selector
  pub kinds : gate_kind d ≡ kind
  pub anyone : gate_privilege d ≡ 3
  pub present : gate_present d ≡ 1

abbrev gate : ℕ → ℕ → IdtDesc
gate addr type = record {
  offset_1 = addr % 2 ^ 16;
  selector = kernel_code_selector;
  zero_byte = 0;
  type_attr = bit_or type 0x60;
  offset_2 = addr / 2 ^ 16 % 2 ^ 16;
}

idt_set_self :
    (t : List IdtDesc) (i addr type : ℕ)
    → i < length t
    → get_or (idt_set t i addr type) i no_gate ≡ gate addr type
unfolding idt_set
idt_set_self t i addr type lt = get_or-set_self t i (gate addr type) no_gate lt

idt_set-other :
    (t : List IdtDesc) (i j addr type : ℕ)
    → i ≢ j
    → get_or (idt_set t i addr type) j no_gate ≡ get_or t j no_gate
unfolding idt_set
idt_set-other t i j addr type ne = get_or-set_ne t i j (gate addr type) no_gate ne

length-idt_set : (t : List IdtDesc) (i addr type : ℕ) → length (idt_set t i addr type) ≡ length t
unfolding idt_set
length-idt_set t i addr type = length-set t i (gate addr type)

length-set_gates : (f : ℕ → ℕ) (t : List IdtDesc) (k i : ℕ) → length (set_gates f t k i) ≡ length t
unfolding set_gates
length-set_gates f t zero i = refl
length-set_gates f t (suc k) i =
    length-set_gates f (idt_set t i (f i) intgate) k (i + 1) ∙ length-idt_set t i (f i) intgate

set_gates-outside :
    (f : ℕ → ℕ) (t : List IdtDesc) (k i j : ℕ)
    → (j < i) ⊎ (i + k ≤ j)
    → get_or (set_gates f t k i) j no_gate ≡ get_or t j no_gate
unfolding set_gates
set_gates-outside f t zero i j h = refl
set_gates-outside f t (suc k) i j h =
    set_gates-outside f (idt_set t i (f i) intgate) k (i + 1) j
      (elim h [ inl a ↦ inl (omega arith) | inr b ↦ inr (omega arith) ])
    ∙ idt_set-other t i j (f i) intgate (λ e. elim h [ inl a ↦ omega arith | inr b ↦ omega arith ])

set_gates-inside :
    (f : ℕ → ℕ) (t : List IdtDesc) (k i j : ℕ)
    → i ≤ j
    → j < i + k
    → i + k ≤ length t
    → get_or (set_gates f t k i) j no_gate ≡ gate (f j) intgate
unfolding set_gates
set_gates-inside f t zero i j lo hi le = absurd (omega arith)
set_gates-inside f t (suc k) i j lo hi le = elim (Bool-cases (i == j)) [
  | inl e ↦
      let same : i ≡ j = ground arith in
      set_gates-outside f (idt_set t i (f i) intgate) k (i + 1) j (inl (omega arith))
      ∙ ap (λ n. get_or (idt_set t i (f i) intgate) n no_gate) (sym same)
      ∙ idt_set_self t i (f i) intgate (omega arith)
      ∙ ap (λ n. gate (f n) intgate) same
  | inr e ↦
      let l = length-idt_set t i (f i) intgate in
      set_gates-inside f (idt_set t i (f i) intgate) k (i + 1) j (ground arith) (omega arith)
        (omega arith)
]

-- The kind of the gate of a vector.
abbrev pub kind_of : ℕ → ℕ
kind_of i = if i == 3 || i == 4 then 15 else 14

interrupt-IsGate : (addr : ℕ) → addr < 2 ^ 32 → IsGate (gate addr intgate) addr 14
interrupt-IsGate addr lt = record {
  leads = omega arith;
  code = refl;
  kinds = refl;
  anyone = refl;
  present = refl;
}

trap-IsGate : (addr : ℕ) → addr < 2 ^ 32 → IsGate (gate addr trapgate) addr 15
trap-IsGate addr lt = record {
  leads = omega arith;
  code = refl;
  kinds = refl;
  anyone = refl;
  present = refl;
}

-- The steps of `init_gates`.
abbrev gates_3 : (ℕ → ℕ) → List IdtDesc
gates_3 f = set_gates f (replicate kernel_total_interrupts no_gate) 3 0

abbrev gates_5 : (ℕ → ℕ) → List IdtDesc
gates_5 f = idt_set (idt_set (gates_3 f) 3 (f 3) trapgate) 4 (f 4) trapgate

length-gates_3 : (f : ℕ → ℕ) → length (gates_3 f) ≡ 256
length-gates_3 f =
    length-set_gates f (replicate kernel_total_interrupts no_gate) 3 0
    ∙ length-replicate kernel_total_interrupts no_gate

length-gates_5 : (f : ℕ → ℕ) → length (gates_5 f) ≡ 256
length-gates_5 f =
    length-idt_set (idt_set (gates_3 f) 3 (f 3) trapgate) 4 (f 4) trapgate
    ∙ length-idt_set (gates_3 f) 3 (f 3) trapgate
    ∙ length-gates_3 f

init_gates-low :
    (f : ℕ → ℕ) (i : ℕ) → i < 5 → get_or (init_gates f) i no_gate ≡ get_or (gates_5 f) i no_gate
unfolding init_gates
init_gates-low f i lt = set_gates-outside f (gates_5 f) 43 5 i (inl lt)

init_gates-high :
    (f : ℕ → ℕ) (i : ℕ) → 5 ≤ i → i < 48 → get_or (init_gates f) i no_gate ≡ gate (f i) intgate
unfolding init_gates
init_gates-high f i lo hi =
    let l = length-gates_5 f in set_gates-inside f (gates_5 f) 43 5 i lo (omega arith) (omega arith)

gates_5-low : (f : ℕ → ℕ) (i : ℕ) → i < 3 → get_or (gates_5 f) i no_gate ≡ gate (f i) intgate
gates_5-low f i lt =
    let l = length-replicate kernel_total_interrupts no_gate in
    idt_set-other (idt_set (gates_3 f) 3 (f 3) trapgate) 4 i (f 4) trapgate (λ e. omega arith)
    ∙ idt_set-other (gates_3 f) 3 i (f 3) trapgate (λ e. omega arith)
    ∙ set_gates-inside f (replicate kernel_total_interrupts no_gate) 3 0 i (omega arith)
        (omega arith) (omega arith)

gates_5-three : (f : ℕ → ℕ) → get_or (gates_5 f) 3 no_gate ≡ gate (f 3) trapgate
gates_5-three f =
    let l = length-gates_3 f in
    idt_set-other (idt_set (gates_3 f) 3 (f 3) trapgate) 4 3 (f 4) trapgate (λ e. omega arith)
    ∙ idt_set_self (gates_3 f) 3 (f 3) trapgate (omega arith)

gates_5-four : (f : ℕ → ℕ) → get_or (gates_5 f) 4 no_gate ≡ gate (f 4) trapgate
gates_5-four f =
    let l = length-gates_3 f in
    let m = length-idt_set (gates_3 f) 3 (f 3) trapgate in
    idt_set_self (idt_set (gates_3 f) 3 (f 3) trapgate) 4 (f 4) trapgate (omega arith)

vector-cases : (i : ℕ) → i < 48 → (i < 3) ⊎ ((i ≡ 3) ⊎ ((i ≡ 4) ⊎ (5 ≤ i)))
vector-cases i lt = elim (Bool-cases (ltb i 3)) [
  | inl a ↦ inl (ground arith)
  | inr a ↦ elim (Bool-cases (i == 3)) [
    | inl b ↦ inr (inl (ground arith))
    | inr b ↦ elim (Bool-cases (i == 4)) [
      | inl c ↦ inr (inr (inl (ground arith)))
      | inr c ↦ inr (inr (inr (ground arith)))
    ]
  ]
]

-- With the 32-bit address of a routine for each of the first 48 vectors, the processor finds in the
-- table of `idt_init`, at each of them, a gate that is present, leads to that routine in the kernel's
-- code segment and may be raised from every privilege level: a trap gate for the vectors 3 and 4 and an
-- interrupt gate for the others.
pub init_gates-IsGate :
    (isr_table : ℕ → ℕ) (i : ℕ)
    → i < 48
    → isr_table i < 2 ^ 32
    → IsGate (get_or (init_gates isr_table) i no_gate) (isr_table i) (kind_of i)
init_gates-IsGate f i lt fits = elim (vector-cases i lt) [
  | inl a ↦
      let k : 14 ≡ kind_of i = ground arith in
      subst (λ k. IsGate (get_or (init_gates f) i no_gate) (f i) k) k
        (subst (λ g. IsGate g (f i) 14) (sym (init_gates-low f i (omega arith) ∙ gates_5-low f i a))
          (interrupt-IsGate (f i) fits))
  | inr (inl b) ↦
      subst (λ n. IsGate (get_or (init_gates f) n no_gate) (f n) (kind_of n)) (sym b)
        (subst (λ g. IsGate g (f 3) 15) (sym (init_gates-low f 3 (omega arith) ∙ gates_5-three f))
          (trap-IsGate (f 3) (subst (λ n. f n < 2 ^ 32) b fits)))
  | inr (inr (inl c)) ↦
      subst (λ n. IsGate (get_or (init_gates f) n no_gate) (f n) (kind_of n)) (sym c)
        (subst (λ g. IsGate g (f 4) 15) (sym (init_gates-low f 4 (omega arith) ∙ gates_5-four f))
          (trap-IsGate (f 4) (subst (λ n. f n < 2 ^ 32) c fits)))
  | inr (inr (inr d)) ↦
      let k : 14 ≡ kind_of i = ground arith in
      subst (λ k. IsGate (get_or (init_gates f) i no_gate) (f i) k) k
        (subst (λ g. IsGate g (f i) 14) (sym (init_gates-high f i d lt))
          (interrupt-IsGate (f i) fits))
]
