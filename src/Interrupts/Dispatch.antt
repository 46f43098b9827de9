-- ===== src/Interrupts/Dispatch.antt =====
-- Which handler an interrupt reaches, for the tables that kernel/src/interrupts/{idt,irq}.c build.
use deer.Base.{
  [], ◌++◌, false, leb, lt→ltb, ℕ, zero, suc, ◌+◌, ◌-◌, ◌*◌, ◌<◌, ◌≤◌, ◌≡◌, refl, ap, ◌∙◌, arith,
  Bool, true, Option, none, some, ◌∷◌, inl, inr, Bool-cases, ◌==◌, ◌||◌, if◌then◌else◌, update,
  update_other, ltb,
}
use deer.Trace.{
  Handler, outb, exception_handler, handle_page_fault, handle_general_protection_fault,
  handle_double_fault, called, lapic_eoi, halted, Trace,
}
use deer.Pic.{pic_send_eoi}
use deer.Interrupts.{
  set_stubs, stub_calls, clear_gates, dispatch, Tables, idt_init, install_exceptions,
  isr_install_handler, handle_exception, call_handler, handler_or_default, irq_handler, isr_handler,
  irq_install_handler,
}

-- The handlers of the exceptions.
abbrev pub exception_table : ℕ → Handler
exception_table i =
    if i == 8
    then handle_double_fault
    else (if i == 13
        then handle_general_protection_fault
        else (if i == 14 then handle_page_fault else exception_handler))

installed-below :
    (left i j : ℕ) (k : Tables)
    → j < i
    → (install_exceptions left i k).isr_handlers j ≡ k.isr_handlers j
unfolding install_exceptions isr_install_handler
installed-below zero i j k h = refl
installed-below (suc left) i j k h =
    installed-below left (i + 1) j (isr_install_handler i exception_handler k) (omega arith)
    ∙ update_other k.isr_handlers i j _ (λ (q : j ≡ i). omega arith)

installed-at :
    (left i j : ℕ) (k : Tables)
    → i ≤ j
    → j < i + left
    → (install_exceptions left i k).isr_handlers j ≡ some exception_handler
unfolding install_exceptions isr_install_handler
installed-at zero i j k p q = absurd (omega arith)
installed-at (suc left) i j k p q = elim (Bool-cases (j == i)) [
  | inl here ↦
      installed-below left (i + 1) j (isr_install_handler i exception_handler k) (ground arith)
      ∙ ground arith
  | inr later ↦
      installed-at left (i + 1) j (isr_install_handler i exception_handler k) (ground arith)
        (omega arith)
]

-- The three handlers that `idt_init` sets last.
abbrev last_three : (ℕ → Option Handler) → ℕ → Option Handler
last_three f =
    update (update (update f 14 (some handle_page_fault)) 13 (some handle_general_protection_fault))
      8 (some handle_double_fault)

last_three-at :
    (f : ℕ → Option Handler) (i : ℕ)
    → f i ≡ some exception_handler
    → last_three f i ≡ some (exception_table i)
last_three-at f i e = elim (Bool-cases (i == 8)) [
  | inl a ↦ rw a refl
  | inr a ↦ elim (Bool-cases (i == 13)) [
    | inl b ↦ rw (a, b) refl
    | inr b ↦ elim (Bool-cases (i == 14)) [ inl c ↦ rw (a, b, c) refl | inr c ↦ rw (a, b, c) e ]
  ]
]

idt_init-table :
    (isr_stub : ℕ → ℕ) (k : Tables) (i : ℕ)
    → i < 32
    → (idt_init isr_stub k).isr_handlers i ≡ some (exception_table i)
unfolding idt_init isr_install_handler
idt_init-table isr_stub k i h =
    last_three-at (install_exceptions 32 0 filled).isr_handlers i
      (installed-at 32 0 i filled (omega arith) h)
  where
    filled : Tables
    filled = record k {
      idt = set_stubs isr_stub stub_calls (clear_gates 256 0 k.idt);
      limit = 16 * 256 - 1;
    }

isr_handler-own :
    (apic : Bool) (k : Tables) (i : ℕ) (h : Handler) (t : Trace)
    → k.isr_handlers i ≡ some h
    → isr_handler apic k i t ≡ call_handler h i t
unfolding isr_handler dispatch
isr_handler-own apic k i h t e = ap (dispatch apic k i t) e

leb-vector : (j : ℕ) → leb 32 (32 + j) ≡ true
leb-vector j = ground arith

ltb-vector : (j : ℕ) → j < 16 → ltb (32 + j) 48 ≡ true
ltb-vector j p = ground arith

isr_handler-irq :
    (apic : Bool) (k : Tables) (j : ℕ) (t : Trace)
    → j < 16
    → k.isr_handlers (32 + j) ≡ none
    → isr_handler apic k (32 + j) t ≡ irq_handler apic k (32 + j) t
unfolding isr_handler dispatch
isr_handler-irq apic k j t p e =
    ap (dispatch apic k (32 + j) t) e ∙ rw (leb-vector j, ltb-vector j p) refl

-- The end of a hardware interrupt.
abbrev pub ended : (apic : Bool) (irq : ℕ) → Trace → Trace
ended apic irq t = if apic then lapic_eoi ∷ t else pic_send_eoi irq t

irq_handler-at :
    (apic : Bool) (k : Tables) (j : ℕ) (t : Trace)
    → j < 16
    → irq_handler apic k (32 + j) t
      ≡ ended apic j (call_handler (handler_or_default (k.irq_handlers j)) (32 + j) t)
unfolding irq_handler
irq_handler-at apic k j t p =
    ap (λ n. ended apic n (call_handler (handler_or_default (k.irq_handlers n)) (32 + j) t))
      (omega arith)

generic :
    (i : ℕ) (t : Trace)
    → i < 32
    → call_handler exception_handler i t ≡ (
        if i == 3 || i == 4
        then called exception_handler i ∷ t
        else halted ∷ called exception_handler i ∷ t)
unfolding call_handler handle_exception
generic i t h = rw (lt→ltb i 32 h) refl

called-exception :
    (i : ℕ) (t : Trace)
    → i < 32
    → call_handler (exception_table i) i t ≡ (
        if i == 8 || i == 13 || i == 14 || i == 3 || i == 4
        then called (exception_table i) i ∷ t
        else halted ∷ called exception_handler i ∷ t)
unfolding call_handler
called-exception i t h = elim (Bool-cases (i == 8)) [
  | inl a ↦ rw a refl
  | inr a ↦ elim (Bool-cases (i == 13)) [
    | inl b ↦ rw (a, b) refl
    | inr b ↦ elim (Bool-cases (i == 14)) [
      | inl c ↦ rw (a, b, c) refl
      | inr c ↦ rw (a, b, c) (generic i t h)
    ]
  ]
]

-- After `idt_init` an exception is handled by the function that is meant for it: the double fault,
-- the general protection fault and the page fault by their own handlers; a breakpoint and an
-- overflow reach `exception_handler`, which returns; and every other one reaches it and halts. None
-- is taken for a hardware interrupt or ends one.
pub idt_init-exceptions :
    (apic : Bool) (isr_stub : ℕ → ℕ) (k : Tables) (i : ℕ) (t : Trace)
    → i < 32
    → isr_handler apic (idt_init isr_stub k) i t ≡ (
        if i == 8 || i == 13 || i == 14 || i == 3 || i == 4
        then called (exception_table i) i ∷ t
        else halted ∷ called exception_handler i ∷ t)
idt_init-exceptions apic isr_stub k i t h =
    isr_handler-own apic (idt_init isr_stub k) i (exception_table i) t
      (idt_init-table isr_stub k i h)
    ∙ called-exception i t h

-- The commands that end an interrupt of a line, newest first: the local APIC's, or one to the
-- controller at 0x20, and before it one to that at 0xA0 for a line of the second controller.
abbrev pub end_commands : (apic : Bool) (irq : ℕ) → Trace
end_commands apic irq =
    if apic
    then lapic_eoi ∷ []
    else (if ltb irq 8 then outb 0x20 0x20 ∷ [] else outb 0x20 0x20 ∷ outb 0xA0 0x20 ∷ [])

ended-commands : (apic : Bool) (irq : ℕ) (t : Trace) → ended apic irq t ≡ end_commands apic irq ++ t
unfolding pic_send_eoi
ended-commands true irq t = refl
ended-commands false irq t = elim (Bool-cases (ltb irq 8)) [
  | inl low ↦ rw (low, high_test irq low) refl
  | inr high ↦ rw (high, low_test irq high) refl
]
  where
    high_test : (irq : ℕ) → ltb irq 8 ≡ true → leb 8 irq ≡ false
    high_test irq e = ground arith

    low_test : (irq : ℕ) → ltb irq 8 ≡ false → leb 8 irq ≡ true
    low_test irq e = ground arith

-- Where the vector of a line has no handler among those of the exceptions, an interrupt of the line
-- calls, once `irq_install_handler` has put a handler in for one of the sixteen lines, that handler
-- if the line is the same and the one that it had before if it is not; when the handler returns,
-- the interrupt is ended by the command of the local APIC, or of the controller that has the line
-- and of the first one.
pub irq_install-dispatch :
    (inb : ℕ → Trace → ℕ) (apic : Bool) (irq j : ℕ) (h : Handler) (k : Tables) (t t' : Trace)
    → irq < 16
    → j < 16
    → k.isr_handlers (32 + j) ≡ none
    → isr_handler apic ((irq_install_handler inb irq h (k, t)).0) (32 + j) t'
      ≡ end_commands apic j
        ++ call_handler (if j == irq then h else handler_or_default (k.irq_handlers j)) (32 + j) t'
unfolding irq_install_handler handler_or_default
irq_install-dispatch inb apic irq j h k t t' p q e =
    ap (λ (k' : Tables). isr_handler apic k' (32 + j) t') first
    ∙ isr_handler-irq apic next j t' q e
    ∙ irq_handler-at apic next j t' q
    ∙ ap (λ h'. ended apic j (call_handler h' (32 + j) t')) chosen
    ∙ ended-commands apic j _
  where
    next : Tables
    next = record k { irq_handlers = update k.irq_handlers irq (some h) }

    first : (irq_install_handler inb irq h (k, t)).0 ≡ next
    first = rw (lt→ltb irq 16 p) refl

    chosen :
        handler_or_default (next.irq_handlers j)
        ≡ (if j == irq then h else handler_or_default (k.irq_handlers j))
    chosen = elim (Bool-cases (j == irq)) [ inl a ↦ rw a refl | inr a ↦ rw a refl ]
