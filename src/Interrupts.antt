-- ===== src/Interrupts.antt =====
-- kernel/src/interrupts/{idt,isr,irq}.c: the table of gates, the two tables of handlers, and what
-- an interrupt does. The addresses of the assembly stubs are the argument `isr_stub`.
pub mod Gates
pub mod Dispatch
mod Examples
use deer.Base.{
  ℕ, zero, suc, ◌+◌, ◌-◌, ◌*◌, ◌/◌, ◌%◌, ◌^◌, bit_and, bit_or, Bool, Option, none, some, List, [],
  ◌∷◌, ltb, leb, ◌==◌, ◌&&◌, ◌||◌, if◌then◌else◌, u8, ◌<<<◌, ◌>>>◌, update,
}
use deer.Trace.{
  Handler, exception_handler, handle_page_fault, handle_general_protection_fault,
  handle_double_fault, irq_default_handler, other_handler, Event, called, lapic_eoi, halted, Trace,
}
use deer.Pic.{pic_send_eoi, pic_mask_irq, pic_unmask_irq}

-- `struct idt_entry`
pub record Gate : Type 0 where
  pub base_low : ℕ
  pub selector : ℕ
  pub ist : ℕ
  pub type_attr : ℕ
  pub base_middle : ℕ
  pub base_high : ℕ
  pub reserved : ℕ

abbrev pub exception_breakpoint : ℕ
exception_breakpoint = 3

abbrev pub exception_overflow : ℕ
exception_overflow = 4

abbrev pub exception_double_fault : ℕ
exception_double_fault = 8

abbrev pub exception_gpf : ℕ
exception_gpf = 13

abbrev pub exception_page_fault : ℕ
exception_page_fault = 14

-- `IDT_PRESENT | IDT_RING0 | IDT_TYPE_INT`
abbrev pub kernel_gate : ℕ
kernel_gate = bit_or (bit_or (1 <<< 7) (0 <<< 5)) 0x0E

-- `IDT_PRESENT | IDT_RING3 | IDT_TYPE_INT`
abbrev pub user_gate : ℕ
user_gate = bit_or (bit_or (1 <<< 7) (3 <<< 5)) 0x0E

-- `idt`, `isr_handlers`, `irq_handlers` and `idtp.limit`; `none` is a NULL pointer.
pub record Tables : Type 0 where
  pub idt : ℕ → Gate
  pub isr_handlers : ℕ → Option Handler
  pub irq_handlers : ℕ → Option Handler
  pub limit : ℕ

pub idt_set_entry : (index base selector type_attr : ℕ) → (ℕ → Gate) → ℕ → Gate
idt_set_entry index base selector type_attr idt = update idt index (record {
  base_low = bit_and base 0xFFFF;
  base_middle = bit_and (base >>> 16) 0xFFFF;
  base_high = bit_and (base >>> 32) 0xFFFFFFFF;
  selector = selector;
  ist = 0;
  type_attr = type_attr;
  reserved = 0;
})

-- `for (int i = 0; i < 256; i++) idt_set_entry(i, 0, 0, 0)`, with `left` rounds to go.
pub clear_gates : (left i : ℕ) → (ℕ → Gate) → ℕ → Gate
unfolding idt_set_entry
clear_gates zero i idt = idt
clear_gates (suc left) i idt = clear_gates left (i + 1) (idt_set_entry i 0 0 0 idt)

-- The calls that install the stubs, in order: the vector and stub, and the attributes.
pub stub_calls : List (ℕ × ℕ)
stub_calls =
    (0, kernel_gate)
    ∷ (1, kernel_gate)
    ∷ (2, kernel_gate)
    ∷ (3, user_gate)
    ∷ (4, user_gate)
    ∷ (5, kernel_gate)
    ∷ (6, kernel_gate)
    ∷ (7, kernel_gate)
    ∷ (8, kernel_gate)
    ∷ (9, kernel_gate)
    ∷ (10, kernel_gate)
    ∷ (11, kernel_gate)
    ∷ (12, kernel_gate)
    ∷ (13, kernel_gate)
    ∷ (14, kernel_gate)
    ∷ (15, kernel_gate)
    ∷ (16, kernel_gate)
    ∷ (17, kernel_gate)
    ∷ (18, kernel_gate)
    ∷ (19, kernel_gate)
    ∷ (20, kernel_gate)
    ∷ (21, kernel_gate)
    ∷ (22, kernel_gate)
    ∷ (23, kernel_gate)
    ∷ (24, kernel_gate)
    ∷ (25, kernel_gate)
    ∷ (26, kernel_gate)
    ∷ (27, kernel_gate)
    ∷ (28, kernel_gate)
    ∷ (29, kernel_gate)
    ∷ (30, kernel_gate)
    ∷ (31, kernel_gate)
    ∷ (32, kernel_gate)
    ∷ (33, kernel_gate)
    ∷ (34, kernel_gate)
    ∷ (35, kernel_gate)
    ∷ (36, kernel_gate)
    ∷ (37, kernel_gate)
    ∷ (38, kernel_gate)
    ∷ (39, kernel_gate)
    ∷ (40, kernel_gate)
    ∷ (41, kernel_gate)
    ∷ (42, kernel_gate)
    ∷ (43, kernel_gate)
    ∷ (44, kernel_gate)
    ∷ (45, kernel_gate)
    ∷ (46, kernel_gate)
    ∷ (47, kernel_gate)
    ∷ []

pub set_stubs : (isr_stub : ℕ → ℕ) → List (ℕ × ℕ) → (ℕ → Gate) → ℕ → Gate
unfolding idt_set_entry
set_stubs isr_stub [] idt = idt
set_stubs isr_stub ((i, type_attr) ∷ rest) idt =
    set_stubs isr_stub rest (idt_set_entry i (isr_stub i) 0x08 type_attr idt)

pub isr_install_handler : (num : ℕ) → Handler → Tables → Tables
isr_install_handler num handler k = record k {
  isr_handlers = update k.isr_handlers num (some handler);
}

pub isr_uninstall_handler : (num : ℕ) → Tables → Tables
isr_uninstall_handler num k = record k { isr_handlers = update k.isr_handlers num none }

-- `for (int i = 0; i < 32; i++) isr_install_handler(i, exception_handler)`
pub install_exceptions : (left i : ℕ) → Tables → Tables
unfolding isr_install_handler
install_exceptions zero i k = k
install_exceptions (suc left) i k =
    install_exceptions left (i + 1) (isr_install_handler i exception_handler k)

pub idt_init : (isr_stub : ℕ → ℕ) → Tables → Tables
unfolding clear_gates set_stubs stub_calls install_exceptions isr_install_handler
idt_init isr_stub k =
    let gates = set_stubs isr_stub stub_calls (clear_gates 256 0 k.idt) in
    let k' = record k { idt = gates; limit = 16 * 256 - 1 } in
    isr_install_handler exception_double_fault handle_double_fault (
      isr_install_handler exception_gpf handle_general_protection_fault
        (isr_install_handler exception_page_fault handle_page_fault (install_exceptions 32 0 k')))

-- `exception_handler` of isr.c, without its messages.
pub handle_exception : (int_no : ℕ) → Trace → Trace
handle_exception int_no t =
    if ltb int_no 32
    then (if int_no == exception_breakpoint || int_no == exception_overflow then t else halted ∷ t)
    else halted ∷ t

-- A call of a handler. Only `exception_handler` is part of this module; of the others the call is
-- recorded.
pub call_handler : Handler → (int_no : ℕ) → Trace → Trace
unfolding handle_exception
call_handler exception_handler int_no t =
    handle_exception int_no (called exception_handler int_no ∷ t)
call_handler h int_no t = called h int_no ∷ t

-- The handler in the table, or the default one.
pub handler_or_default : Option Handler → Handler
handler_or_default none = irq_default_handler
handler_or_default (some h) = h

pub irq_handler : (apic_available : Bool) → Tables → (int_no : ℕ) → Trace → Trace
unfolding call_handler handler_or_default
irq_handler apic_available k int_no t =
    let irq_num = u8 (int_no + 2 ^ 64 - 32) in
    let t' = call_handler (handler_or_default (k.irq_handlers irq_num)) int_no t in
    if apic_available then lapic_eoi ∷ t' else pic_send_eoi irq_num t'

-- `isr_handler`, by the entry of the table.
pub dispatch : (apic_available : Bool) → Tables → (int_no : ℕ) → Trace → Option Handler → Trace
unfolding irq_handler call_handler
dispatch apic_available k int_no t (some h) = call_handler h int_no t
dispatch apic_available k int_no t none =
    if leb 32 int_no && ltb int_no 48
    then irq_handler apic_available k int_no t
    else (if ltb int_no 32 then halted ∷ t else t)

pub isr_handler : (apic_available : Bool) → Tables → (int_no : ℕ) → Trace → Trace
unfolding dispatch
isr_handler apic_available k int_no t = dispatch apic_available k int_no t (k.isr_handlers int_no)

module _ (inb : ℕ → Trace → ℕ) where
  pub irq_install_handler : (irq : ℕ) → Handler → Tables × Trace → Tables × Trace
  irq_install_handler irq handler (k, t) =
      if ltb irq 16
      then (
        record k { irq_handlers = update k.irq_handlers irq (some handler) },
        pic_unmask_irq inb irq t,
      )
      else (k, t)

  pub irq_uninstall_handler : (irq : ℕ) → Tables × Trace → Tables × Trace
  irq_uninstall_handler irq (k, t) =
      if ltb irq 16
      then (record k { irq_handlers = update k.irq_handlers irq none }, pic_mask_irq inb irq t)
      else (k, t)

  -- `for (int i = 0; i < 16; i++) irq_install_handler(i, irq_default_handler)`
  pub install_defaults : (left i : ℕ) → Tables × Trace → Tables × Trace
  unfolding irq_install_handler
  install_defaults zero i s = s
  install_defaults (suc left) i s =
      install_defaults left (i + 1) (irq_install_handler i irq_default_handler s)

  pub irq_init : Tables × Trace → Tables × Trace
  unfolding install_defaults
  irq_init s = install_defaults 16 0 s
