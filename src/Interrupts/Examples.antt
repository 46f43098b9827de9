-- ===== src/Interrupts/Examples.antt =====
-- The tables of gates and handlers at concrete interrupts.
use deer.Base.{
  ◌++◌, ℕ, ◌+◌, ◌≡◌, refl, arith, true, false, none, [], ◌∷◌, ◌==◌, if◌then◌else◌, ◌||◌,
}
use deer.Trace.{exception_handler, other_handler, called, halted, Trace}
use deer.Interrupts.{
  Tables, idt_init, isr_handler, irq_install_handler, handler_or_default, call_handler,
}
use deer.Interrupts.Dispatch.{
  idt_init-exceptions, irq_install-dispatch, end_commands, exception_table,
}

abbrev blank : Tables
blank = record {
  idt = λ n. record {
    base_low = 7;
    selector = 7;
    ist = 7;
    type_attr = 7;
    base_middle = 7;
    base_high = 7;
    reserved = 7;
  };
  isr_handlers = λ n. none;
  irq_handlers = λ n. none;
  limit = 0;
}

abbrev stub : ℕ → ℕ
stub n = 0xFFFFFFFF80001000

abbrev ready : Tables
ready = idt_init stub blank

abbrev silent : ℕ → Trace → ℕ
silent port t = 0xFF

idt_init-exceptions_example : isr_handler true ready 6 [] ≡ (
    if 6 == 8 || 6 == 13 || 6 == 14 || 6 == 3 || 6 == 4
    then called (exception_table 6) 6 ∷ []
    else halted ∷ called exception_handler 6 ∷ [])
idt_init-exceptions_example = idt_init-exceptions true stub blank 6 [] (omega arith)

irq_install-dispatch_example :
    isr_handler false ((irq_install_handler silent 9 (other_handler 1) (blank, [])).0) (32 + 9) []
    ≡ end_commands false 9
      ++ call_handler
          (if 9 == 9 then other_handler 1 else handler_or_default (blank.irq_handlers 9))
          (32 + 9)
          []
irq_install-dispatch_example =
    irq_install-dispatch silent false 9 9 (other_handler 1) blank [] [] (omega arith) (omega arith)
      refl
