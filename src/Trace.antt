-- ===== src/Trace.antt =====
-- What the drivers do to the machine, newest first: bytes and words written to ports, calls of
-- handlers, the local APIC's end of interrupt, and the endless `hlt` loop. What the devices answer on a port is
-- not code of the repository: it is a function `inb` of the port and of what was done before.
use deer.Base.{ℕ, List}

-- The functions that the tables of handlers can hold: those of the kernel, and any other.
pub data Handler : Type 0 where
  exception_handler handle_page_fault handle_general_protection_fault : Handler
  handle_double_fault irq_default_handler : Handler
  other_handler : ℕ → Handler

pub data Event : Type 0 where
  outb outw : (port value : ℕ) → Event
  called : (handler : Handler) (int_no : ℕ) → Event
  lapic_eoi halted : Event

abbrev pub Trace : Type 0
Trace = List Event
