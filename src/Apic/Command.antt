-- ===== src/Apic/Command.antt =====
-- kernel/src/sys/apic.c: the interrupts that one processor sends to another.
use deer.Base.{ℕ, ◌+◌, bit_and, bit_or, ◌<<<◌}
use deer.Apic.{Apic, store}

-- The names by which apic.c addresses the registers of the interrupt command.
abbrev pub apic_icr1 : ℕ
apic_icr1 = 0x310

abbrev pub apic_icr2 : ℕ
apic_icr2 = 0x300

-- The stores of `lapic_send_ipi`, once the command before it is delivered.
unfoldable pub lapic_send_ipi : (icr1_val icr2_val : ℕ) → Apic → Apic
lapic_send_ipi icr1_val icr2_val s =
    store (s.lapic_base + apic_icr1) icr1_val (store (s.lapic_base + apic_icr2) icr2_val s)

-- `(lapic_id & 0xFF) << 24`
abbrev pub destination : (lapic_id : ℕ) → ℕ
destination lapic_id = bit_and lapic_id 0xFF <<< 24

-- The delivery modes INIT and SIPI, with the level asserted, an edge trigger and no shorthand.
unfoldable pub lapic_send_init : (lapic_id : ℕ) → Apic → Apic
unfolding lapic_send_ipi
lapic_send_init lapic_id s = lapic_send_ipi (bit_or (5 <<< 8) (1 <<< 14)) (destination lapic_id) s

unfoldable pub lapic_send_startup : (lapic_id vector : ℕ) → Apic → Apic
unfolding lapic_send_ipi
lapic_send_startup lapic_id vector s =
    lapic_send_ipi (bit_or (bit_or (6 <<< 8) (1 <<< 14)) (bit_and vector 0xFF))
      (destination lapic_id) s
