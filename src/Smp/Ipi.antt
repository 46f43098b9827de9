-- ===== src/Smp/Ipi.antt =====
-- Which commands kernel/src/sys/smp.c gives to the local APIC.
use deer.Base.{
  ℕ, ◌+◌, ◌≡◌, ◌≢◌, ap, ◌∙◌, arith, bit_or, Bool, true, false, ◌∷◌, ◌==◌, if◌then◌else◌, u32, ◌<<<◌,
}
use deer.Apic.{Apic, lapic_write}
use deer.Apic.Timer.{stored, lapic_write-stored}
use deer.Apic.Ipi.{
  commands, last_store, delivery_mode, command_vector, commands-other, commands-sent,
}
use deer.Smp.{send_command, smp_send_ipi}

send_command-stored :
    (high low : ℕ) (s : Apic)
    → s.lapic_base ≢ 0
    → s.apic_available ≡ true
    → send_command high low s
      ≡ stored (s.lapic_base + 0x310) low (stored (s.lapic_base + 0x300) high s)
unfolding send_command
send_command-stored high low s there available =
    ap (λ (b : Bool). if b then lapic_write 0x310 low (lapic_write 0x300 high s) else s) available
    ∙ ap (lapic_write 0x310 low) (lapic_write-stored 0x300 high s there available)
    ∙ lapic_write-stored 0x310 low (stored (s.lapic_base + 0x300) high s) there available

send_command-commands :
    (high low : ℕ) (s : Apic)
    → s.lapic_base ≢ 0
    → s.apic_available ≡ true
    → commands s.lapic_base (send_command high low s).stores
      ≡ (last_store (s.lapic_base + 0x310) s.stores, high) ∷ commands s.lapic_base s.stores
send_command-commands high low s there available =
    ap (λ (t : Apic). commands s.lapic_base t.stores)
      (send_command-stored high low s there available)
    ∙ commands-other s.lapic_base (s.lapic_base + 0x310) low
        ((s.lapic_base + 0x300, high) ∷ s.stores) (apart s.lapic_base)
    ∙ commands-sent s.lapic_base high s.stores
  where
    apart : (base : ℕ) → (base + 0x310 == base + 0x300) ≡ false
    apart base = ground arith

-- For a local APIC that is there, smp_send_ipi sends no vector: the command that reaches it is the
-- word that should name the destination, with fixed delivery of vector 0; the vector goes into the
-- register of the destination.
pub send_ipi-command_vector :
    (lapic_id vector : ℕ) (s : Apic)
    → s.lapic_base ≢ 0
    → s.apic_available ≡ true
    → let command = u32 (lapic_id <<< 24) in
      (commands s.lapic_base (smp_send_ipi lapic_id vector s).stores
        ≡ (last_store (s.lapic_base + 0x310) s.stores, command) ∷ commands s.lapic_base s.stores)
      × (delivery_mode command ≡ 0)
      × (command_vector command ≡ 0)
unfolding smp_send_ipi
send_ipi-command_vector lapic_id vector s there available = (
  send_command-commands (u32 (lapic_id <<< 24)) (bit_or 0x4000 vector) s there available,
  omega arith,
  omega arith,
)
