-- ===== src/Apic/Examples.antt =====
-- The APIC at concrete states: a local APIC at 0xFEE00000 and an IOAPIC at 0xFEC00000.
use deer.Base.{
  List, ℕ, ◌+◌, ◌*◌, ◌<◌, ◌≤◌, ◌≡◌, ◌⊎◌, refl, arith, bit_or, true, false, [], ◌∷◌, ◌==◌,
  if◌then◌else◌, none, some,
}
use deer.Memory.{Bytes}
use deer.Task.{Tasking}
use deer.Apic.{
  Apic, Stores, lapic_write, lapic_eoi, ioapic_read, ioapic_redirect_irq, madt_loop, ioapic_init,
  use_ioapic, hpet_target, hpet_get_frequency, clear_state, apic_init,
}
use deer.Apic.Command.{destination, lapic_send_init, lapic_send_startup}
use deer.Apic.Clock.{
  Round, serve, timer, other, count_tick, lapic_get_ticks, lapic_timer_init, lapic_timer_stop,
  lapic_timer_handler, lapic_sleep_ms, lapic_sleep_us, sleep_loop, wake_up,
}
use deer.Apic.Redirect.{register, redirect_irq-register}
use deer.Apic.Madt.{ioapic, entry, madt_loop-Entries}
use deer.Apic.Ipi.{commands, last_store, delivery_mode, command_vector, send-delivery_mode}
use deer.Apic.Timer.{armed, timer_init-armed}
use deer.Paging.Sample.{empty}

abbrev machine : Apic
machine = record {
  lapic_base = 0xFEE00000;
  ioapic_base = 0xFEC00000;
  hpet_base = 0;
  hpet_frequency = 10000000;
  apic_available = true;
  ioapic_available = true;
  hpet_available = false;
  lapic_ticks = 5;
  lapic_sleeping = false;
  sleep_end_ticks = 0;
  stores = [];
  ports = [];
}

-- The devices answer 7 to every read.
abbrev seven : ℕ → Stores → ℕ
seven address stores = 7

eoi : (lapic_eoi machine).stores ≡ (0xFEE000B0, 0) ∷ []
unfolding lapic_eoi lapic_write
eoi = refl

stops : (lapic_timer_stop machine).stores ≡ (0xFEE00320, 0x10000) ∷ []
unfolding lapic_timer_stop lapic_write
stops = refl

reads : (ioapic_read seven 3 machine).1.stores ≡ (0xFEC00000, 3) ∷ []
unfolding ioapic_read
reads = refl

ticks : (lapic_get_ticks machine ≡ 5) × (hpet_get_frequency machine ≡ 10000000)
unfolding lapic_get_ticks hpet_get_frequency
ticks = (refl, refl)

-- A sleep of 20000000 ms asks for fewer ticks than one of 10000000 ms: the product wraps.
wraps :
    (hpet_target 1000000000000 10000000 0 machine ≡ some 1000000000000)
    × (hpet_target 1000000000000 20000000 0 machine ≡ some 155325592629)
unfolding hpet_target
wraps = (refl, refl)

sleeps_us :
    lapic_sleep_us count_tick (record { wake = timer; more = [] } ∷ []) 1 machine
    ≡ some (record (count_tick machine) { sleep_end_ticks = 6 })
unfolding lapic_sleep_us lapic_sleep_ms sleep_loop serve wake_up
sleeps_us = refl

-- A table at 1000: its header of 44 bytes, an entry of a local APIC of 8 bytes, and an IOAPIC's.
abbrev table : Bytes
table a =
    if a == 1004
    then 64
    else (if a == 1045
        then 8
        else (if a == 1052 then 1 else (if a == 1053 then 12 else (if a == 1059 then 0xFE else 0))))

finds :
    ioapic_init 21 1000 0 table (record machine { ioapic_base = 0 })
    ≡ some (record machine { ioapic_base = 0xFE000000 })
unfolding ioapic_init madt_loop use_ioapic
finds = refl

-- The sixth tick does not call the scheduler.
counts : (k : Tasking) → lapic_timer_handler 1 machine k ≡ some (count_tick machine, k)
unfolding lapic_timer_handler
counts k = refl

-- Without ACPI nothing but the local APIC is set up.
starts :
    elim (apic_init seven 0x200 0xFEE00900 21 1000 0 true none table machine empty) [
      | none ↦ true
      | some r ↦ r.0.apic_available
    ]
    ≡ false
unfolding apic_init clear_state
starts = refl

redirect_irq-register_example :
    register 0xFEC00000 (λ r. 9) (ioapic_redirect_irq 1 33 0 machine).stores 0x12
    ≡ (if 0x12 == 0x10 + 2 * 1 then bit_or 33 0 else (if 0x12 == 0x11 + 2 * 1 then 0 else 9))
redirect_irq-register_example =
    redirect_irq-register (λ r. 9) 1 33 0 0x12 machine refl (omega arith)

madt_loop-Entries_example : madt_loop 21 1044 1064 table ≡ some 1052
madt_loop-Entries_example =
    madt_loop-Entries table 1064 20 1044 1052
      (entry 1044 1052 (omega arith) (omega arith) (omega arith) (omega arith)
        (ioapic 1052 (omega arith) refl))
      (omega arith) (omega arith)

send-delivery_mode_example :
    let command = destination 3 in
    let old = commands 0xFEE00000 [] in
    let to = last_store 0xFEE00310 [] in
    (commands 0xFEE00000 (lapic_send_init 3 machine).stores ≡ (to, command) ∷ old)
    × (commands 0xFEE00000 (lapic_send_startup 3 8 machine).stores ≡ (to, command) ∷ old)
    × (delivery_mode command ≡ 0)
    × (command_vector command ≡ 0)
send-delivery_mode_example = send-delivery_mode 3 8 machine

timer_init-armed_example :
    ((count : ℕ) × ((lapic_timer_init 32 1000 machine).stores
        ≡ (0xFEE00380, count) ∷ armed 32 machine)
      × (0 < count)
      × ((count + 1) * 1000 ≤ 62500000)
      × (62500000 < (count + 2) * 1000))
    ⊎ (((lapic_timer_init 32 1000 machine).stores ≡ armed 32 machine)
        × (◌≡◌ {A = ℕ} 1000 0 ⊎ (31250000 < 1000)))
timer_init-armed_example = timer_init-armed 32 1000 machine (omega arith) refl

-- The second tick comes between the test and the `hlt`, which another interrupt ends.
abbrev two_rounds : List Round
two_rounds =
    record { wake = timer; more = [] } ∷ record { wake = timer; more = other ∷ timer ∷ [] } ∷ []
