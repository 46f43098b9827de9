-- ===== src/Apic/Ipi.antt =====
-- Which commands `lapic_send_init` and `lapic_send_startup` of kernel/src/sys/apic.c give to the local
-- APIC. By its documentation a store at 0x300 sends a command, to the processor that the register
-- at 0x310 names; kernel/src/include/sys/apic.h has these numbers for LAPIC_ICR1_REG and LAPIC_ICR2_REG.
use deer.Base.{
  ℕ, ◌+◌, ◌/◌, ◌%◌, ◌^◌, ◌≡◌, ap, ◌∙◌, arith, Bool, true, false, List, [], ◌∷◌, ◌==◌, if◌then◌else◌,
}
use deer.Apic.{Apic, Stores}
use deer.Apic.Command.{destination, lapic_send_ipi, lapic_send_init, lapic_send_startup}

-- What was stored last at an address; 0 if nothing was.
pub last_store : (address : ℕ) → Stores → ℕ
last_store address [] = 0
last_store address ((a, value) ∷ older) = if a == address then value else last_store address older

-- The commands that the stores give, newest first, each with the word that names its destination.
pub commands : (base : ℕ) → Stores → List (ℕ × ℕ)
unfolding last_store
commands base [] = []
commands base ((address, value) ∷ older) =
    if address == base + 0x300
    then (last_store (base + 0x310) older, value) ∷ commands base older
    else commands base older

abbrev pub delivery_mode : (command : ℕ) → ℕ
delivery_mode command = command / 2 ^ 8 % 8

abbrev pub command_vector : (command : ℕ) → ℕ
command_vector command = command % 2 ^ 8

-- A store is a command, or not.
pub commands-other :
    (base address value : ℕ) (older : Stores)
    → (address == base + 0x300) ≡ false
    → commands base ((address, value) ∷ older) ≡ commands base older
unfolding commands
commands-other base address value older e =
    ap
      (λ (c : Bool).
        if c
        then (last_store (base + 0x310) older, value) ∷ commands base older
        else commands base older)
      e

pub commands-sent :
    (base value : ℕ) (older : Stores)
    → commands base ((base + 0x300, value) ∷ older)
      ≡ (last_store (base + 0x310) older, value) ∷ commands base older
unfolding commands
commands-sent base value older =
    ap
      (λ (c : Bool).
        if c
        then (last_store (base + 0x310) older, value) ∷ commands base older
        else commands base older)
      (reflexive (base + 0x300))
  where
    reflexive : (a : ℕ) → (a == a) ≡ true
    reflexive a = ground arith

send_ipi-commands :
    (icr1_val icr2_val : ℕ) (s : Apic)
    → commands s.lapic_base (lapic_send_ipi icr1_val icr2_val s).stores
      ≡ (last_store (s.lapic_base + 0x310) s.stores, icr2_val) ∷ commands s.lapic_base s.stores
unfolding lapic_send_ipi
send_ipi-commands icr1_val icr2_val s =
    commands-other s.lapic_base (s.lapic_base + 0x310) icr1_val
      ((s.lapic_base + 0x300, icr2_val) ∷ s.stores) (apart s.lapic_base)
    ∙ commands-sent s.lapic_base icr2_val s.stores
  where
    apart : (base : ℕ) → (base + 0x310 == base + 0x300) ≡ false
    apart base = ground arith

-- Neither of the two ever sends INIT or SIPI, nor the vector: the command that reaches the local
-- APIC is the word that should name the destination. It asks for fixed delivery of vector 0, and
-- it goes to whatever processor was named before.
pub send-delivery_mode :
    (lapic_id vector : ℕ) (s : Apic)
    → let command = destination lapic_id in
      let old = commands s.lapic_base s.stores in
      let to = last_store (s.lapic_base + 0x310) s.stores in
      (commands s.lapic_base (lapic_send_init lapic_id s).stores ≡ (to, command) ∷ old)
      × (commands s.lapic_base (lapic_send_startup lapic_id vector s).stores ≡ (to, command) ∷ old)
      × (delivery_mode command ≡ 0)
      × (command_vector command ≡ 0)
unfolding lapic_send_init lapic_send_startup
send-delivery_mode lapic_id vector s = (
  send_ipi-commands _ (destination lapic_id) s,
  send_ipi-commands _ (destination lapic_id) s,
  omega arith,
  omega arith,
)
