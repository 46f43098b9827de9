-- ===== src/Apic.antt =====
-- kernel/src/sys/apic.c: the local APIC, the IOAPIC, the HPET and the timer. A device answers a read
-- by a function `load` of the address and of the stores so far; loops that only read a device until
-- it is ready stand for the time at which they end. Messages are left out.
pub mod Command
pub mod Clock
pub mod Redirect
pub mod Madt
pub mod Ipi
pub mod Timer
pub mod Sleep
mod Examples
use deer.Base.{
  ℕ, zero, suc, ◌+◌, ◌-◌, ◌*◌, ◌/◌, ◌%◌, ◌^◌, bit_and, bit_or, Bool, true, false, ◌&&◌, ◌||◌, not,
  Option, none, some, List, [], ◌∷◌, ltb, leb, ◌==◌, if◌then◌else◌, u32, u64, ◌>>>◌, ◌<<<◌,
}
use deer.Memory.{Bytes}
use deer.Trace.{Trace, outb}
use deer.Paging.{Paging, paging_present, paging_writable, frame_mask, paging_map_page}
use deer.Task.{Tasking, task_scheduler_tick}

abbrev pub lapic_id_reg : ℕ
lapic_id_reg = 0x20

abbrev pub lapic_eoi_reg : ℕ
lapic_eoi_reg = 0xB0

abbrev pub lapic_siv_reg : ℕ
lapic_siv_reg = 0xF0

abbrev pub lapic_lvt_timer : ℕ
lapic_lvt_timer = 0x320

abbrev pub lapic_timer_initial : ℕ
lapic_timer_initial = 0x380

abbrev pub lapic_timer_divider : ℕ
lapic_timer_divider = 0x3E0

abbrev pub lapic_siv_enable : ℕ
lapic_siv_enable = 0x100

abbrev pub lapic_timer_periodic : ℕ
lapic_timer_periodic = 0x20000

abbrev pub ioapic_redtbl_base : ℕ
ioapic_redtbl_base = 0x10

abbrev pub paging_no_execute : ℕ
paging_no_execute = 2 ^ 63

-- What was stored at which address, newest first.
abbrev pub Stores : Type 0
Stores = List (ℕ × ℕ)

-- `apic_state`, the static variables, and what the code has done to the devices. 0 is NULL.
pub record Apic : Type 0 where
  pub lapic_base : ℕ
  pub ioapic_base : ℕ
  pub hpet_base : ℕ
  pub hpet_frequency : ℕ
  pub apic_available : Bool
  pub ioapic_available : Bool
  pub hpet_available : Bool
  pub lapic_ticks : ℕ
  pub lapic_sleeping : Bool
  pub sleep_end_ticks : ℕ
  pub stores : Stores
  pub ports : Trace

-- `memset(&apic_state, 0, sizeof(apic_state))`
pub clear_state : Apic → Apic
clear_state s = record s {
  lapic_base = 0;
  ioapic_base = 0;
  hpet_base = 0;
  hpet_frequency = 0;
  apic_available = false;
  ioapic_available = false;
  hpet_available = false;
}

-- A store to a device.
abbrev pub store : (address value : ℕ) → Apic → Apic
store address value s = record s { stores = (address, value) ∷ s.stores }

abbrev pub lapic_ready : Apic → Bool
lapic_ready s = not (s.lapic_base == 0) && s.apic_available

-- `lapic_ptr[reg / sizeof(uint32_t)] = value`
unfoldable pub lapic_write : (reg value : ℕ) → Apic → Apic
lapic_write reg value s = if lapic_ready s then store (s.lapic_base + 4 * (reg / 4)) value s else s

pub lapic_eoi : Apic → Apic
unfolding lapic_write
lapic_eoi s = lapic_write lapic_eoi_reg 0 s

pub ioapic_write : (reg value : ℕ) → Apic → Apic
ioapic_write reg value s =
    if s.ioapic_base == 0 then s else store (s.ioapic_base + 16) value (store s.ioapic_base reg s)

pub ioapic_redirect_irq : (irq vector delivery_mode : ℕ) → Apic → Apic
unfolding ioapic_write
ioapic_redirect_irq irq vector delivery_mode s =
    let low_index = ioapic_redtbl_base + irq * 2 in
    if s.ioapic_available
    then ioapic_write (low_index + 1) 0 (ioapic_write low_index (bit_or vector delivery_mode) s)
    else s

-- `while (ptr < madt_end)`: the first entry of an IOAPIC, or 0; `none` means that the fuel ran out.
-- An entry begins with its type and its length.
pub madt_loop : (fuel ptr madt_end : ℕ) → Bytes → Option ℕ
madt_loop zero ptr madt_end m = none
madt_loop (suc fuel) ptr madt_end m =
    let rest = madt_loop fuel (u64 (ptr + m (ptr + 1))) madt_end m in
    if ltb ptr madt_end then (if m ptr == 1 then some ptr else rest) else some 0

-- A little-endian number of 32 or 64 bits.
abbrev pub u32_at : Bytes → ℕ → ℕ
u32_at m p = m p + m (p + 1) * 2 ^ 8 + m (p + 2) * 2 ^ 16 + m (p + 3) * 2 ^ 24

abbrev pub u64_at : Bytes → ℕ → ℕ
u64_at m p = u32_at m p + u32_at m (p + 4) * 2 ^ 32

-- The IOAPIC of the entry `ioapic`, whose address is behind four bytes of it.
pub use_ioapic : (offset : ℕ) → Bytes → Apic → Option ℕ → Option Apic
use_ioapic offset m s none = none
use_ioapic offset m s (some ioapic) = some (
    if ioapic == 0
    then s
    else record s { ioapic_base = u64 (u32_at m (ioapic + 4) + offset); ioapic_available = true })

-- The entries begin behind the 44 bytes of `struct acpi_madt`.
pub ioapic_init : (fuel madt offset : ℕ) → Bytes → Apic → Option Apic
unfolding madt_loop use_ioapic
ioapic_init fuel madt offset m s =
    if madt == 0
    then some s
    else use_ioapic offset m s
        (madt_loop fuel (u64 (madt + 44)) (u64 (madt + u32_at m (madt + 4))) m)

pub hpet_write : (reg value : ℕ) → Apic → Apic
hpet_write reg value s = if s.hpet_base == 0 then s else store (s.hpet_base + reg) value s

pub hpet_get_frequency : Apic → ℕ
hpet_get_frequency s = s.hpet_frequency

-- The count at which a sleep ends, from the count at its start; `none` is a division by zero.
pub hpet_target : (scale time now : ℕ) → Apic → Option ℕ
hpet_target scale time now s =
    if s.hpet_frequency == 0 then none else some (u64 (now + u64 (time * scale) / s.hpet_frequency))

pub apic_disable_pic : Apic → Apic
apic_disable_pic s = record s { ports = outb 0x21 0xFF ∷ outb 0xA1 0xFF ∷ s.ports }

module _ (load : (address : ℕ) → Stores → ℕ) where
  unfoldable pub lapic_read : (reg : ℕ) → Apic → ℕ
  lapic_read reg s = if lapic_ready s then load (s.lapic_base + 4 * (reg / 4)) s.stores else 0

  -- The register is selected first.
  pub ioapic_read : (reg : ℕ) → Apic → ℕ × Apic
  ioapic_read reg s =
      let t = store s.ioapic_base reg s in
      if s.ioapic_base == 0 then (0, s) else (load (s.ioapic_base + 16) t.stores, t)

  pub hpet_read : (reg : ℕ) → Apic → ℕ
  hpet_read reg s = if s.hpet_base == 0 then 0 else load (s.hpet_base + reg) s.stores

  -- `hpet` is the table's address, and the block's is behind 40 bytes of it.
  pub hpet_init : (hpet offset : ℕ) → Bytes → Apic → Apic
  unfolding hpet_read hpet_write
  hpet_init hpet offset m s =
      let t = record s { hpet_base = u64 (u64_at m (hpet + 40) + offset) } in
      let u = record t { hpet_frequency = bit_and (hpet_read 0 t >>> 32) 0xFFFFFFFF } in
      if hpet == 0
      then s
      else record (hpet_write 0xF0 0 (hpet_write 0x10 (bit_or (hpet_read 0x10 u) 1) u)) {
        hpet_available = true;
      }

  -- `rdmsr` gave `eax`; the page of the registers is mapped, and the local APIC is switched on.
  pub lapic_init : (eax offset : ℕ) → Apic → Paging → Apic × Paging
  unfolding lapic_read lapic_write
  lapic_init eax offset s k =
      let physical = bit_and eax 0xFFFFF000 in
      let aligned = bit_and physical frame_mask in
      let virtual = u64 (aligned + offset) in
      let r =
        paging_map_page virtual aligned
          (bit_or (bit_or paging_present paging_writable) paging_no_execute) k in
      let t = record s { lapic_base = u64 (virtual + bit_and physical 0xFFF) } in
      if s.apic_available
      then (if r.0
          then (
            lapic_write lapic_siv_reg
                (bit_or (bit_or (lapic_read lapic_siv_reg t) lapic_siv_enable) 0xFF) t,
            r.1,
          )
          else (record s { apic_available = false }, r.1))
      else (s, k)

  -- What `apic_init` does behind `lapic_init`.
  pub then_ioapic :
      (fuel madt hpet offset : ℕ) (acpi_available : Bool)
      → Bytes
      → Apic × Paging
      → Option (Apic × Paging)
  unfolding ioapic_init hpet_init apic_disable_pic
  then_ioapic fuel madt hpet offset acpi_available m (s, k) =
      if acpi_available
      then elim (ioapic_init fuel madt offset m s) [
        | none ↦ none
        | some t ↦
            let u = hpet_init hpet offset m t in
            some (if u.ioapic_available then apic_disable_pic u else u, k)
      ]
      else some (s, k)

  -- `cpuid` gave `edx`. `none` means that the walk of the MADT ran out of fuel.
  pub apic_init :
      (edx eax fuel madt hpet : ℕ) (acpi_available : Bool) (hhdm_response : Option ℕ)
      → Bytes
      → Apic
      → Paging
      → Option (Apic × Paging)
  unfolding clear_state lapic_init then_ioapic
  apic_init edx eax fuel madt hpet acpi_available none m s k = some (clear_state s, k)
  apic_init edx eax fuel madt hpet acpi_available (some offset) m s k =
      let has = not (bit_and edx (1 <<< 9) == 0) in
      if has
      then then_ioapic fuel madt hpet offset acpi_available m
          (lapic_init eax offset (record (clear_state s) { apic_available = true }) k)
      else some (clear_state s, k)
