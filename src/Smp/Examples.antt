-- ===== src/Smp/Examples.antt =====
-- Processors at concrete answers of the bootloader.
use deer.Base.{
  List, ℕ, ◌+◌, ◌*◌, ◌^◌, ◌≤◌, ◌≡◌, refl, arith, true, false, ◌&&◌, [], ◌∷◌, ltb, ◌==◌,
  if◌then◌else◌, none, some,
}
use deer.Apic.{Apic, Stores, lapic_write, lapic_read}
use deer.Paging.Sample.{empty}
use deer.Smp.{
  ApStep, entered, counted, run_aps, ap_count, CpuInfo, Smp, Machine, MpResponse, smp_init,
  smp_start_aps, send_command, smp_send_init, smp_send_startup, smp_broadcast_ipi,
  smp_get_cpu_count, smp_get_cpu_info, smp_is_bsp, smp_get_current_cpu,
}
use deer.Smp.Table.{listed, smp_init-registered}
use deer.Smp.Started.{number, seen, sent, start_aps-started}

abbrev no_cpu : CpuInfo
no_cpu = record { id = 0; lapic_id = 0; kernel_stack = 0; state = 0; gs_base = 0; is_bsp = false }

abbrev before : Smp
before = record {
  cpus = λ i. no_cpu;
  cpu_count = 0;
  bsp_id = 0;
  smp_available = false;
  started_count = 0;
  goto_address = λ i. false;
}

-- Three processors, the second of which is the first to run.
abbrev three : MpResponse
three = record { cpu_count = 3; bsp_lapic_id = 11; lapic_ids = λ i. 10 + i }

abbrev lapic : Apic
lapic = record {
  lapic_base = 0xFEE00000;
  ioapic_base = 0;
  hpet_base = 0;
  hpet_frequency = 0;
  apic_available = true;
  ioapic_available = false;
  hpet_available = false;
  lapic_ticks = 0;
  lapic_sleeping = false;
  sleep_end_ticks = 0;
  stores = [];
  ports = [];
}

abbrev silent : ℕ → Stores → ℕ
silent address stores = 0

abbrev machine : Machine
machine = record {
  smp = record before {
    cpu_count = 3;
    smp_available = true;
    bsp_id = 11;
    cpus = λ i. record no_cpu { lapic_id = 10 + i; is_bsp = i == 1 };
  };
  apic = lapic;
  paging = empty;
}

inits : (smp_send_init 2 lapic).stores ≡ (0xFEE00310, 0x4500) ∷ (0xFEE00300, 2 ^ 25) ∷ []
unfolding smp_send_init send_command lapic_write
inits = refl

startups : (smp_send_startup 2 8 lapic).stores ≡ (0xFEE00310, 0x4608) ∷ (0xFEE00300, 2 ^ 25) ∷ []
unfolding smp_send_startup send_command lapic_write
startups = refl

broadcasts :
    (smp_broadcast_ipi 33 lapic).stores ≡ (0xFEE00310, 0x4021) ∷ (0xFEE00300, 0xFF000000) ∷ []
unfolding smp_broadcast_ipi send_command lapic_write
broadcasts = refl

alone : (smp_init 4096 none before).cpu_count ≡ 1
unfolding smp_init
alone = refl

-- An address is given for a processor beyond the array, if the bootloader lists that many.
beyond : smp_get_cpu_info 4096 300 (record before { cpu_count = 400 }) ≡ 4096 + 29 * 300
unfolding smp_get_cpu_info
beyond = refl

counts : smp_get_cpu_count before ≡ 0
unfolding smp_get_cpu_count
counts = refl

current : smp_get_current_cpu silent 4096 77 machine.smp lapic ≡ 77
unfolding smp_get_current_cpu smp_is_bsp lapic_read
current = refl

smp_init-registered_example :
    ((smp_init 4096 (some three) before).cpus 1 ≡ (
      if ltb 1 3 && ltb 1 256
      then listed 4096 1 (three.lapic_ids 1) 0 0 (three.lapic_ids 1 == three.bsp_lapic_id)
      else no_cpu))
    × ((smp_init 4096 (some three) before).cpu_count ≡ 3)
smp_init-registered_example = smp_init-registered 4096 1 three before

-- One processor gets through `ap_entry` before the polls, one while the last count goes on, and each
-- adds to the count after its state is stored.
abbrev first_poll : (poll i : ℕ) → List ApStep
first_poll poll i = if i == 0 then entered 10 ∷ counted ∷ [] else []

abbrev last_count : (i : ℕ) → List ApStep
last_count i = if i == 2 then entered 12 ∷ [] else []

start_aps-started_example :
    let k' = smp_start_aps silent 4096 first_poll last_count (counted ∷ []) (some three) machine in
    (before : List ApStep) × (k'.smp.started_count
      ≡ 1
        + number 3 (seen silent 4096 last_count (run_aps silent 4096 before (sent three machine))))
    × (k'.smp.started_count ≤ 3)
start_aps-started_example =
    start_aps-started silent 4096 first_poll last_count (counted ∷ []) three machine
      (1, omega arith, refl) refl (omega arith) (omega arith)

-- An addition behind the store counts a processor twice: three processors, of which four started.
counted_twice :
    (run_aps silent 4096
      (counted ∷ [])
      (record machine { smp = record machine.smp { started_count = 3 } })).smp.started_count
    ≡ 4
unfolding run_aps ap_count
counted_twice = refl
