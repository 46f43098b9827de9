-- ===== src/Smp.antt =====
-- kernel/src/sys/smp.c: the table of processors, their start and the interrupts between them. The
-- bootloader's answer is an argument; `cpus` is the array as memory has it, so that an index beyond
-- MAX_CPUS reads what stands there. Messages are left out.
pub mod Table
pub mod Started
pub mod Ipi
mod Examples
use deer.Base.{
  ℕ, zero, suc, ◌+◌, ◌-◌, ◌*◌, ◌/◌, ◌%◌, ◌^◌, bit_and, bit_or, Bool, true, false, ◌&&◌, ◌||◌, not,
  Option, none, some, List, [], ◌∷◌, ltb, leb, ◌==◌, if◌then◌else◌, u32, u64, ◌>>>◌, ◌<<<◌, update,
}
use deer.Pmm.{Pmm, pmm_alloc_page}
use deer.Paging.{Paging, paging_present, paging_writable, frame_mask, paging_map_page}
use deer.Apic.{Apic, Stores, lapic_write, lapic_read, lapic_id_reg, lapic_siv_reg, lapic_siv_enable}

abbrev pub cpu_state_unused : ℕ
cpu_state_unused = 0

abbrev pub cpu_state_running : ℕ
cpu_state_running = 2

abbrev pub cpu_state_halted : ℕ
cpu_state_halted = 3

abbrev pub max_cpus : ℕ
max_cpus = 256

-- `struct cpu_info`
pub record CpuInfo : Type 0 where
  pub id : ℕ
  pub lapic_id : ℕ
  pub kernel_stack : ℕ
  pub state : ℕ
  pub gs_base : ℕ
  pub is_bsp : Bool

-- `smp_state`, and for each processor whether its `goto_address` is set.
pub record Smp : Type 0 where
  pub cpus : ℕ → CpuInfo
  pub cpu_count : ℕ
  pub bsp_id : ℕ
  pub smp_available : Bool
  pub started_count : ℕ
  pub goto_address : ℕ → Bool

-- What the code here changes.
pub record Machine : Type 0 where
  pub smp : Smp
  pub apic : Apic
  pub paging : Paging

-- `struct limine_mp_response`
pub record MpResponse : Type 0 where
  pub cpu_count : ℕ
  pub bsp_lapic_id : ℕ
  pub lapic_ids : ℕ → ℕ

-- `&smp_state.cpus[i]`, where the array is at `base`: the packed record has 29 bytes.
abbrev pub cpu_address : (base i : ℕ) → ℕ
cpu_address base i = base + 29 * i

-- What the loop of `smp_init` stores for processor `i`.
pub registered : (base i : ℕ) → MpResponse → CpuInfo → CpuInfo
registered base i response cpu =
    let is_bsp = response.lapic_ids i == response.bsp_lapic_id in
    record cpu {
      id = i;
      lapic_id = response.lapic_ids i;
      state = if is_bsp then cpu_state_running else cpu_state_unused;
      gs_base = if is_bsp then cpu_address base i else cpu.gs_base;
      is_bsp = is_bsp;
    }

-- `for (i = 0; i < cpu_count && i < MAX_CPUS; i++)`, at index `i` with `left` rounds to go.
pub register_loop : (base left i : ℕ) → MpResponse → (ℕ → CpuInfo) → ℕ → CpuInfo
unfolding registered
register_loop base zero i response cpus = cpus
register_loop base (suc left) i response cpus =
    register_loop base left (i + 1) response (update cpus i (registered base i response (cpus i)))

pub smp_init : (base : ℕ) → Option MpResponse → Smp → Smp
unfolding register_loop
smp_init base none s = record s {
  smp_available = false;
  cpu_count = 1;
  cpus = update s.cpus 0 (record (s.cpus 0) {
    id = 0;
    lapic_id = 0;
    state = cpu_state_running;
    is_bsp = true;
    gs_base = base;
  });
  started_count = 1;
  bsp_id = 0;
}
smp_init base (some response) s =
    let count = u32 response.cpu_count in
    let rounds = if ltb count max_cpus then count else max_cpus in
    record s {
      cpu_count = count;
      bsp_id = response.bsp_lapic_id;
      smp_available = true;
      started_count = 1;
      cpus = register_loop base rounds 0 response s.cpus;
    }

-- The index of the processor with this number, from `i` on with `left` rounds to go.
pub find_cpu : (lapic_id left i : ℕ) → (ℕ → CpuInfo) → Option ℕ
find_cpu lapic_id zero i cpus = none
find_cpu lapic_id (suc left) i cpus =
    let rest = find_cpu lapic_id left (i + 1) cpus in
    if (cpus i).lapic_id == lapic_id then some i else rest

abbrev pub set_cpu : (i : ℕ) → (CpuInfo → CpuInfo) → Smp → Smp
set_cpu i change s = record s { cpus = update s.cpus i (change (s.cpus i)) }

-- The registers of the local APIC that a started processor sets.
pub enable_lapic : (load : (address : ℕ) → Stores → ℕ) → Apic → Apic
enable_lapic load s =
    if s.apic_available
    then lapic_write 0x80 0
        (lapic_write lapic_siv_reg (bit_or (lapic_read load lapic_siv_reg s) lapic_siv_enable) s)
    else s

-- `ap_entry` on the processor at index `i`, up to the store of its state. The stack is a page that is
-- mapped at its physical address.
pub start_cpu : (load : (address : ℕ) → Stores → ℕ) (base i : ℕ) → Machine → Machine
unfolding enable_lapic
start_cpu load base i k =
    let r = pmm_alloc_page k.paging.pmm in
    let taken = record k.paging { pmm = r.1 } in
    let kernel_stack = u64 (r.0 + 0x1000 - 16) in
    let m =
      paging_map_page (bit_and kernel_stack frame_mask) r.0 (bit_or paging_present paging_writable)
        taken in
    if r.0 == 0
    then record k {
      paging = taken;
      smp = set_cpu i (λ c. record c { state = cpu_state_halted }) k.smp;
    }
    else record k {
      paging = m.1;
      apic = enable_lapic load k.apic;
      smp =
          set_cpu i
            (λ c. record c {
              kernel_stack = kernel_stack;
              gs_base = cpu_address base i;
              state = cpu_state_running;
            })
            k.smp;
    }

pub ap_entry : (load : (address : ℕ) → Stores → ℕ) (base lapic_id : ℕ) → Machine → Machine
unfolding find_cpu start_cpu
ap_entry load base lapic_id k = elim (find_cpu lapic_id k.smp.cpu_count 0 k.smp.cpus) [
  | none ↦ k
  | some i ↦ start_cpu load base i k
]

-- `__sync_fetch_and_add(&smp_state.started_count, 1)`
pub ap_count : Machine → Machine
ap_count k = record k { smp = record k.smp { started_count = u32 (k.smp.started_count + 1) } }

-- What another processor does in one step: `ap_entry` up to its state, or the addition behind it.
pub data ApStep : Type 0 where
  entered : (lapic_id : ℕ) → ApStep
  counted : ApStep

-- Steps of the other processors, in their order.
pub run_aps : (load : (address : ℕ) → Stores → ℕ) (base : ℕ) → List ApStep → Machine → Machine
unfolding ap_entry ap_count
run_aps load base [] k = k
run_aps load base (entered lapic_id ∷ steps) k =
    run_aps load base steps (ap_entry load base lapic_id k)
run_aps load base (counted ∷ steps) k = run_aps load base steps (ap_count k)

-- Whether the loop that counts takes this processor for one that was started.
abbrev pub is_running_ap : CpuInfo → Bool
is_running_ap c = not c.is_bsp && c.state == cpu_state_running

-- The count of the processors that run, but for the first, from index `i` on with `left` rounds to
-- go: `steps` has for each index what the others do before its record is read.
pub count_loop :
    (load : (address : ℕ) → Stores → ℕ) (base : ℕ) (steps : ℕ → List ApStep)
    (left i running_aps : ℕ)
    → Machine
    → ℕ × Machine
unfolding run_aps
count_loop load base steps zero i running_aps k = (running_aps, k)
count_loop load base steps (suc left) i running_aps k =
    let k' = run_aps load base (steps i) k in
    count_loop load base steps left (i + 1)
      (if is_running_ap (k'.smp.cpus i) then suc running_aps else running_aps) k'

pub count_aps :
    (load : (address : ℕ) → Stores → ℕ) (base : ℕ) (steps : ℕ → List ApStep) → Machine → ℕ × Machine
unfolding count_loop
count_aps load base steps k = count_loop load base steps k.smp.cpu_count 0 0 k

-- `for (i = 0; i < mp_response->cpu_count; i++)`: which processors are sent to `ap_entry`.
pub set_goto : (left i : ℕ) → MpResponse → (bsp_id : ℕ) → (ℕ → Bool) → ℕ → Bool
set_goto zero i response bsp_id goto = goto
set_goto (suc left) i response bsp_id goto =
    set_goto left (i + 1) response bsp_id
      (if response.lapic_ids i == bsp_id then goto else update goto i true)

-- The polls, of which there are at most 5000000: `left` are to go, and `steps` has for each index of
-- each of them what the others do before it; between two polls they do what comes first in the next.
pub wait_loop :
    (load : (address : ℕ) → Stores → ℕ) (base : ℕ) (steps : ℕ → ℕ → List ApStep) (left : ℕ)
    → Machine
    → Machine
unfolding count_aps
wait_loop load base steps zero k = k
wait_loop load base steps (suc left) k =
    let r = count_aps load base (steps left) k in
    let rest = wait_loop load base steps left r.1 in
    if leb (r.1.smp.cpu_count - 1) r.0 then r.1 else rest

-- `started_count = 1 + running_aps`, behind the steps `last` of the others.
pub count_started :
    (load : (address : ℕ) → Stores → ℕ) (base : ℕ) (steps : ℕ → List ApStep) (last : List ApStep)
    → Machine
    → Machine
unfolding count_aps run_aps
count_started load base steps last k =
    let r = count_aps load base steps k in
    let k' = run_aps load base last r.1 in
    record k' { smp = record k'.smp { started_count = u32 (1 + r.0) } }

pub smp_start_aps :
    (load : (address : ℕ) → Stores → ℕ) (base : ℕ) (polls : ℕ → ℕ → List ApStep)
    (steps : ℕ → List ApStep) (last : List ApStep)
    → Option MpResponse
    → Machine
    → Machine
unfolding set_goto wait_loop count_started
smp_start_aps load base polls steps last none k = k
smp_start_aps load base polls steps last (some response) k =
    let sent = record k {
      smp = record k.smp {
        goto_address = set_goto response.cpu_count 0 response k.smp.bsp_id k.smp.goto_address;
      };
    } in
    if not k.smp.smp_available || leb k.smp.cpu_count 1
    then k
    else count_started load base steps last (wait_loop load base polls 5000000 sent)

-- The two writes of a command, once it is delivered; the names of the registers are those of apic.h.
pub send_command : (high low : ℕ) → Apic → Apic
send_command high low s =
    if s.apic_available then lapic_write 0x310 low (lapic_write 0x300 high s) else s

pub smp_send_init : (lapic_id : ℕ) → Apic → Apic
unfolding send_command
smp_send_init lapic_id s = send_command (u32 (lapic_id <<< 24)) 0x4500 s

pub smp_send_startup : (lapic_id vector : ℕ) → Apic → Apic
unfolding send_command
smp_send_startup lapic_id vector s = send_command (u32 (lapic_id <<< 24)) (bit_or 0x4600 vector) s

pub smp_send_ipi : (lapic_id vector : ℕ) → Apic → Apic
unfolding send_command
smp_send_ipi lapic_id vector s = send_command (u32 (lapic_id <<< 24)) (bit_or 0x4000 vector) s

pub smp_broadcast_ipi : (vector : ℕ) → Apic → Apic
unfolding send_command
smp_broadcast_ipi vector s = send_command (0xFF <<< 24) (bit_or 0x4000 vector) s

pub smp_get_cpu_count : Smp → ℕ
smp_get_cpu_count s = s.cpu_count

-- The address of the record, or NULL.
pub smp_get_cpu_info : (base cpu_id : ℕ) → Smp → ℕ
smp_get_cpu_info base cpu_id s = if leb s.cpu_count cpu_id then 0 else cpu_address base cpu_id

module _ (load : (address : ℕ) → Stores → ℕ) where
  pub smp_is_bsp : Smp → Apic → Bool
  smp_is_bsp s a =
      if s.cpu_count == 0
      then true
      else (if a.apic_available then lapic_read load lapic_id_reg a >>> 24 == s.bsp_id else true)

  -- `rdmsr` gave `eax`, the low half of the base that `ap_entry` stored.
  pub smp_get_current_cpu : (base eax : ℕ) → Smp → Apic → ℕ
  unfolding smp_is_bsp
  smp_get_current_cpu base eax s a = if smp_is_bsp s a then cpu_address base 0 else eax
