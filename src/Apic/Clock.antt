-- ===== src/Apic/Clock.antt =====
-- kernel/src/sys/apic.c: the timer of the local APIC, its ticks and the sleeps that they end.
use deer.Base.{
  ℕ, ◌+◌, ◌-◌, ◌/◌, ◌%◌, bit_or, true, false, ◌&&◌, ◌||◌, not, Option, none, some, List, [], ◌∷◌,
  ltb, leb, ◌==◌, if◌then◌else◌, u32, u64,
}
use deer.Task.{Tasking, task_scheduler_tick}
use deer.Apic.{
  Apic, lapic_write, lapic_timer_divider, lapic_lvt_timer, lapic_timer_initial,
  lapic_timer_periodic,
}

-- Ticks of a clock of 1 GHz behind a divider of 16.
abbrev pub temp_calc : ℕ
temp_calc = 1000000000 / 16

-- The count that the timer starts from, where it is not refused.
unfoldable pub set_count : (count : ℕ) → Apic → Apic
unfolding lapic_write
set_count count s = if count == 0 then s else lapic_write lapic_timer_initial count s

unfoldable pub lapic_timer_init : (vector frequency : ℕ) → Apic → Apic
unfolding lapic_write set_count
lapic_timer_init vector frequency s =
    let armed =
      lapic_write lapic_lvt_timer (bit_or vector lapic_timer_periodic)
        (lapic_write lapic_timer_divider 0x3 s) in
    if s.apic_available
    then (if frequency == 0 || temp_calc / frequency == 0
        then armed
        else set_count (u32 (temp_calc / frequency) - 1) armed)
    else s

unfoldable pub lapic_timer_stop : Apic → Apic
unfolding lapic_write
lapic_timer_stop s = if s.apic_available then lapic_write lapic_lvt_timer 0x10000 s else s

unfoldable pub lapic_get_ticks : Apic → ℕ
lapic_get_ticks s = s.lapic_ticks

abbrev pub count_tick : Apic → Apic
count_tick s = record s { lapic_ticks = u64 (s.lapic_ticks + 1) }

-- The handler of the timer calls the scheduler on each tenth tick; `fuel` is for its search.
unfoldable pub lapic_timer_handler : (fuel : ℕ) → Apic → Tasking → Option (Apic × Tasking)
lapic_timer_handler fuel s k =
    let t = count_tick s in
    if t.lapic_ticks % 10 == 0
    then elim (task_scheduler_tick fuel k) [ none ↦ none | some k' ↦ some (t, k') ]
    else some (t, k)

unfoldable pub lapic_timer_handler_for_sleep : Apic → Apic
lapic_timer_handler_for_sleep s =
    let t = count_tick s in
    if t.lapic_sleeping && leb t.sleep_end_ticks t.lapic_ticks
    then record t { lapic_sleeping = false }
    else t

-- An interrupt of the timer, or another one.
pub data Wake : Type 0 where
  timer other : Wake

-- The interrupts that come from one test of the loop to the next: before the `hlt`, and the one that
-- ends it with those right behind it. There is at least one, since the `hlt` waits for it.
pub record Round : Type 0 where
  pub wake : Wake
  pub more : List Wake

unfoldable pub serve : (handler : Apic → Apic) → List Wake → Apic → Apic
serve handler [] s = s
serve handler (timer ∷ wakes) s = serve handler wakes (handler s)
serve handler (other ∷ wakes) s = serve handler wakes s

-- `while (lapic_sleeping && lapic_get_ticks() < target_ticks) hlt`, over the interrupts that come;
-- `none` means that it sleeps on behind the last round. The timer's handler is `handler`.
unfoldable pub sleep_loop : (handler : Apic → Apic) (target : ℕ) → List Round → Apic → Option Apic
unfolding serve
sleep_loop handler target [] s =
    if s.lapic_sleeping && ltb s.lapic_ticks target then none else some s
sleep_loop handler target (r ∷ rounds) s =
    let rest = sleep_loop handler target rounds (serve handler (r.wake ∷ r.more) s) in
    if s.lapic_sleeping && ltb s.lapic_ticks target then rest else some s

unfoldable pub wake_up : Option Apic → Option Apic
wake_up none = none
wake_up (some s) = some (record s { lapic_sleeping = false })

-- From the reading of the count to the first test no interrupt comes.
unfoldable pub lapic_sleep_ms : (handler : Apic → Apic) → List Round → (ms : ℕ) → Apic → Option Apic
unfolding sleep_loop wake_up
lapic_sleep_ms handler rounds ms s =
    let target = u64 (s.lapic_ticks + ms) in
    if not s.apic_available || leb target s.lapic_ticks
    then some s
    else wake_up (
        sleep_loop handler target rounds
          (record s { lapic_sleeping = true; sleep_end_ticks = target }))

unfoldable pub lapic_sleep_us : (handler : Apic → Apic) → List Round → (us : ℕ) → Apic → Option Apic
unfolding lapic_sleep_ms
lapic_sleep_us handler rounds us s = lapic_sleep_ms handler rounds (u64 (us + 999) / 1000) s
