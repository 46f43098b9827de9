-- ===== src/Apic/Sleep.antt =====
-- `lapic_sleep_ms` of kernel/src/sys/apic.c, and the timer's handlers that count for it.
use deer.Base.{
  ℕ, suc, ◌+◌, ◌<◌, ◌≤◌, ◌≡◌, refl, ap, arith, Bool, true, false, ◌&&◌, List, [], ◌∷◌, ◌++◌, leb,
  if◌then◌else◌, u64, some,
}
use deer.Apic.{Apic}
use deer.Apic.Clock.{
  timer, other, Wake, Round, serve, count_tick, sleep_loop, lapic_timer_handler_for_sleep,
}

-- How many of the interrupts are the timer's.
unfoldable pub ticks_of : List Wake → ℕ
ticks_of [] = 0
ticks_of (timer ∷ wakes) = suc (ticks_of wakes)
ticks_of (other ∷ wakes) = ticks_of wakes

-- And in rounds of the loop.
abbrev pub round_ticks : Round → ℕ
round_ticks r = ticks_of (r.wake ∷ r.more)

unfoldable pub rounds_ticks : List Round → ℕ
rounds_ticks [] = 0
rounds_ticks (r ∷ rounds) = round_ticks r + rounds_ticks rounds

-- What a handler that the sleep relies on does: it counts a tick, and the sleep goes on at least
-- until the count at which it is to end.
pub record IsCounting (handler : Apic → Apic) : Type 0 where
  pub counts : (s : Apic) → (handler s).lapic_ticks ≡ u64 (s.lapic_ticks + 1)
  pub keeps_end : (s : Apic) → (handler s).sleep_end_ticks ≡ s.sleep_end_ticks
  pub goes_on :
      (s : Apic)
      → u64 (s.lapic_ticks + 1) < s.sleep_end_ticks
      → (handler s).lapic_sleeping ≡ s.lapic_sleeping

-- The handler that calls the scheduler does so to the state of the APIC alone.
pub count_tick-IsCounting : IsCounting count_tick
count_tick-IsCounting = record { counts = λ s. refl; keeps_end = λ s. refl; goes_on = λ s h. refl }

stopped : Apic → Apic
stopped s = record (count_tick s) { lapic_sleeping = false }

-- Either way of a test keeps what both branches have.
either :
    {A : Type 0} (f : Apic → A) (b : Bool) (t u : Apic) (v : A)
    → f t ≡ v
    → f u ≡ v
    → f (if b then t else u) ≡ v
either f true t u v p q = p
either f false t u v p q = q

for_sleep-IsCounting : IsCounting lapic_timer_handler_for_sleep
unfolding lapic_timer_handler_for_sleep stopped
for_sleep-IsCounting = record {
  counts = λ s.
      either (λ (t : Apic). t.lapic_ticks) (over s) (stopped s) (count_tick s)
        (u64 (s.lapic_ticks + 1)) refl refl;
  keeps_end = λ s.
      either (λ (t : Apic). t.sleep_end_ticks) (over s) (stopped s) (count_tick s) s.sleep_end_ticks
        refl refl;
  goes_on = λ s h.
      ap (λ (b : Bool). Apic.lapic_sleeping (if b then stopped s else count_tick s))
        (early s.lapic_sleeping (u64 (s.lapic_ticks + 1)) s.sleep_end_ticks h);
}
  where
    over : Apic → Bool
    over s = s.lapic_sleeping && leb s.sleep_end_ticks (u64 (s.lapic_ticks + 1))

    early : (b : Bool) (n end : ℕ) → n < end → (b && leb end n) ≡ false
    early true n end h = ground arith
    early false n end h = refl

-- A sleep that is to end at `target`.
record IsAsleep (target : ℕ) (s : Apic) : Type 0 where
  pub end : s.sleep_end_ticks ≡ target
  pub sleeping : s.lapic_ticks < target → s.lapic_sleeping ≡ true

module _ (handler : Apic → Apic) (h : IsCounting handler) (target : ℕ) where
  served : Round → Apic → Apic
  served r s = serve handler (r.wake ∷ r.more) s

  -- The loop ends behind the first round at whose end the target is reached.
  record Ended (rounds : List Round) (s : Apic) : Type 0 where
    before : List Round
    last : Round
    after : List Round
    state : Apic
    split : rounds ≡ before ++ last ∷ after
    early : s.lapic_ticks + rounds_ticks before < target
    enough : target ≤ s.lapic_ticks + rounds_ticks before + round_ticks last
    result : sleep_loop handler target rounds s ≡ some state
    count : state.lapic_ticks ≡ s.lapic_ticks + rounds_ticks before + round_ticks last
