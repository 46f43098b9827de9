-- ===== src/Apic/Timer.antt =====
-- Which stores `lapic_timer_init` of kernel/src/sys/apic.c makes.
use mathlib.Core.Path.{subst}
use native.Mathlib.Nat.{div-mul-le_self}
use deer.Base.{
  ℕ, ◌+◌, ◌-◌, ◌*◌, ◌/◌, ◌<◌, ◌≤◌, ◌≡◌, ◌≢◌, ◌⊎◌, ap, ◌∙◌, arith, Bool, true, false, ◌||◌, ◌&&◌,
  not, inl, inr, Bool-cases, ◌∷◌, ◌==◌, if◌then◌else◌, u32, bit_or,
}
use deer.Apic.{Apic, Stores, lapic_write, lapic_timer_initial, lapic_timer_periodic}
use deer.Apic.Clock.{lapic_timer_init, set_count, temp_calc}

-- The divider and the periodic mode.
abbrev pub armed : (vector : ℕ) → Apic → Stores
armed vector s =
    (s.lapic_base + 0x320, bit_or vector lapic_timer_periodic)
    ∷ (s.lapic_base + 0x3E0, 3)
    ∷ s.stores

abbrev pub stored : (address value : ℕ) → Apic → Apic
stored address value s = record s { stores = (address, value) ∷ s.stores }

-- A write to a local APIC that is there.
pub lapic_write-stored :
    (reg value : ℕ) (s : Apic)
    → s.lapic_base ≢ 0
    → s.apic_available ≡ true
    → lapic_write reg value s ≡ stored (s.lapic_base + 4 * (reg / 4)) value s
unfolding lapic_write
lapic_write-stored reg value s there available =
    ap (λ (b : Bool). if b then stored (s.lapic_base + 4 * (reg / 4)) value s else s)
      (ready s.lapic_base s.apic_available there available)
  where
    ready : (n : ℕ) (b : Bool) → n ≢ 0 → b ≡ true → (not (n == 0) && b) ≡ true
    ready n b ne e = ground arith

arm : (vector : ℕ) → Apic → Apic
arm vector s = record s { stores = armed vector s }

timer_init-arm :
    (vector frequency : ℕ) (s : Apic)
    → s.lapic_base ≢ 0
    → s.apic_available ≡ true
    → lapic_timer_init vector frequency s ≡ (
        if frequency == 0 || temp_calc / frequency == 0
        then arm vector s
        else set_count (u32 (temp_calc / frequency) - 1) (arm vector s))
unfolding lapic_timer_init arm
timer_init-arm vector frequency s there available =
    ap (λ (b : Bool). if b then counted twice else s) available
    ∙ ap counted (
        ap (lapic_write 0x320 (bit_or vector lapic_timer_periodic))
          (lapic_write-stored 0x3E0 3 s there available)
        ∙ lapic_write-stored 0x320 (bit_or vector lapic_timer_periodic)
            (stored (s.lapic_base + 0x3E0) 3 s) there available)
  where
    counted : Apic → Apic
    counted t =
        if frequency == 0 || temp_calc / frequency == 0
        then t
        else set_count (u32 (temp_calc / frequency) - 1) t

    twice : Apic
    twice = lapic_write 0x320 (bit_or vector lapic_timer_periodic) (lapic_write 0x3E0 3 s)

-- The period of the count that is computed.
below_period : (f : ℕ) → f ≢ 0 → 62500000 / f * f ≤ 62500000
below_period f ne = grind arith

above_period : (f : ℕ) → f ≢ 0 → 62500000 < (62500000 / f + 1) * f
above_period f ne = grind arith

-- For a local APIC that is there: a frequency up to half of the clock's 62500000 Hz gets the
-- largest count whose period, one tick longer than it, is not longer than that of the frequency;
-- any other leaves the timer in its periodic mode and without a count.
pub timer_init-armed :
    (vector frequency : ℕ) (s : Apic)
    → s.lapic_base ≢ 0
    → s.apic_available ≡ true
    → ((count : ℕ) × ((lapic_timer_init vector frequency s).stores
          ≡ (s.lapic_base + 0x380, count) ∷ armed vector s)
        × (0 < count)
        × ((count + 1) * frequency ≤ 62500000)
        × (62500000 < (count + 2) * frequency))
      ⊎ (((lapic_timer_init vector frequency s).stores ≡ armed vector s)
          × ((frequency ≡ 0) ⊎ (31250000 < frequency)))
unfolding set_count arm
timer_init-armed vector frequency s there available = elim (Bool-cases (frequency == 0 || q == 0)) [
  | inl refused ↦ inr (
    ap (λ (t : Apic). t.stores)
        (whole ∙ ap (λ (b : Bool). if b then arm vector s else counted) refused),
    no_count frequency refused,
  )
  | inr asked ↦
      let at_count = whole ∙ ap (λ (b : Bool). if b then arm vector s else counted) asked in
      elim (Bool-cases (u32 q - 1 == 0)) [
        | inl zero_count ↦ inr (
          ap (λ (t : Apic). t.stores) (at_count ∙ skip zero_count),
          inr (too_fast frequency asked zero_count),
        )
        | inr count ↦ inl (
          u32 q - 1,
          ap (λ (t : Apic). t.stores) (at_count ∙ set count),
          ground arith,
          subst (λ n. n * frequency ≤ 62500000) (exact frequency asked count)
              (below_period frequency (nonzero frequency asked)),
          subst (λ n. 62500000 < n * frequency)
              (ap (λ n. n + 1) (exact frequency asked count) ∙ omega arith)
              (above_period frequency (nonzero frequency asked)),
        )
      ]
]
  where
    q : ℕ
    q = temp_calc / frequency

    counted : Apic
    counted = set_count (u32 q - 1) (arm vector s)

    whole :
        lapic_timer_init vector frequency s
        ≡ (if frequency == 0 || q == 0 then arm vector s else counted)
    whole = timer_init-arm vector frequency s there available

    skip : (u32 q - 1 == 0) ≡ true → counted ≡ arm vector s
    skip e =
        ap
          (λ (b : Bool).
            if b then arm vector s else lapic_write lapic_timer_initial (u32 q - 1) (arm vector s))
          e

    set :
        (u32 q - 1 == 0) ≡ false
        → counted ≡ stored (s.lapic_base + 0x380) (u32 q - 1) (arm vector s)
    set e =
        ap
          (λ (b : Bool).
            if b then arm vector s else lapic_write lapic_timer_initial (u32 q - 1) (arm vector s))
          e
        ∙ lapic_write-stored lapic_timer_initial (u32 q - 1) (arm vector s) there available

    nonzero : (f : ℕ) → (f == 0 || temp_calc / f == 0) ≡ false → f ≢ 0
    nonzero f e = ground arith

    narrow : (f : ℕ) → f ≢ 0 → u32 (temp_calc / f) ≡ temp_calc / f
    narrow f ne = grind (arith, div-mul-le_self 62500000 f)

    exact :
        (f : ℕ)
        → (f == 0 || temp_calc / f == 0) ≡ false
        → (u32 (temp_calc / f) - 1 == 0) ≡ false
        → 62500000 / f ≡ u32 (temp_calc / f) - 1 + 1
    exact f e d = ground (arith, narrow f (nonzero f e))

    no_count : (f : ℕ) → (f == 0 || temp_calc / f == 0) ≡ true → (f ≡ 0) ⊎ (31250000 < f)
    no_count f e = elim (Bool-cases (f == 0)) [
      | inl z ↦ inl (ground arith)
      | inr n ↦
          let zero_count : 62500000 / f ≡ 0 = ground arith in
          inr (
            omega (
              arith,
              subst (λ k. 62500000 < (k + 1) * f) zero_count (above_period f (ground arith)),
            ))
    ]

    too_fast :
        (f : ℕ)
        → (f == 0 || temp_calc / f == 0) ≡ false
        → (u32 (temp_calc / f) - 1 == 0) ≡ true
        → 31250000 < f
    too_fast f e d =
        let one : 62500000 / f ≡ 1 = ground (arith, narrow f (nonzero f e)) in
        omega (arith, subst (λ k. 62500000 < (k + 1) * f) one (above_period f (nonzero f e)))
