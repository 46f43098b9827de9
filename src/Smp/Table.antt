-- ===== src/Smp/Table.antt =====
-- Which processors `smp_init` of kernel/src/sys/smp.c registers.
use deer.Base.{
  ℕ, zero, suc, ◌+◌, ◌*◌, ◌%◌, ◌^◌, ◌≡◌, refl, sym, ap, ◌∙◌, arith, Bool, true, false, ◌&&◌, inl,
  inr, Bool-cases, ltb, leb, ◌==◌, if◌then◌else◌, update, update_self, update_other, some,
}
use deer.Smp.{CpuInfo, Smp, MpResponse, registered, register_loop, smp_init, max_cpus}

-- What the loop leaves at index `j`.
abbrev after : (base left i j : ℕ) → MpResponse → (ℕ → CpuInfo) → CpuInfo
after base left i j response cpus =
    if leb i j && ltb j (i + left) then registered base j response (cpus j) else cpus j

register_loop-after :
    (base left i j : ℕ) (response : MpResponse) (cpus : ℕ → CpuInfo)
    → register_loop base left i response cpus j ≡ after base left i j response cpus
unfolding register_loop
register_loop-after base zero i j response cpus = sym (choose (never i j))
  where
    choose :
        {b : Bool}
        → b ≡ false
        → (if b then registered base j response (cpus j) else cpus j) ≡ cpus j
    choose e = ap (λ (b : Bool). if b then registered base j response (cpus j) else cpus j) e

    never : (i j : ℕ) → (leb i j && ltb j (i + 0)) ≡ false
    never i j = ground arith
register_loop-after base (suc left) i j response cpus =
    register_loop-after base left (i + 1) j response entered ∙ elim (Bool-cases (j == i)) [
      | inl e ↦
          let ji : j ≡ i = ground arith in
          ap (choose (entered j)) (past i j left ji)
          ∙ ap entered ji
          ∙ update_self cpus i (registered base i response (cpus i))
          ∙ ap (λ x. registered base x response (cpus x)) (sym ji)
          ∙ sym (ap (choose (cpus j)) (here i j left ji))
      | inr e ↦
          ap (λ c. choose c (leb (i + 1) j && ltb j (i + 1 + left)))
            (update_other cpus i j (registered base i response (cpus i))
              (λ (ji : j ≡ i). differ i j e ji))
          ∙ ap (choose (cpus j)) (later i j left e)
    ]
  where
    entered : ℕ → CpuInfo
    entered = update cpus i (registered base i response (cpus i))

    choose : CpuInfo → Bool → CpuInfo
    choose c b = if b then registered base j response c else c

    past : (i j left : ℕ) → j ≡ i → (leb (i + 1) j && ltb j (i + 1 + left)) ≡ false
    past i j left e = ground arith

    here : (i j left : ℕ) → j ≡ i → (leb i j && ltb j (i + suc left)) ≡ true
    here i j left e = ground arith

    later :
        (i j left : ℕ)
        → (j == i) ≡ false
        → (leb (i + 1) j && ltb j (i + 1 + left)) ≡ (leb i j && ltb j (i + suc left))
    later i j left e = ground arith

    differ : (i j : ℕ) → (j == i) ≡ false → j ≡ i → ⊥
    differ i j e ji = ground arith

-- The record of processor `j`, which had the stack `kernel_stack` and the base `gs_base` before.
abbrev pub listed : (base j lapic_id kernel_stack gs_base : ℕ) (first : Bool) → CpuInfo
listed base j lapic_id kernel_stack gs_base first = record {
  id = j;
  lapic_id = lapic_id;
  kernel_stack = kernel_stack;
  state = if first then 2 else 0;
  gs_base = if first then base + 29 * j else gs_base;
  is_bsp = first;
}

-- With an answer of the bootloader, each processor that it lists, but of the first 256 only, is
-- entered with its number, its local APIC, and whether it is the first: that one runs and has the
-- address of its record, the others wait. Every other record is as it was. The processors that are
-- listed are counted modulo 2 ^ 32.
pub smp_init-registered :
    (base j : ℕ) (response : MpResponse) (s : Smp)
    → let count = response.cpu_count % 2 ^ 32 in
      ((smp_init base (some response) s).cpus j ≡ (
        if ltb j count && ltb j 256
        then listed base j
            (response.lapic_ids j)
            (s.cpus j).kernel_stack
            (s.cpus j).gs_base
            (response.lapic_ids j == response.bsp_lapic_id)
        else s.cpus j))
      × ((smp_init base (some response) s).cpu_count ≡ count)
unfolding smp_init registered
smp_init-registered base j response s = (
  register_loop-after base rounds 0 j response s.cpus
      ∙ ap (λ (b : Bool). if b then registered base j response (s.cpus j) else s.cpus j)
          (both j count),
  refl,
)
  where
    count : ℕ
    count = response.cpu_count % 2 ^ 32

    rounds : ℕ
    rounds = if ltb count max_cpus then count else max_cpus

    both :
        (j n : ℕ)
        → (leb 0 j && ltb j (0 + (if ltb n max_cpus then n else max_cpus)))
          ≡ (ltb j n && ltb j max_cpus)
    both j n = ground arith
