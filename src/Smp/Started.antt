-- ===== src/Smp/Started.antt =====
-- How many processors `smp_start_aps` of kernel/src/sys/smp.c counts as started.
use deer.Base.{
  ℕ, zero, suc, ◌+◌, ◌-◌, ◌^◌, ◌<◌, ◌≤◌, ◌≡◌, refl, sym, ap, ◌∙◌, arith, Bool, true, false, ◌||◌,
  not, inl, inr, Bool-cases, leb, u32, ◌==◌, if◌then◌else◌, update, Option, none, some, List, [],
  ◌∷◌, ◌++◌,
}
use deer.Pmm.{pmm_alloc_page}
use deer.Apic.{Stores}
use deer.Smp.{
  CpuInfo, Smp, Machine, MpResponse, ApStep, entered, counted, find_cpu, start_cpu, ap_entry,
  ap_count, is_running_ap, count_loop, count_aps, set_goto, run_aps, wait_loop, count_started,
  smp_start_aps,
}

-- One of the processors that are listed is the first.
abbrev pub HasFirst : Smp → Type 0
HasFirst s = (j : ℕ) × (j < s.cpu_count) × ((s.cpus j).is_bsp ≡ true)

-- The other processors that run, by their records: one for a record that is not the first's and
-- whose state is 2.
pub one_if_runs : CpuInfo → ℕ
one_if_runs c = if c.is_bsp then 0 else (if c.state == 2 then 1 else 0)

-- And how many of the first `n` records.
pub number : (n : ℕ) → (ℕ → CpuInfo) → ℕ
unfolding one_if_runs
number zero cpus = 0
number (suc n) cpus = number n cpus + one_if_runs (cpus n)

number-le : (n : ℕ) (cpus : ℕ → CpuInfo) → number n cpus ≤ n
unfolding number one_if_runs
number-le zero cpus = omega arith
number-le (suc n) cpus = ground (arith, number-le n cpus)

same_index : (j i : ℕ) → (j == i) ≡ true → j ≡ i
same_index j i e = ground arith

-- The first processor is not counted.
number-lt : (n j : ℕ) (cpus : ℕ → CpuInfo) → j < n → (cpus j).is_bsp ≡ true → number n cpus < n
unfolding number
number-lt zero j cpus below first = absurd (omega arith)
number-lt (suc n) j cpus below first = elim (Bool-cases (j == n)) [
  | inl e ↦
      let none_here : one_if_runs (cpus n) ≡ 0 =
        zero_for_first (cpus n) (ap (λ x. (cpus x).is_bsp) (sym (same_index j n e)) ∙ first) in
      omega (arith, none_here, number-le n cpus)
  | inr e ↦
      let at_most : one_if_runs (cpus n) ≤ 1 = small (cpus n) in
      omega (arith, at_most, number-lt n j cpus (less j n below e) first)
]
  where
    zero_for_first : (c : CpuInfo) → c.is_bsp ≡ true → one_if_runs c ≡ 0
    zero_for_first c e = unfold one_if_runs in ground arith

    small : (c : CpuInfo) → one_if_runs c ≤ 1
    small c = unfold one_if_runs in ground arith

    less : (j n : ℕ) → j < suc n → (j == n) ≡ false → j < n
    less j n h e = ground arith

-- The same processors are listed, and the same are first.
record Keeps (s t : Smp) : Type 0 where
  pub cpu_count : t.cpu_count ≡ s.cpu_count
  pub is_bsp : (j : ℕ) → (t.cpus j).is_bsp ≡ (s.cpus j).is_bsp

Keeps-HasFirst : (s t : Smp) → Keeps s t → HasFirst s → HasFirst t
Keeps-HasFirst s t h (j, below, first) = (j, omega (arith, h.cpu_count), h.is_bsp j ∙ first)

set_cpu-is_bsp :
    (i j : ℕ) (c : CpuInfo) (cpus : ℕ → CpuInfo)
    → c.is_bsp ≡ (cpus i).is_bsp
    → (update cpus i c j).is_bsp ≡ (cpus j).is_bsp
set_cpu-is_bsp i j c cpus e = elim (Bool-cases (j == i)) [
  | inl same ↦
      ap (λ (b : Bool). CpuInfo.is_bsp (if b then c else cpus j)) same
      ∙ e
      ∙ ap (λ x. (cpus x).is_bsp) (sym (same_index j i same))
  | inr other ↦ ap (λ (b : Bool). CpuInfo.is_bsp (if b then c else cpus j)) other
]

Keeps-refl : (s : Smp) → Keeps s s
Keeps-refl s = record { cpu_count = refl; is_bsp = λ j. refl }

Keeps-trans : (s t u : Smp) → Keeps s t → Keeps t u → Keeps s u
Keeps-trans s t u h g = record {
  cpu_count = g.cpu_count ∙ h.cpu_count;
  is_bsp = λ j. g.is_bsp j ∙ h.is_bsp j;
}

if-Keeps :
    (b : Bool) (s : Smp) (k l : Machine)
    → Keeps s k.smp
    → Keeps s l.smp
    → Keeps s (Machine.smp (if b then k else l))
if-Keeps true s k l p q = p
if-Keeps false s k l p q = q

-- `k` when the processors have been sent to `ap_entry`.
abbrev pub sent : MpResponse → Machine → Machine
sent response k = record k {
  smp = record k.smp {
    goto_address = set_goto response.cpu_count 0 response k.smp.bsp_id k.smp.goto_address;
  };
}

module _ (load : (address : ℕ) → Stores → ℕ) (base : ℕ) where
  start_cpu-Keeps : (i : ℕ) (k : Machine) → Keeps k.smp (start_cpu load base i k).smp
  unfolding start_cpu
  start_cpu-Keeps i k =
      if-Keeps ((pmm_alloc_page k.paging.pmm).0 == 0) k.smp _ _
        (record { cpu_count = refl; is_bsp = λ j. set_cpu-is_bsp i j _ k.smp.cpus refl })
        (record { cpu_count = refl; is_bsp = λ j. set_cpu-is_bsp i j _ k.smp.cpus refl })

  ap_entry-Keeps : (lapic_id : ℕ) (k : Machine) → Keeps k.smp (ap_entry load base lapic_id k).smp
  unfolding ap_entry
  ap_entry-Keeps lapic_id k = found (find_cpu lapic_id k.smp.cpu_count 0 k.smp.cpus)
    where
      found :
          (o : Option ℕ)
          → Keeps k.smp (Machine.smp (elim o [ none ↦ k | some i ↦ start_cpu load base i k ]))
      found none = Keeps-refl k.smp
      found (some i) = start_cpu-Keeps i k

  run_aps-Keeps : (steps : List ApStep) (k : Machine) → Keeps k.smp (run_aps load base steps k).smp
  unfolding run_aps ap_count
  run_aps-Keeps [] k = Keeps-refl k.smp
  run_aps-Keeps (entered lapic_id ∷ steps) k =
      Keeps-trans k.smp (ap_entry load base lapic_id k).smp _ (ap_entry-Keeps lapic_id k)
        (run_aps-Keeps steps (ap_entry load base lapic_id k))
  run_aps-Keeps (counted ∷ steps) k =
      Keeps-trans k.smp (ap_count k).smp _ (record { cpu_count = refl; is_bsp = λ j. refl })
        (run_aps-Keeps steps (ap_count k))

  run_aps-append :
      (a b : List ApStep) (k : Machine)
      → run_aps load base (a ++ b) k ≡ run_aps load base b (run_aps load base a k)
  unfolding run_aps
  run_aps-append [] b k = refl
  run_aps-append (entered lapic_id ∷ a) b k = run_aps-append a b (ap_entry load base lapic_id k)
  run_aps-append (counted ∷ a) b k = run_aps-append a b (ap_count k)

  -- The steps of the others up to the reading of record `i`, and the record that is then read.
  pub steps_to : (steps : ℕ → List ApStep) (i : ℕ) → List ApStep
  steps_to steps zero = []
  steps_to steps (suc i) = steps_to steps i ++ steps i

  abbrev pub seen : (steps : ℕ → List ApStep) → Machine → (i : ℕ) → CpuInfo
  seen steps k i = (run_aps load base (steps_to steps (suc i)) k).smp.cpus i

  is_running_ap-one :
      (c : CpuInfo) (r : ℕ) → (if is_running_ap c then suc r else r) ≡ r + one_if_runs c
  unfolding one_if_runs
  is_running_ap-one c r = ground arith

  count_loop-seen :
      (steps : ℕ → List ApStep) (left i : ℕ) (k : Machine)
      → count_loop load base steps left i
          (number i (seen steps k))
          (run_aps load base (steps_to steps i) k)
        ≡ (number (i + left) (seen steps k), run_aps load base (steps_to steps (i + left)) k)
  unfolding count_loop number steps_to
  count_loop-seen steps zero i k =
      ap (λ (n : ℕ). (number n (seen steps k), run_aps load base (steps_to steps n) k))
        (omega arith)
  count_loop-seen steps (suc left) i k =
      ap
        (λ (m : Machine).
          count_loop load base steps left (i + 1)
            (if is_running_ap (m.smp.cpus i)
              then suc (number i (seen steps k))
              else number i (seen steps k))
            m)
        (sym (run_aps-append (steps_to steps i) (steps i) k))
      ∙ ap
          (λ (r : ℕ).
            count_loop load base steps left (i + 1) r
              (run_aps load base (steps_to steps (suc i)) k))
          (is_running_ap-one (seen steps k i) (number i (seen steps k)))
      ∙ ap
          (λ (n : ℕ).
            count_loop load base steps left (i + 1) (number n (seen steps k))
              (run_aps load base (steps_to steps n) k))
          next
      ∙ count_loop-seen steps left (i + 1) k
      ∙ ap (λ (n : ℕ). (number n (seen steps k), run_aps load base (steps_to steps n) k))
          (omega arith)
    where
      next : suc i ≡ i + 1
      next = omega arith

  count_aps-seen :
      (steps : ℕ → List ApStep) (k : Machine)
      → count_aps load base steps k ≡ (
        number k.smp.cpu_count (seen steps k),
        run_aps load base (steps_to steps k.smp.cpu_count) k,
      )
  unfolding count_aps number steps_to run_aps
  count_aps-seen steps k =
      count_loop-seen steps k.smp.cpu_count 0 k
      ∙ ap (λ (n : ℕ). (number n (seen steps k), run_aps load base (steps_to steps n) k))
          (omega arith)

  -- Whatever the polls find, only the others change the state.
  wait_loop-steps :
      (polls : ℕ → ℕ → List ApStep) (left : ℕ) (k : Machine)
      → (before : List ApStep) × (wait_loop load base polls left k ≡ run_aps load base before k)
  unfolding wait_loop run_aps
  wait_loop-steps polls zero k = ([], refl)
  wait_loop-steps polls (suc left) k =
      let r = count_aps load base (polls left) k in
      let some_steps = steps_to (polls left) k.smp.cpu_count in
      let at : r.1 ≡ run_aps load base some_steps k =
        ap (λ (x : ℕ × Machine). x.1) (count_aps-seen (polls left) k) in
      let (later, e) = wait_loop-steps polls left r.1 in
      elim (Bool-cases (leb (r.1.smp.cpu_count - 1) r.0)) [
        | inl enough ↦ (
          some_steps,
          ap (λ (b : Bool). if b then r.1 else wait_loop load base polls left r.1) enough ∙ at,
        )
        | inr more ↦ (
          some_steps ++ later,
          ap (λ (b : Bool). if b then r.1 else wait_loop load base polls left r.1) more
              ∙ e
              ∙ ap (run_aps load base later) at
              ∙ sym (run_aps-append some_steps later k),
        )
      ]

  -- Where the first processor is among those that are listed, and more than one is: whatever steps
  -- the others take before and during the polls, the last count and the store of its result,
  -- started_count is then one more than the number of records, but for the first's, that were read
  -- as running in the last count, each as the steps up to its reading left it; it is not more than
  -- the number of processors that are listed.
  pub start_aps-started :
      (polls : ℕ → ℕ → List ApStep) (steps : ℕ → List ApStep) (last : List ApStep)
      (response : MpResponse) (k : Machine)
      → HasFirst k.smp
      → k.smp.smp_available ≡ true
      → 1 < k.smp.cpu_count
      → k.smp.cpu_count < 2 ^ 32
      → let k' = smp_start_aps load base polls steps last (some response) k in
        (before : List ApStep) × (k'.smp.started_count
          ≡ 1 + number k.smp.cpu_count (seen steps (run_aps load base before (sent response k))))
        × (k'.smp.started_count ≤ k.smp.cpu_count)
  unfolding smp_start_aps count_started
  start_aps-started polls steps last response k (j, below, first) available several small =
      let (before, e) = wait_loop-steps polls 5000000 (sent response k) in
      let m = run_aps load base before (sent response k) in
      let kept = run_aps-Keeps before (sent response k) in
      let after = run_aps-Keeps (steps_to steps (suc j)) m in
      let found = number k.smp.cpu_count (seen steps m) in
      let few : found < k.smp.cpu_count =
        number-lt k.smp.cpu_count j (seen steps m) below (after.is_bsp j ∙ kept.is_bsp j ∙ first) in
      let stored : (smp_start_aps load base polls steps last (some response) k).smp.started_count
          ≡ 1 + found =
        ap
          (λ (b : Bool). Smp.started_count (
            Machine.smp (
              if b
              then k
              else count_started load base steps last
                  (wait_loop load base polls 5000000 (sent response k)))))
          (goes_on k.smp.smp_available k.smp.cpu_count available several)
        ∙ ap (λ (x : Machine). u32 (1 + (count_aps load base steps x).0)) e
        ∙ ap (λ (x : ℕ × Machine). u32 (1 + x.0)) (count_aps-seen steps m)
        ∙ ap (λ n. u32 (1 + number n (seen steps m))) kept.cpu_count
        ∙ omega (arith, few) in
      (before, stored, omega (arith, stored, few))
    where
      goes_on : (b : Bool) (n : ℕ) → b ≡ true → 1 < n → (not b || leb n 1) ≡ false
      goes_on b n e h = ground arith
