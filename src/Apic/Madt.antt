-- ===== src/Apic/Madt.antt =====
-- The walk of `ioapic_init` in kernel/src/sys/apic.c over the entries of the MADT.
use deer.Base.{
  ℕ, zero, suc, ◌+◌, ◌^◌, ◌<◌, ◌≤◌, ◌≡◌, ◌≢◌, refl, ap, ◌∙◌, arith, Bool, true, false, inl, inr,
  Bool-cases, none, some, ltb, ◌==◌, if◌then◌else◌, u64,
}
use deer.Memory.{Bytes}
use deer.Apic.{madt_loop}

-- From `ptr` on, entries of at least one byte each lead to the end of the table; `found` is the
-- first of an IOAPIC, or 0.
pub data Entries (m : Bytes) (madt_end : ℕ) : (ptr found : ℕ) → Type 0 where
  ended : (ptr : ℕ) → madt_end ≤ ptr → Entries m madt_end ptr 0
  ioapic : (ptr : ℕ) → ptr < madt_end → m ptr ≡ 1 → Entries m madt_end ptr ptr
  entry :
      (ptr found : ℕ)
      → ptr < madt_end
      → m ptr ≢ 1
      → m (ptr + 1) ≢ 0
      → m (ptr + 1) < 2 ^ 8
      → Entries m madt_end (ptr + m (ptr + 1)) found
      → Entries m madt_end ptr found

-- The tests of one round.
round :
    (fuel ptr madt_end : ℕ) (m : Bytes) (inside is : Bool)
    → ltb ptr madt_end ≡ inside
    → (m ptr == 1) ≡ is
    → madt_loop (suc fuel) ptr madt_end m ≡ (
        if inside
        then (if is then some ptr else madt_loop fuel (u64 (ptr + m (ptr + 1))) madt_end m)
        else some 0)
unfolding madt_loop
round fuel ptr madt_end m inside is p q =
    ap
      (λ (b : Bool).
        if b
        then (if m ptr == 1 then some ptr else madt_loop fuel (u64 (ptr + m (ptr + 1))) madt_end m)
        else some 0)
      p
    ∙ ap
        (λ (b : Bool).
          if inside
          then (if b then some ptr else madt_loop fuel (u64 (ptr + m (ptr + 1))) madt_end m)
          else some 0)
        q

inside_test : (a b : ℕ) → a < b → ltb a b ≡ true
inside_test a b h = ground arith

outside_test : (a b : ℕ) → b ≤ a → ltb a b ≡ false
outside_test a b h = ground arith

other_test : (v : ℕ) → v ≢ 1 → (v == 1) ≡ false
other_test v ne = ground arith

-- The walk ends, with one round more than there are bytes, at the first entry of an IOAPIC, or with
-- 0 if there is none, where no entry before it is empty and the table ends well below 2 ^ 64.
pub madt_loop-Entries :
    (m : Bytes) (madt_end fuel ptr found : ℕ)
    → Entries m madt_end ptr found
    → madt_end + 2 ^ 8 ≤ 2 ^ 64
    → madt_end ≤ ptr + fuel
    → madt_loop (suc fuel) ptr madt_end m ≡ some found
madt_loop-Entries m e fuel ptr f (ended _ over) room enough = elim (Bool-cases (m ptr == 1)) [
  | inl is ↦ round fuel ptr e m false true (outside_test ptr e over) is
  | inr other ↦ round fuel ptr e m false false (outside_test ptr e over) other
]
madt_loop-Entries m e fuel ptr f (ioapic _ under is) room enough =
    round fuel ptr e m true true (inside_test ptr e under) (ground arith)
madt_loop-Entries m e zero ptr f (entry _ _ under other full small rest) room enough =
    absurd (omega arith)
madt_loop-Entries m e (suc fuel) ptr f (entry _ _ under other full small rest) room enough =
    round (suc fuel) ptr e m true false (inside_test ptr e under) (other_test (m ptr) other)
    ∙ ap (λ p. madt_loop (suc fuel) p e m) (omega arith)
    ∙ madt_loop-Entries m e fuel (ptr + m (ptr + 1)) f rest room (omega arith)

-- However long the walk goes on, it never gets past an entry of another kind whose length is 0.
pub madt_loop-stuck :
    (fuel ptr madt_end : ℕ) (m : Bytes)
    → ptr < madt_end
    → madt_end ≤ 2 ^ 64
    → m ptr ≢ 1
    → m (ptr + 1) ≡ 0
    → madt_loop fuel ptr madt_end m ≡ none
madt_loop-stuck zero ptr e m under room other empty = unfold madt_loop in refl
madt_loop-stuck (suc fuel) ptr e m under room other empty =
    round fuel ptr e m true false (inside_test ptr e under) (other_test (m ptr) other)
    ∙ ap (λ p. madt_loop fuel p e m) (omega (arith, empty))
    ∙ madt_loop-stuck fuel ptr e m under room other empty
