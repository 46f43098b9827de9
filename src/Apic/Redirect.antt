-- ===== src/Apic/Redirect.antt =====
-- What `ioapic_redirect_irq` of kernel/src/sys/apic.c does to the registers of the IOAPIC, which are
-- reached through a window: the number of a register is stored at the base, and its value 16 bytes on.
use deer.Base.{
  ℕ, ◌+◌, ◌*◌, ◌≡◌, ◌≢◌, ap, ◌∙◌, arith, bit_or, Bool, true, false, ◌&&◌, [], ◌∷◌, ◌==◌,
  if◌then◌else◌,
}
use deer.Apic.{Apic, Stores, ioapic_write, ioapic_redirect_irq}

-- The number that was stored last at the base.
pub selected : (base : ℕ) → Stores → ℕ
selected base [] = 0
selected base ((address, value) ∷ older) = if address == base then value else selected base older

-- A register behind the stores, from what it held before them.
pub register : (base : ℕ) (before : ℕ → ℕ) → Stores → (reg : ℕ) → ℕ
unfolding selected
register base before [] reg = before reg
register base before ((address, value) ∷ older) reg =
    if address == base + 16 && selected base older == reg
    then value
    else register base before older reg

-- The two stores of one write.
window-register :
    (base : ℕ) (before : ℕ → ℕ) (reg value r : ℕ) (older : Stores)
    → register base before ((base + 16, value) ∷ (base, reg) ∷ older) r
      ≡ (if reg == r then value else register base before older r)
unfolding register selected
window-register base before reg value r older = ground arith

abbrev written : (reg value : ℕ) → Apic → Apic
written reg value s = record s {
  stores = (s.ioapic_base + 16, value) ∷ (s.ioapic_base, reg) ∷ s.stores;
}

ioapic_write-written :
    (reg value : ℕ) (s : Apic) → s.ioapic_base ≢ 0 → ioapic_write reg value s ≡ written reg value s
unfolding ioapic_write
ioapic_write-written reg value s there =
    ap (λ (b : Bool). if b then s else written reg value s) (nonzero s.ioapic_base there)
  where
    nonzero : (n : ℕ) → n ≢ 0 → (n == 0) ≡ false
    nonzero n ne = ground arith

-- With an IOAPIC, whatever was stored before, redirecting a line gives its entry the vector and
-- the delivery mode in the low word and 0 in the high one, and changes no other register.
pub redirect_irq-register :
    (before : ℕ → ℕ) (irq vector delivery_mode r : ℕ) (s : Apic)
    → s.ioapic_available ≡ true
    → s.ioapic_base ≢ 0
    → register s.ioapic_base before (ioapic_redirect_irq irq vector delivery_mode s).stores r ≡ (
        if r == 0x10 + 2 * irq
        then bit_or vector delivery_mode
        else (if r == 0x11 + 2 * irq then 0 else register s.ioapic_base before s.stores r))
unfolding ioapic_redirect_irq
redirect_irq-register before irq vector mode r s available there =
    ap (λ (t : Apic). register s.ioapic_base before t.stores r)
      (ap
          (λ (b : Bool).
            if b then ioapic_write (low + 1) 0 (ioapic_write low (bit_or vector mode) s) else s)
          available
        ∙ ap (ioapic_write (low + 1) 0) (ioapic_write-written low (bit_or vector mode) s there)
        ∙ ioapic_write-written (low + 1) 0 (written low (bit_or vector mode) s) there)
    ∙ window-register s.ioapic_base before (low + 1) 0 r (written low (bit_or vector mode) s).stores
    ∙ ap (λ v. if low + 1 == r then 0 else v)
        (window-register s.ioapic_base before low (bit_or vector mode) r s.stores)
    ∙ order irq r (bit_or vector mode) (register s.ioapic_base before s.stores r)
  where
    low : ℕ
    low = 0x10 + irq * 2

    order :
        (irq r v old : ℕ)
        → (if 0x10 + irq * 2 + 1 == r then 0 else (if 0x10 + irq * 2 == r then v else old))
          ≡ (if r == 0x10 + 2 * irq then v else (if r == 0x11 + 2 * irq then 0 else old))
    order irq r v old = ground arith
