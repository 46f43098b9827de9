-- ===== src/Pmm/Ledger.antt =====
-- The allocator of kernel/src/memory/pmm.c against a ledger of the runs that are on loan: callers
-- take runs and give back, whole, runs that they hold.
use mathlib.Core.Path.{subst}
use deer.Base.{
  ℕ, ◌+◌, ◌-◌, ◌/◌, ◌≤◌, ◌≡◌, ◌≢◌, refl, sym, Bool, arith, if◌then◌else◌, List, [], ◌∷◌, ◌++◌,
}
use deer.Pmm.{Pmm, bitmap_test, page_size, pmm_alloc_pages, pmm_free_pages}
use deer.Pmm.Loops.{within, SameFrame}
use deer.Pmm.Alloc.{IsValid, alloc-IsGranted, page_free-clear}
use deer.Pmm.Free.{test-free, free-IsValid}

-- The address and the number of pages of each run on loan.
abbrev pub Ledger : Type 0
Ledger = List (ℕ × ℕ)

abbrev pub indicator : Bool → ℕ
indicator b = if b then 1 else 0

-- How many runs of the ledger hold page `q`.
abbrev pub holders : Ledger → ℕ → ℕ
holders [] q = 0
holders ((addr, count) ∷ l) q = indicator (within (addr / page_size) count q) + holders l q

abbrev pub Fit : ℕ → Ledger → Type 0
Fit total [] = Unit
Fit total ((addr, count) ∷ l) = (addr / page_size + count ≤ total) × Fit total l

-- The states that callers can reach from `s`.
pub data Reach (s : Pmm) : Pmm → Ledger → Type 0 where
  start : Reach s s []
  take :
      {t : Pmm} {l : Ledger} (count : ℕ)
      → Reach s t l
      → (pmm_alloc_pages count t).0 ≢ 0
      → Reach s (pmm_alloc_pages count t).1 (((pmm_alloc_pages count t).0, count) ∷ l)
  give_back :
      {t : Pmm} {l k : Ledger} (front back : Ledger) (addr count : ℕ)
      → Reach s t k
      → k ≡ front ++ (addr, count) ∷ back
      → l ≡ front ++ back
      → Reach s (pmm_free_pages addr count t) l

-- Each page has at most one owner, the ledger or the bits of `s`, and its bit says whether it has.
pub record IsBalanced (s t : Pmm) (l : Ledger) : Type 0 where
  pub owners : (q : ℕ) → indicator (bitmap_test q s) + holders l q ≡ indicator (bitmap_test q t)
  pub fit : Fit s.total_pages l
  pub valid : IsValid t
  pub frame : SameFrame s t

holders-split :
    (front back : Ledger) (addr count q : ℕ)
    → holders (front ++ (addr, count) ∷ back) q
      ≡ indicator (within (addr / page_size) count q) + holders (front ++ back) q
holders-split [] back addr count q = refl
holders-split ((a, n) ∷ front) back addr count q =
    omega (arith, holders-split front back addr count q)

Fit-split :
    (total : ℕ) (front back : Ledger) (addr count : ℕ)
    → Fit total (front ++ (addr, count) ∷ back)
    → (addr / page_size + count ≤ total) × Fit total (front ++ back)
Fit-split total [] back addr count f = f
Fit-split total ((a, n) ∷ front) back addr count f =
    let rest = Fit-split total front back addr count f.1 in (rest.0, (f.0, rest.1))

take-IsBalanced :
    (count : ℕ) (s t : Pmm) (l : Ledger)
    → IsBalanced s t l
    → (pmm_alloc_pages count t).0 ≢ 0
    → IsBalanced s (pmm_alloc_pages count t).1 (((pmm_alloc_pages count t).0, count) ∷ l)
take-IsBalanced count s t l b nonzero =
    let g = alloc-IsGranted count t b.valid nonzero in
    let at : (pmm_alloc_pages count t).0 / page_size ≡ g.start = omega (arith, g.address) in
    record {
      owners = λ q.
          ground (arith, at, g.bits q, b.owners q, page_free-clear t q, g.run.run (q - g.start));
      fit = (omega (arith, g.run.upper, b.frame.total), b.fit);
      valid = g.valid;
      frame = ground (arith, g.frame, b.frame);
    }

give_back-IsBalanced :
    (front back : Ledger) (addr count : ℕ) (s t : Pmm)
    → s.bitmap ≢ 0
    → IsBalanced s t (front ++ (addr, count) ∷ back)
    → IsBalanced s (pmm_free_pages addr count t) (front ++ back)
give_back-IsBalanced front back addr count s t ready b =
    let parts = Fit-split s.total_pages front back addr count b.fit in
    let present : t.bitmap ≢ 0 = λ e. ready (omega (arith, b.frame.bitmap, e)) in
    let freed = λ (q : ℕ).
      test-free addr count q t present (omega (arith, parts.0, b.frame.total, b.valid.sized)) in
    record {
      owners = λ q. ground (
        arith,
        (freed q).0,
        b.owners q,
        holders-split front back addr count q,
        parts.0,
        b.frame.total,
      );
      fit = parts.1;
      valid =
          (free-IsValid addr count t b.valid (omega (arith, parts.0, b.frame.total)) (λ k h.
            ground (
              arith,
              b.owners (addr / page_size + k),
              holders-split front back addr count (addr / page_size + k),
            ))).0;
      frame = ground (arith, (freed 0).1, b.frame);
    }

-- From a valid state with a bitmap, whatever runs callers take and give back: no page is on loan
-- twice or both on loan and used before, every page's bit tells whether it is one of those, and the
-- counter is right.
pub Reach-IsBalanced :
    {s t : Pmm} {l : Ledger} → IsValid s → s.bitmap ≢ 0 → Reach s t l → IsBalanced s t l
Reach-IsBalanced v ready start = record {
  owners = λ q. omega arith;
  fit = tt;
  valid = v;
  frame = ground arith;
}
Reach-IsBalanced {s} v ready (take {t} {l} count r nonzero) =
    take-IsBalanced count s t l (Reach-IsBalanced v ready r) nonzero
Reach-IsBalanced {s} v ready (give_back {t} {l} {k} front back addr count r e f) =
    subst (IsBalanced s (pmm_free_pages addr count t)) (sym f) (
      give_back-IsBalanced front back addr count s t ready
        (subst (IsBalanced s t) e (Reach-IsBalanced v ready r)))
