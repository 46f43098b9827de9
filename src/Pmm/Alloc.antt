-- ===== src/Pmm/Alloc.antt =====
-- `pmm_alloc_pages` of kernel/src/memory/pmm.c: what it grants, and what it changes.
use deer.Base.{
  ℕ, zero, suc, ◌+◌, ◌*◌, ◌^◌, ◌≤◌, ◌<◌, ◌≡◌, ◌≢◌, ◌⊎◌, inl, inr, refl, ap, true, false, arith,
  ◌==◌, if◌then◌else◌, u64, Bool-cases, List, [], ◌∷◌,
}
use deer.Pmm.{
  Pmm, Entry, bitmap_test, page_usable, page_free, page_size, find_free_pages, not_found, set_loop,
  pmm_alloc_pages,
}
use deer.Pmm.Search.{IsFirstRun, NoRun, find_free_pages-Found, find_free_pages-zero}
use deer.Pmm.Count.{marked, marked-le}
use deer.Pmm.Loops.{
  within, SameFrame, set_loop-SameFrame, test-set_loop, marked-set_loop, used-set_loop,
}

-- The bitmap covers addresses of 64 bits, and the counter counts its bits.
pub record IsValid (s : Pmm) : Type 0 where
  pub sized : s.total_pages ≤ 2 ^ 52
  pub counted : s.used_pages ≡ marked s.total_pages s

-- An address inside a usable entry of the memory map.
abbrev pub Covered : List Entry → ℕ → Type 0
Covered [] a = ⊥
Covered (e ∷ es) a =
    ((e.usable ≡ true) × (e.base ≤ a) × (a < u64 (e.base + e.length))) ⊎ Covered es a

pub page_usable-Covered : (es : List Entry) (a : ℕ) → page_usable es a ≡ true → Covered es a
unfolding page_usable
page_usable-Covered [] a h = absurd (cc)
page_usable-Covered (e ∷ es) a h = ground (arith, page_usable-Covered es a)

-- What a successful call of `pmm_alloc_pages` gives.
pub record IsGranted (count : ℕ) (s : Pmm) (addr : ℕ) (t : Pmm) : Type 0 where
  pub start : ℕ
  pub run : IsFirstRun s count s.total_pages start
  pub address : addr ≡ start * page_size
  pub nonzero : addr ≢ 0
  pub bits : (q : ℕ) → bitmap_test q t ≡ (if within start count q then true else bitmap_test q s)
  pub used : t.used_pages ≡ s.used_pages + count
  pub frame : SameFrame s t
  pub valid : IsValid t

-- And a call that fails.
abbrev pub Refused : ℕ → Pmm → ℕ → Pmm → Type 0
Refused count s addr t = (addr ≡ 0) × (t ≡ s) × NoRun s count s.total_pages

pub page_free-clear : (s : Pmm) (i : ℕ) → page_free s i ≡ true → bitmap_test i s ≡ false
unfolding page_free
page_free-clear s i h = ground arith

module _ (count : ℕ) (s : Pmm) (v : IsValid s) (pos : 0 < count) (start : ℕ)
    (r : IsFirstRun s count s.total_pages start) where
  run-clear : (k : ℕ) → k < count → bitmap_test (start + 0 + k) s ≡ false
  run-clear k h = ground (arith, page_free-clear s (start + k), r.run k h)

  set_loop-used : (set_loop start count 0 s).used_pages ≡ s.used_pages + count
  set_loop-used =
      used-set_loop start count 0 s
        (omega (arith, v.counted, v.sized, r.upper, marked-le s.total_pages s))

  set_loop-counted :
      marked s.total_pages (set_loop start count 0 s) ≡ marked s.total_pages s + count
  set_loop-counted =
      marked-set_loop s.total_pages start count 0 s (omega (arith, r.upper))
        (omega (arith, v.sized)) run-clear

  set_loop-IsValid : IsValid (set_loop start count 0 s)
  set_loop-IsValid =
      let t = set_loop start count 0 s in
      let same = set_loop-SameFrame start count 0 s in
      record {
        sized = omega (arith, same.total, v.sized);
        counted = omega (
          arith,
          set_loop-used,
          set_loop-counted,
          v.counted,
          ap (λ (n : ℕ). marked n t) same.total,
        );
      }

  granted : IsGranted count s (u64 (start * page_size)) (set_loop start count 0 s)
  granted = record {
    start = start;
    run = r;
    address = omega (arith, v.sized, r.upper);
    nonzero = omega (arith, v.sized, r.upper, r.lower);
    bits = λ q. ground (arith, test-set_loop start count 0 q s, v.sized, r.upper);
    used = set_loop-used;
    frame = set_loop-SameFrame start count 0 s;
    valid = set_loop-IsValid;
  }

-- From a valid state with a bitmap, a request for at least one page either gets the first run of
-- free usable pages, whose bits it sets and counts, or finds no such run and changes nothing.
pub alloc-Granted_or_Refused :
    (count : ℕ) (s : Pmm)
    → IsValid s
    → s.bitmap ≢ 0
    → 0 < count
    → let r = pmm_alloc_pages count s in IsGranted count s r.0 r.1 ⊎ Refused count s r.0 r.1
unfolding pmm_alloc_pages
alloc-Granted_or_Refused count s v ready pos =
    let present : (s.bitmap == 0) ≡ false = ground arith in
    rw present (elim (find_free_pages-Found s count pos) [
      | inl r ↦
          let hit : (find_free_pages count s == not_found) ≡ false =
            ground (arith, v.sized, r.upper) in
          rw hit (inl (granted count s v pos (find_free_pages count s) r))
      | inr (miss, absent) ↦ rw miss (inr (refl, refl, absent))
    ])

-- An address other than 0 is a grant, whatever the count.
pub alloc-IsGranted :
    (count : ℕ) (s : Pmm)
    → IsValid s
    → (pmm_alloc_pages count s).0 ≢ 0
    → IsGranted count s (pmm_alloc_pages count s).0 (pmm_alloc_pages count s).1
alloc-IsGranted zero s v nonzero = absurd (nonzero (unfold pmm_alloc_pages in none_asked))
  where
    none_asked : (pmm_alloc_pages 0 s).0 ≡ 0
    none_asked = unfold pmm_alloc_pages in ground (arith, find_free_pages-zero s)
alloc-IsGranted (suc n) s v nonzero = elim (Bool-cases (s.bitmap == 0)) [
  | inl absent ↦ absurd (nonzero (unfold pmm_alloc_pages in rw absent))
  | inr present ↦ elim (alloc-Granted_or_Refused (suc n) s v (ground arith) (omega arith)) [
    | inl g ↦ g
    | inr r ↦ absurd (nonzero r.0)
  ]
]

-- A failed call changes nothing.
pub alloc-unchanged :
    (count : ℕ) (s : Pmm)
    → (pmm_alloc_pages count s).0 ≡ 0
    → IsValid s
    → (pmm_alloc_pages count s).1 ≡ s
unfolding pmm_alloc_pages
alloc-unchanged zero s e v = ground (arith, find_free_pages-zero s)
alloc-unchanged (suc n) s e v = elim (Bool-cases (s.bitmap == 0)) [
  | inl absent ↦ rw absent
  | inr present ↦ elim (alloc-Granted_or_Refused (suc n) s v (ground arith) (omega arith)) [
    | inl g ↦ absurd (g.nonzero e)
    | inr r ↦ r.1
  ]
]
