-- ===== src/Pmm/Free.antt =====
-- `pmm_free_pages` of kernel/src/memory/pmm.c: releasing what was granted, and releasing what was
-- not.
use deer.Base.{
  ℕ, ◌+◌, ◌-◌, ◌/◌, ◌^◌, ◌≤◌, ◌<◌, ◌≡◌, ◌≢◌, inl, inr, ap, true, false, ◌&&◌, arith, ltb, ◌==◌,
  if◌then◌else◌, sub64, Bool-cases,
}
use deer.Pmm.{
  Pmm, bitmap_test, bitmap_clear, page_size, clear_loop, pmm_alloc_pages, pmm_free_pages,
  pmm_free_page,
}
use deer.Pmm.Count.{marked, marked-le, marked_ext}
use deer.Pmm.Loops.{
  within, SameFrame, clear_loop-SameFrame, test-clear_loop, marked-clear_loop, used-clear_loop,
}
use deer.Pmm.Alloc.{IsValid, IsGranted, page_free-clear, alloc-IsGranted}

-- With a bitmap, freeing clears exactly the given pages that the bitmap covers, and changes no
-- other variable than the counter.
pub test-free :
    (page count q : ℕ) (s : Pmm)
    → s.bitmap ≢ 0
    → page / page_size + count < 2 ^ 64
    → (bitmap_test q (pmm_free_pages page count s) ≡ (
        if within (page / page_size) count q && ltb q s.total_pages
        then false
        else bitmap_test q s))
      × SameFrame s (pmm_free_pages page count s)
unfolding pmm_free_pages
test-free page count q s ready fits =
    let present : (s.bitmap == 0) ≡ false = ground arith in
    rw present (
      ground (arith, test-clear_loop (page / page_size) count 0 q s),
      clear_loop-SameFrame (page / page_size) count 0 s,
    )

-- Freeing pages that are all used keeps the counter true.
pub free-IsValid :
    (page count : ℕ) (s : Pmm)
    → IsValid s
    → page / page_size + count ≤ s.total_pages
    → ((k : ℕ) → k < count → bitmap_test (page / page_size + k) s ≡ true)
    → IsValid (pmm_free_pages page count s)
      × ((s.bitmap ≢ 0) → (pmm_free_pages page count s).used_pages + count ≡ s.used_pages)
unfolding pmm_free_pages
free-IsValid page count s v fits used = elim (Bool-cases (s.bitmap == 0)) [
  | inl absent ↦ rw absent (v, λ ready. absurd (ground arith))
  | inr present ↦
      let start = page / page_size in
      let t = clear_loop start count 0 s in
      let same = clear_loop-SameFrame start count 0 s in
      let drop =
        marked-clear_loop start count 0 s (omega arith) (omega (arith, v.sized))
          (λ k h. ground (arith, used k)) in
      let down =
        used-clear_loop start count 0 s (omega arith) (omega (arith, v.sized))
          (omega (arith, v.counted))
          (omega (arith, v.counted, v.sized, marked-le s.total_pages s)) in
      rw present (
        record {
          sized = omega (arith, same.total, v.sized);
          counted = omega (arith, drop, down, v.counted, ap (λ (n : ℕ). marked n t) same.total);
        },
        λ ready. down,
      )
]

-- Releasing a granted run gives back every page's bit and the counter.
free-granted :
    (count : ℕ) (s t : Pmm) (addr : ℕ)
    → IsValid s
    → s.bitmap ≢ 0
    → IsGranted count s addr t
    → let u = pmm_free_pages addr count t in
      ((q : ℕ) → bitmap_test q u ≡ bitmap_test q s) × (u.used_pages ≡ s.used_pages) × IsValid u
free-granted count s t addr v ready g =
    let start : addr / page_size ≡ g.start = omega (arith, g.address) in
    let back =
      free-IsValid addr count t g.valid (omega (arith, g.run.upper, g.frame.total))
        (λ k h. ground (arith, g.bits (addr / page_size + k))) in
    let present : t.bitmap ≢ 0 = λ e. ready (omega (arith, g.frame.bitmap, e)) in
    (
      λ q. ground (
        arith,
        test-free addr count q t,
        g.bits q,
        v.sized,
        g.run.upper,
        g.frame.total,
        page_free-clear s q,
        g.run.run (q - g.start),
      ),
      omega (arith, back.1 present, g.used),
      back.0,
    )

pub alloc-null : (count : ℕ) (s : Pmm) → s.bitmap ≡ 0 → (pmm_alloc_pages count s).0 ≡ 0
unfolding pmm_alloc_pages
alloc-null count s e = rw e

-- What `pmm_alloc_pages` grants, `pmm_free_pages` of the same address and count takes back: every
-- page's bit and the counter are as before the call, and the state is valid.
pub free-alloc :
    (count : ℕ) (s : Pmm)
    → IsValid s
    → (pmm_alloc_pages count s).0 ≢ 0
    → let (addr, t) = pmm_alloc_pages count s in
      let u = pmm_free_pages addr count t in
      ((q : ℕ) → bitmap_test q u ≡ bitmap_test q s) × (u.used_pages ≡ s.used_pages) × IsValid u
free-alloc count s v nonzero =
    free-granted count s (pmm_alloc_pages count s).1 (pmm_alloc_pages count s).0 v
      (λ e. nonzero (alloc-null count s e)) (alloc-IsGranted count s v nonzero)

used-free_one :
    (page : ℕ) (s : Pmm)
    → s.bitmap ≢ 0
    → page / page_size < s.total_pages
    → s.total_pages ≤ 2 ^ 52
    → (pmm_free_page page s).used_pages ≡ sub64 s.used_pages 1
unfolding pmm_free_page pmm_free_pages clear_loop bitmap_clear
used-free_one page s ready inside small = ground arith

test-free_one :
    (page q : ℕ) (s : Pmm)
    → s.bitmap ≢ 0
    → page / page_size < s.total_pages
    → s.total_pages ≤ 2 ^ 52
    → (bitmap_test q (pmm_free_page page s)
        ≡ (if page / page_size == q then false else bitmap_test q s))
      × SameFrame s (pmm_free_page page s)
unfolding pmm_free_page
test-free_one page q s ready inside small =
    let freed = test-free page 1 q s ready (omega arith) in (ground (arith, freed.0), freed.1)

-- Releasing a page that is not in use leaves the bitmap as it was and moves the counter, which
-- counts the bitmap no more.
pub free-clear_page :
    (page : ℕ) (s : Pmm)
    → IsValid s
    → s.bitmap ≢ 0
    → page / page_size < s.total_pages
    → bitmap_test (page / page_size) s ≡ false
    → let u = pmm_free_page page s in ((q : ℕ) → bitmap_test q u ≡ bitmap_test q s) × ¬ IsValid u
free-clear_page page s v ready inside clear =
    let u = pmm_free_page page s in
    let freed = λ (q : ℕ). test-free_one page q s ready inside v.sized in
    let same : (q : ℕ) → bitmap_test q u ≡ bitmap_test q s = λ q. ground (arith, (freed q).0) in
    (
      same,
      λ w. omega (
        arith,
        used-free_one page s ready inside v.sized,
        w.counted,
        v.counted,
        (freed 0).1.total,
        ap (λ (n : ℕ). marked n u) (freed 0).1.total,
        marked_ext s.total_pages s u (λ q h. same q),
        v.sized,
        marked-le s.total_pages s,
      ),
    )

-- Two successful calls in a row grant no page twice.
pub alloc_twice-disjoint :
    (m n : ℕ) (s : Pmm)
    → IsValid s
    → (pmm_alloc_pages m s).0 ≢ 0
    → (pmm_alloc_pages n (pmm_alloc_pages m s).1).0 ≢ 0
    → (q : ℕ) → within ((pmm_alloc_pages m s).0 / page_size) m q ≡ true
    → within ((pmm_alloc_pages n (pmm_alloc_pages m s).1).0 / page_size) n q ≡ false
alloc_twice-disjoint m n s v a b q first =
    let g = alloc-IsGranted m s v a in
    let h = alloc-IsGranted n (pmm_alloc_pages m s).1 g.valid b in
    ground (
      arith,
      g.address,
      h.address,
      g.bits q,
      h.run.run (q - h.start),
      page_free-clear (pmm_alloc_pages m s).1 q,
    )
