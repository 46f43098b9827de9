-- ===== src/Pmm/Init.antt =====
-- `pmm_init` of kernel/src/memory/pmm.c: which pages it marks used, and when its counter is right.
use native.Mathlib.Nat.{zero-div}
use deer.Base.{
  ℕ, zero, suc, ◌+◌, ◌-◌, ◌/◌, ◌%◌, ◌^◌, ◌≤◌, ◌<◌, ◌≡◌, inl, inr, refl, ap, ◌∙◌, Bool, true, false,
  ◌&&◌, ◌||◌, not, arith, ltb, if◌then◌else◌, u64, Bool-cases, List, [], ◌∷◌, some,
}
use deer.Pmm.{
  Pmm, Entry, Survey, bitmap_test, bitmap_set, page_size, mark_range, mark_unusable, survey,
  survey_entry, set_up_bitmap, pmm_init,
}
use deer.Pmm.Bitmap.{test-set, bitmap_test_lem}
use deer.Pmm.Count.{marked, marked-le, marked_ext, marked-set}
use deer.Pmm.Loops.{within, SameFrame}
use deer.Pmm.Alloc.{IsValid}

-- The pages that an entry touches, as the code rounds them: down at its base, up at its end.
abbrev pub first_page : Entry → ℕ
first_page e = e.base / page_size

abbrev pub page_count : Entry → ℕ
page_count e = u64 (e.base + e.length + page_size - 1) / page_size - first_page e

-- Some entry that is not usable touches page `q`.
abbrev pub touched : List Entry → ℕ → Bool
touched [] q = false
touched (e ∷ es) q = (not e.usable && within (first_page e) (page_count e) q) || touched es q

set-SameFrame : (p : ℕ) (s : Pmm) → SameFrame s (bitmap_set p s)
unfolding bitmap_set
set-SameFrame p s = ground arith

used-set : (p : ℕ) (s : Pmm) → (bitmap_set p s).used_pages ≡ u64 (s.used_pages + 1)
unfolding bitmap_set
used-set p s = refl

pub mark_range-SameFrame : (left page : ℕ) (s : Pmm) → SameFrame s (mark_range left page s)
unfolding mark_range bitmap_set
mark_range-SameFrame zero page s = ground arith
mark_range-SameFrame (suc left) page s = ground (
  arith,
  mark_range-SameFrame left (page + 1) (if ltb page s.total_pages then bitmap_set page s else s),
)

pub test-mark_range :
    (left page q : ℕ) (s : Pmm)
    → bitmap_test q (mark_range left page s)
      ≡ (if within page left q && ltb q s.total_pages then true else bitmap_test q s)
unfolding mark_range
test-mark_range zero page q s = ground arith
test-mark_range (suc left) page q s = elim (Bool-cases (ltb page s.total_pages)) [
  | inl inside ↦ rw inside (
      ground (
        arith,
        test-mark_range left (page + 1) q (bitmap_set page s),
        test-set page q s,
        (set-SameFrame page s).total,
      ))
  | inr outside ↦ rw outside (ground (arith, test-mark_range left (page + 1) q s))
]

pub mark_unusable-SameFrame : (es : List Entry) (s : Pmm) → SameFrame s (mark_unusable es s)
unfolding mark_unusable
mark_unusable-SameFrame [] s = ground arith
mark_unusable-SameFrame (e ∷ es) s = ground (
  arith,
  mark_range-SameFrame (page_count e) (first_page e) s,
  mark_unusable-SameFrame es (if e.usable then s else mark_range (page_count e) (first_page e) s),
)

pub test-mark_unusable :
    (es : List Entry) (q : ℕ) (s : Pmm)
    → bitmap_test q (mark_unusable es s)
      ≡ (if touched es q && ltb q s.total_pages then true else bitmap_test q s)
unfolding mark_unusable
test-mark_unusable [] q s = ground arith
test-mark_unusable (e ∷ es) q s = elim (Bool-cases e.usable) [
  | inl skip ↦ rw skip (test-mark_unusable es q s)
  | inr mark ↦ rw mark (
      ground (
        arith,
        test-mark_unusable es q (mark_range (page_count e) (first_page e) s),
        test-mark_range (page_count e) (first_page e) q s,
        (mark_range-SameFrame (page_count e) (first_page e) s).total,
      ))
]

set-IsValid :
    (p : ℕ) (s : Pmm)
    → IsValid s
    → p < s.total_pages
    → bitmap_test p s ≡ false
    → IsValid (bitmap_set p s)
set-IsValid p s v inside clear =
    let same = (set-SameFrame p s).total in
    record {
      sized = omega (arith, same, v.sized);
      counted = omega (
        arith,
        used-set p s,
        v.counted,
        v.sized,
        marked-set s.total_pages p s inside clear,
        marked-le s.total_pages s,
        ap (λ (n : ℕ). marked n (bitmap_set p s)) same,
      );
    }

-- Marking a page that is marked moves the counter all the same.
pub set-marked_page :
    (p : ℕ) (s : Pmm)
    → IsValid s
    → bitmap_test p s ≡ true
    → ((q : ℕ) → bitmap_test q (bitmap_set p s) ≡ bitmap_test q s) × ¬ IsValid (bitmap_set p s)
set-marked_page p s v used =
    let same : (q : ℕ) → bitmap_test q (bitmap_set p s) ≡ bitmap_test q s =
      λ q. ground (arith, test-set p q s) in
    let total = (set-SameFrame p s).total in
    (
      same,
      λ w. omega (
        arith,
        used-set p s,
        w.counted,
        v.counted,
        v.sized,
        marked-le s.total_pages s,
        marked_ext s.total_pages s (bitmap_set p s) (λ q h. same q),
        ap (λ (n : ℕ). marked n (bitmap_set p s)) total,
      ),
    )

-- The counter stays true while no page is marked twice.
pub mark_range-IsValid :
    (left page : ℕ) (s : Pmm)
    → IsValid s
    → ((q : ℕ) → within page left q ≡ true → q < s.total_pages → bitmap_test q s ≡ false)
    → IsValid (mark_range left page s)
unfolding mark_range
mark_range-IsValid zero page s v clear = v
mark_range-IsValid (suc left) page s v clear = elim (Bool-cases (ltb page s.total_pages)) [
  | inl inside ↦ rw inside (
      mark_range-IsValid left (page + 1) (bitmap_set page s)
        (set-IsValid page s v (ground arith) (ground (arith, clear page)))
        (λ q h k. ground (arith, test-set page q s, clear q, (set-SameFrame page s).total)))
  | inr outside ↦
      rw outside (mark_range-IsValid left (page + 1) s v (λ q h k. ground (arith, clear q)))
]

-- No two unusable entries touch one page.
abbrev pub Apart : List Entry → Type 0
Apart [] = Unit
Apart (e ∷ es) =
    ((q : ℕ)
      → (not e.usable && within (first_page e) (page_count e) q) ≡ true
      → touched es q ≡ false)
    × Apart es

mark_unusable-IsValid :
    (es : List Entry) (s : Pmm)
    → IsValid s
    → Apart es
    → ((q : ℕ) → touched es q ≡ true → q < s.total_pages → bitmap_test q s ≡ false)
    → IsValid (mark_unusable es s)
unfolding mark_unusable
mark_unusable-IsValid [] s v apart clear = v
mark_unusable-IsValid (e ∷ es) s v apart clear = elim (Bool-cases e.usable) [
  | inl skip ↦ rw skip (mark_unusable-IsValid es s v apart.1 (λ q h k. ground (arith, clear q)))
  | inr mark ↦ rw mark (
      mark_unusable-IsValid es (mark_range (page_count e) (first_page e) s)
        (mark_range-IsValid (page_count e) (first_page e) s v (λ q h k. ground (arith, clear q)))
        apart.1
        (λ q h k. ground (
          arith,
          test-mark_range (page_count e) (first_page e) q s,
          (mark_range-SameFrame (page_count e) (first_page e) s).total,
          apart.0 q,
          clear q,
        )))
]

pub survey-highest :
    (es : List Entry) (v : Survey) → v.highest_addr < 2 ^ 64 → (survey es v).highest_addr < 2 ^ 64
unfolding survey survey_entry
survey-highest [] v h = h
survey-highest (e ∷ es) v h = survey-highest es (survey_entry e v) (ground arith)

-- What the survey of the memory map starts from, and what it finds.
abbrev pub surveyed : List Entry → Pmm → Survey
surveyed es s =
    survey es
      (record { memory = s.total_memory; highest_addr = 0; largest_base = 0; largest_size = 0 })

-- The pages that hold the bitmap itself.
abbrev pub bitmap_start : Survey → ℕ
bitmap_start v = v.largest_base / page_size

abbrev pub bitmap_count : Survey → ℕ
bitmap_count v =
    u64 (v.largest_base + u64 (v.highest_addr / page_size + 7) / 8 + page_size - 1) / page_size
    - bitmap_start v

module _ (es : List Entry) (offset : ℕ) (s : Pmm) where
  -- The state after the `memset`.
  cleared : Pmm
  cleared = record s {
    current_memmap = some es;
    current_hhdm = some offset;
    total_memory = (surveyed es s).memory;
    total_pages = (surveyed es s).highest_addr / page_size;
    bitmap_size = u64 ((surveyed es s).highest_addr / page_size + 7) / 8;
    bitmap = u64 ((surveyed es s).largest_base + offset);
    bytes = λ b.
        if ltb b (u64 ((surveyed es s).highest_addr / page_size + 7) / 8) then 0 else s.bytes b;
  }

  init-eq :
      pmm_init (some es) (some offset) s
      ≡ mark_range
          (bitmap_count (surveyed es s))
          (bitmap_start (surveyed es s))
          (mark_unusable es cleared)
  unfolding pmm_init set_up_bitmap cleared
  init-eq = refl

  pub init-memmap : (pmm_init (some es) (some offset) s).current_memmap ≡ some es
  init-memmap =
      ap (λ (t : Pmm). t.current_memmap) init-eq
      ∙ (mark_range-SameFrame (bitmap_count (surveyed es s)) (bitmap_start (surveyed es s))
          (mark_unusable es cleared)).memmap
      ∙ (mark_unusable-SameFrame es cleared).memmap
      ∙ unfold cleared in refl

  highest-lt : (surveyed es s).highest_addr < 2 ^ 64
  highest-lt = survey-highest es _ (omega arith)

  test-cleared : (q : ℕ) → q < cleared.total_pages → bitmap_test q cleared ≡ false
  unfolding cleared
  test-cleared q h =
      let inside : ltb (q / 8) (u64 ((surveyed es s).highest_addr / page_size + 7) / 8) ≡ true =
        ground (arith, highest-lt) in
      rw (bitmap_test_lem q cleared, inside, zero-div (2 ^ (q % 8))) refl

  used-cleared : cleared.used_pages ≡ s.used_pages
  unfolding cleared
  used-cleared = refl

  marked-cleared : (n : ℕ) → n ≤ cleared.total_pages → marked n cleared ≡ 0
  unfolding marked
  marked-cleared zero h = refl
  marked-cleared (suc n) h = ground (arith, test-cleared n h, marked-cleared n (omega arith))

  -- After `pmm_init` a page below the bound is used exactly if an unusable entry or the bitmap
  -- touches it.
  pub init-bits :
      (q : ℕ)
      → q < (pmm_init (some es) (some offset) s).total_pages
      → bitmap_test q (pmm_init (some es) (some offset) s)
        ≡ (touched es q || within (bitmap_start (surveyed es s)) (bitmap_count (surveyed es s)) q)
  init-bits q h = rw init-eq (
      ground (
        arith,
        test-mark_range (bitmap_count (surveyed es s)) (bitmap_start (surveyed es s)) q
            (mark_unusable es cleared),
        (mark_range-SameFrame (bitmap_count (surveyed es s)) (bitmap_start (surveyed es s))
            (mark_unusable es cleared)).total,
        (mark_unusable-SameFrame es cleared).total,
        test-mark_unusable es q cleared,
        test-cleared q,
        ap (λ (t : Pmm). t.total_pages) init-eq,
      ))

  -- If `pmm_init` runs with no page counted yet, and no page is touched twice, by two unusable
  -- entries or by one and the bitmap, then its counter is right.
  pub init-IsValid :
      s.used_pages ≡ 0
      → Apart es
      → ((q : ℕ)
          → within (bitmap_start (surveyed es s)) (bitmap_count (surveyed es s)) q ≡ true
          → touched es q ≡ false)
      → IsValid (pmm_init (some es) (some offset) s)
  init-IsValid none_used apart own = rw init-eq (
      mark_range-IsValid (bitmap_count (surveyed es s)) (bitmap_start (surveyed es s))
        (mark_unusable es cleared)
        (mark_unusable-IsValid es cleared start apart (λ q h k. test-cleared q k))
        (λ q h k. ground (
          arith,
          test-mark_unusable es q cleared,
          (mark_unusable-SameFrame es cleared).total,
          own q,
          test-cleared q,
        )))
    where
      start : IsValid cleared
      start = record {
        sized = unfold cleared in omega (arith, highest-lt);
        counted =
            omega
              (arith, used-cleared, none_used, marked-cleared cleared.total_pages (omega arith));
      }
