-- ===== src/Pmm/Search.antt =====
-- `find_free_pages` of kernel/src/memory/pmm.c finds the first run of free usable pages.
use deer.Base.{
  ℕ, zero, suc, ◌+◌, ◌-◌, ◌≤◌, ◌<◌, ◌≡◌, ◌⊎◌, inl, inr, refl, true, false, arith, ltb, ◌==◌,
  if◌then◌else◌, Bool-cases,
}
use deer.Pmm.{Pmm, page_free, find_loop, find_free_pages, not_found}

-- `count` pages from `start` on are all free and usable.
abbrev pub IsRun : Pmm → (start count : ℕ) → Type 0
IsRun s start count = (k : ℕ) → k < count → page_free s (start + k) ≡ true

-- `start` heads a run below `total`, and no run starts earlier (page 0 apart).
pub record IsFirstRun (s : Pmm) (count total start : ℕ) : Type 0 where
  pub lower : 1 ≤ start
  pub upper : start + count ≤ total
  pub run : IsRun s start count
  pub first : (j : ℕ) → 1 ≤ j → IsRun s j count → start ≤ j

-- No run of `count` pages lies in `[1, total)`.
abbrev pub NoRun : Pmm → (count total : ℕ) → Type 0
NoRun s count total = (j : ℕ) → 1 ≤ j → IsRun s j count → total < j + count

-- What the search says.
abbrev pub Found : Pmm → (count total result : ℕ) → Type 0
Found s count total r = IsFirstRun s count total r ⊎ ((r ≡ not_found) × NoRun s count total)

module _ (s : Pmm) (count total : ℕ) where
  -- The `c` pages before `i` are a run that may grow, and no whole run starts before it.
  record IsOpen (i c st : ℕ) : Type 0 where
    meets : st + c ≡ i
    lower : 1 ≤ st
    short : c < count
    run : IsRun s st c
    first : (j : ℕ) → 1 ≤ j → IsRun s j count → st ≤ j

  grow : (i c st : ℕ) → IsOpen i c st → page_free s i ≡ true → IsRun s st (c + 1)
  grow i c st o free k h = elim (Bool-cases (ltb k c)) [
    | inl below ↦ o.run k (ground arith)
    | inr last ↦ ground (arith, o.meets, free)
  ]

  -- A taken page closes the run: no whole run starts at or before it.
  restart : (i c st : ℕ) → IsOpen i c st → page_free s i ≡ false → IsOpen (i + 1) 0 (i + 1)
  restart i c st o taken = record {
    meets = omega arith;
    lower = omega arith;
    short = omega (arith, o.short);
    run = λ k h. absurd (omega arith);
    first = λ j l r. ground (arith, o.first j l r, o.meets, o.short, r (i - j));
  }

  find_loop-Found :
      (left i c page st : ℕ)
      → (if c == 0 then i else page) ≡ st
      → IsOpen i c st
      → i + left ≡ total
      → Found s count total (find_loop s count left i c page)
  unfolding find_loop
  find_loop-Found zero i c page st e o m =
      inr (refl, λ j l r. omega (arith, o.first j l r, o.meets, o.short))
  find_loop-Found (suc left) i c page st e o m = elim (Bool-cases (page_free s i)) [
    | inl free ↦ elim (Bool-cases (c + 1 == count)) [
      | inl full ↦
          rw (free, full, e)
            (inl (record {
              lower = o.lower;
              upper = ground (arith, o.meets);
              run = λ k h. grow i c st o free k (ground arith);
              first = o.first;
            }))
      | inr more ↦
          rw (free, more, e)
            (find_loop-Found left (i + 1) (c + 1) st st (ground arith)
              (record {
                meets = omega (arith, o.meets);
                lower = o.lower;
                short = ground (arith, o.short);
                run = grow i c st o free;
                first = o.first;
              })
              (omega arith))
    ]
    | inr taken ↦
        rw taken
          (find_loop-Found left (i + 1) 0 page (i + 1) refl (restart i c st o taken) (omega arith))
  ]

find_loop-none : (s : Pmm) (count i c page : ℕ) → find_loop s count 0 i c page ≡ not_found
unfolding find_loop
find_loop-none s count i c page = refl

-- The search over the whole bitmap.
pub find_free_pages-Found :
    (s : Pmm) (count : ℕ) → 0 < count → Found s count s.total_pages (find_free_pages count s)
unfolding find_free_pages
find_free_pages-Found s count pos = elim (Bool-cases (s.total_pages == 0)) [
  | inl empty ↦ inr (ground (arith, find_loop-none s count 1 0 0), λ j l r. ground arith)
  | inr some_pages ↦
      find_loop-Found s count s.total_pages (s.total_pages - 1) 1 0 0 1 refl
        (record {
          meets = omega arith;
          lower = omega arith;
          short = pos;
          run = λ k h. absurd (omega arith);
          first = λ j l r. l;
        })
        (ground arith)
]

find_loop-zero : (s : Pmm) (left i c page : ℕ) → find_loop s 0 left i c page ≡ not_found
unfolding find_loop
find_loop-zero s zero i c page = refl
find_loop-zero s (suc left) i c page = ground (
  arith,
  find_loop-zero s left (i + 1) (c + 1) (if c == 0 then i else page),
  find_loop-zero s left (i + 1) 0 page,
)

-- A request for no pages never succeeds.
pub find_free_pages-zero : (s : Pmm) → find_free_pages 0 s ≡ not_found
unfolding find_free_pages
find_free_pages-zero s = find_loop-zero s (s.total_pages - 1) 1 0 0
