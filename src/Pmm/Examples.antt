-- ===== src/Pmm/Examples.antt =====
-- A small machine for the allocator of kernel/src/memory/pmm.c, tests on it, and the theorems of
-- the other modules at its states.
use deer.Base.{ℕ, ◌+◌, ◌*◌, ◌/◌, ◌≡◌, ◌≢◌, ◌⊎◌, refl, true, false, arith, [], ◌∷◌}
use deer.Pmm.{
  pmm_zero, pmm_init, set_up_bitmap, survey, survey_entry, mark_unusable, mark_range, bitmap_set,
  bitmap_test, page_usable, page_free, find_loop, find_free_pages, set_loop, pmm_alloc_pages,
  pmm_free_pages, page_size,
}
use deer.Pmm.Loops.{within}
use deer.Pmm.Alloc.{IsValid, IsGranted, Refused, Covered, alloc-Granted_or_Refused}
use deer.Pmm.Free.{free-alloc}
use deer.Pmm.Init.{touched, surveyed, bitmap_start, bitmap_count, init-IsValid}
use deer.Pmm.Ledger.{Reach, start, take, IsBalanced, Reach-IsBalanced, holders}
use deer.Pmm.Safety.{alloc-usable}
use deer.Pmm.Sample.{memory_map, offset, booted, booted_test, booted-IsValid}

alloc_test :
    ((pmm_alloc_pages 3 booted).0 ≡ 0x2000)
    × ((pmm_alloc_pages 3 booted).1.used_pages ≡ 5)
    × ((pmm_alloc_pages 15 booted).0 ≡ 0)
unfolding pmm_init set_up_bitmap survey survey_entry mark_unusable mark_range bitmap_set bitmap_test
    pmm_alloc_pages find_free_pages find_loop page_free page_usable set_loop
alloc_test = (refl, refl, refl)

alloc_three : (pmm_alloc_pages 3 booted).0 ≢ 0
alloc_three = ground (arith, alloc_test)

second_test : (pmm_alloc_pages 2 (pmm_alloc_pages 3 booted).1).0 ≡ 0x5000
unfolding pmm_init set_up_bitmap survey survey_entry mark_unusable mark_range bitmap_set bitmap_test
    pmm_alloc_pages find_free_pages find_loop page_free page_usable set_loop
second_test = refl

alloc_more : (pmm_alloc_pages 2 (pmm_alloc_pages 3 booted).1).0 ≢ 0
alloc_more = ground (arith, second_test)

own_apart :
    (q : ℕ)
    → within
        (bitmap_start (surveyed memory_map pmm_zero))
        (bitmap_count (surveyed memory_map pmm_zero))
        q
      ≡ true
    → touched memory_map q ≡ false
unfolding survey survey_entry
own_apart q h = ground arith

init-IsValid_example : IsValid booted
init-IsValid_example =
    init-IsValid memory_map offset pmm_zero refl ((λ q h. refl), ((λ q h. refl), tt)) own_apart

booted-nonnull : booted.bitmap ≢ 0
booted-nonnull = ground (arith, booted_test)

alloc-Granted_or_Refused_example :
    IsGranted 3 booted (pmm_alloc_pages 3 booted).0 (pmm_alloc_pages 3 booted).1
    ⊎ Refused 3 booted (pmm_alloc_pages 3 booted).0 (pmm_alloc_pages 3 booted).1
alloc-Granted_or_Refused_example =
    alloc-Granted_or_Refused 3 booted booted-IsValid booted-nonnull (omega arith)

free-alloc_example :
    let u = pmm_free_pages (pmm_alloc_pages 3 booted).0 3 (pmm_alloc_pages 3 booted).1 in
    ((q : ℕ) → bitmap_test q u ≡ bitmap_test q booted)
    × (u.used_pages ≡ booted.used_pages)
    × IsValid u
free-alloc_example = free-alloc 3 booted booted-IsValid alloc_three

-- Three pages taken from the machine as it boots.
one_loan : Reach booted (pmm_alloc_pages 3 booted).1 (((pmm_alloc_pages 3 booted).0, 3) ∷ [])
one_loan = take 3 start alloc_three

Reach-IsBalanced_example :
    IsBalanced booted (pmm_alloc_pages 3 booted).1 (((pmm_alloc_pages 3 booted).0, 3) ∷ [])
Reach-IsBalanced_example = Reach-IsBalanced booted-IsValid booted-nonnull one_loan

alloc-usable_example :
    let t = (pmm_alloc_pages 3 booted).1 in
    let page = (pmm_alloc_pages 2 t).0 / page_size + 1 in
    Covered memory_map (page * page_size)
    × (touched memory_map page ≡ false)
    × (within
          (bitmap_start (surveyed memory_map pmm_zero))
          (bitmap_count (surveyed memory_map pmm_zero))
          page
        ≡ false)
    × (holders (((pmm_alloc_pages 3 booted).0, 3) ∷ []) page ≡ 0)
alloc-usable_example =
    alloc-usable memory_map offset pmm_zero (pmm_alloc_pages 3 booted).1
      (((pmm_alloc_pages 3 booted).0, 3) ∷ []) booted-IsValid booted-nonnull one_loan 2 alloc_more 1
      (omega arith)
