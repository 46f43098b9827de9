-- ===== src/Pmm/Sample.antt =====
-- A small machine for kernel/src/memory/pmm.c.
use deer.Base.{ℕ, ◌+◌, ◌≡◌, refl, true, false, arith, List, [], ◌∷◌, some}
use deer.Pmm.{
  Pmm, Entry, pmm_zero, pmm_init, set_up_bitmap, survey, survey_entry, mark_unusable, mark_range,
  bitmap_set, bitmap_test,
}
use deer.Pmm.Count.{marked}
use deer.Pmm.Alloc.{IsValid}

-- 64 KiB of memory behind one reserved page; the bitmap takes page 1.
abbrev pub memory_map : List Entry
memory_map =
    record { base = 0; length = 4096; usable = false }
    ∷ record { base = 4096; length = 61440; usable = true }
    ∷ []

abbrev pub offset : ℕ
offset = 0xFFFF_8000_0000_0000

abbrev pub booted : Pmm
booted = pmm_init (some memory_map) (some offset) pmm_zero

pub booted_test :
    (booted.total_pages ≡ 16)
    × (booted.used_pages ≡ 2)
    × (booted.bitmap ≡ offset + 4096)
    × (bitmap_test 0 booted ≡ true)
    × (bitmap_test 1 booted ≡ true)
    × (bitmap_test 2 booted ≡ false)
unfolding pmm_init set_up_bitmap survey survey_entry mark_unusable mark_range bitmap_set bitmap_test
booted_test = (refl, refl, refl, refl, refl, refl)

pub booted-IsValid : IsValid booted
unfolding pmm_init set_up_bitmap survey survey_entry mark_unusable mark_range bitmap_set bitmap_test
    marked
booted-IsValid = record { sized = omega arith; counted = refl }

-- Two megabytes behind the reserved page.
abbrev pub roomy_map : List Entry
roomy_map =
    record { base = 0; length = 4096; usable = false }
    ∷ record { base = 4096; length = 0x1FF000; usable = true }
    ∷ []

abbrev pub roomy : Pmm
roomy = pmm_init (some roomy_map) (some offset) pmm_zero

pub roomy_test : (roomy.total_pages ≡ 512) × (bitmap_test 0 roomy ≡ true)
unfolding pmm_init set_up_bitmap survey survey_entry mark_unusable mark_range bitmap_set bitmap_test
roomy_test = (refl, refl)

pub roomy-IsValid : IsValid roomy
unfolding pmm_init set_up_bitmap survey survey_entry mark_unusable mark_range bitmap_set bitmap_test
    marked
roomy-IsValid = record { sized = omega arith; counted = refl }
