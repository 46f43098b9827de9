-- ===== src/Pmm/Loops.antt =====
-- The loops of `pmm_alloc_pages` and `pmm_free_pages`: what they do to each page's bit, to the
-- counter, and to nothing else.
use deer.Base.{
  ℕ, zero, suc, ◌+◌, ◌^◌, ◌≤◌, ◌<◌, ◌≡◌, refl, Bool, true, false, ◌&&◌, arith, ltb, leb,
  if◌then◌else◌, u64, Bool-cases, inl, inr,
}
use deer.Pmm.{Pmm, bitmap_set, bitmap_clear, bitmap_test, set_loop, clear_loop}
use deer.Pmm.Bitmap.{test-set, test-clear}
use deer.Pmm.Count.{marked, marked-set, marked-clear}

-- Page `q` is one of the `count` pages from `start` on.
abbrev pub within : (start count q : ℕ) → Bool
within start count q = leb start q && ltb q (start + count)

-- All but the bits and the counter is as before.
pub record SameFrame (s t : Pmm) : Type 0 where
  pub memmap : t.current_memmap ≡ s.current_memmap
  pub hhdm : t.current_hhdm ≡ s.current_hhdm
  pub bitmap : t.bitmap ≡ s.bitmap
  pub size : t.bitmap_size ≡ s.bitmap_size
  pub total : t.total_pages ≡ s.total_pages
  pub memory : t.total_memory ≡ s.total_memory

pub set_loop-SameFrame : (start left i : ℕ) (s : Pmm) → SameFrame s (set_loop start left i s)
unfolding set_loop bitmap_set
set_loop-SameFrame start zero i s = ground arith
set_loop-SameFrame start (suc left) i s =
    ground (arith, set_loop-SameFrame start left (i + 1) (bitmap_set (u64 (start + i)) s))

pub clear_loop-SameFrame : (start left i : ℕ) (s : Pmm) → SameFrame s (clear_loop start left i s)
unfolding clear_loop bitmap_clear
clear_loop-SameFrame start zero i s = ground arith
clear_loop-SameFrame start (suc left) i s = ground (
  arith,
  clear_loop-SameFrame start left (i + 1)
      (if ltb (u64 (start + i)) s.total_pages then bitmap_clear (u64 (start + i)) s else s),
)

pub test-set_loop :
    (start left i q : ℕ) (s : Pmm)
    → start + i + left < 2 ^ 64
    → bitmap_test q (set_loop start left i s)
      ≡ (if within (start + i) left q then true else bitmap_test q s)
unfolding set_loop
test-set_loop start zero i q s fits = ground arith
test-set_loop start (suc left) i q s fits = ground (
  arith,
  test-set_loop start left (i + 1) q (bitmap_set (u64 (start + i)) s),
  test-set (u64 (start + i)) q s,
)

clear-total : (p : ℕ) (s : Pmm) → (bitmap_clear p s).total_pages ≡ s.total_pages
unfolding bitmap_clear
clear-total p s = refl

-- Clearing stops at the last page of the bitmap.
pub test-clear_loop :
    (start left i q : ℕ) (s : Pmm)
    → start + i + left < 2 ^ 64
    → bitmap_test q (clear_loop start left i s)
      ≡ (if within (start + i) left q && ltb q s.total_pages then false else bitmap_test q s)
unfolding clear_loop
test-clear_loop start zero i q s fits = ground arith
test-clear_loop start (suc left) i q s fits =
    elim (Bool-cases (ltb (u64 (start + i)) s.total_pages)) [
      | inl inside ↦ rw inside (
          ground (
            arith,
            test-clear_loop start left (i + 1) q (bitmap_clear (u64 (start + i)) s),
            test-clear (u64 (start + i)) q s,
            clear-total (u64 (start + i)) s,
          ))
      | inr outside ↦ rw outside (ground (arith, test-clear_loop start left (i + 1) q s))
    ]

-- The counter after marking pages that were all free.
pub marked-set_loop :
    (n start left i : ℕ) (s : Pmm)
    → start + i + left ≤ n
    → n < 2 ^ 64
    → ((k : ℕ) → k < left → bitmap_test (start + i + k) s ≡ false)
    → marked n (set_loop start left i s) ≡ marked n s + left
unfolding set_loop
marked-set_loop n start zero i s fits small free = omega arith
marked-set_loop n start (suc left) i s fits small free = ground (
  arith,
  marked-set_loop n start left (i + 1) (bitmap_set (u64 (start + i)) s) (omega arith) small
      (λ k h. ground (arith, free (k + 1), test-set (u64 (start + i)) (start + (i + 1) + k) s)),
  marked-set n (u64 (start + i)) s,
  free 0,
)

-- The counter after clearing pages that were all used.
pub marked-clear_loop :
    (start left i : ℕ) (s : Pmm)
    → start + i + left ≤ s.total_pages
    → s.total_pages < 2 ^ 64
    → ((k : ℕ) → k < left → bitmap_test (start + i + k) s ≡ true)
    → marked s.total_pages (clear_loop start left i s) + left ≡ marked s.total_pages s
unfolding clear_loop
marked-clear_loop start zero i s fits small used = omega arith
marked-clear_loop start (suc left) i s fits small used =
    let inside : ltb (u64 (start + i)) s.total_pages ≡ true = ground arith in
    rw inside (
      ground (
        arith,
        marked-clear_loop start left (i + 1) (bitmap_clear (u64 (start + i)) s)
            (omega (arith, clear-total (u64 (start + i)) s))
            (omega (arith, clear-total (u64 (start + i)) s))
            (λ k h.
              ground (arith, used (k + 1), test-clear (u64 (start + i)) (start + (i + 1) + k) s)),
        clear-total (u64 (start + i)) s,
        marked-clear s.total_pages (u64 (start + i)) s,
        used 0,
      ))

-- The counter itself.
pub used-set_loop :
    (start left i : ℕ) (s : Pmm)
    → s.used_pages + left < 2 ^ 64
    → (set_loop start left i s).used_pages ≡ s.used_pages + left
unfolding set_loop bitmap_set
used-set_loop start zero i s small = omega arith
used-set_loop start (suc left) i s small =
    omega (arith, used-set_loop start left (i + 1) (bitmap_set (u64 (start + i)) s))

pub used-clear_loop :
    (start left i : ℕ) (s : Pmm)
    → start + i + left ≤ s.total_pages
    → s.total_pages < 2 ^ 64
    → left ≤ s.used_pages
    → s.used_pages < 2 ^ 64
    → (clear_loop start left i s).used_pages + left ≡ s.used_pages
unfolding clear_loop bitmap_clear
used-clear_loop start zero i s fits small enough bound = omega arith
used-clear_loop start (suc left) i s fits small enough bound =
    let inside : ltb (u64 (start + i)) s.total_pages ≡ true = ground arith in
    rw (inside, clear_loop)
      (omega (
        arith,
        used-clear_loop start left (i + 1) (bitmap_clear (u64 (start + i)) s) (omega arith) small
            (omega arith) (omega arith),
      ))
